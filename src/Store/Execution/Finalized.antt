-- ===== src/Store/Execution/Finalized.antt =====
-- internal/persistence/sqlite/execution_repository.go: what a successful FinalizeRun leaves.
use oscar_corrtest.Base.{
  ℕ, suc, ◌≡◌, refl, ap, ◌∙◌, String, Bool, true, false, List, [], ◌∷◌, ◌++◌, Option, some, ok,
  str_eq, any, if◌then◌else◌, arith, eq_iff, Bool-cases, Option-cases, inl, inr, keep,
}
use oscar_corrtest.Run.{Verdict, CleanupStatus, status_eq, cleaning_up, completed}
use oscar_corrtest.Run.Facts.{ExecutionFacts}
use oscar_corrtest.Run.Responsibility.{Report}
use oscar_corrtest.Store.{Db, Row, Call, has_id, find_run, number_event, last_sequence}
use oscar_corrtest.Store.Execution.{
  set_where, close_planned, to_complete, ended, finalize_run, fallback_of, planned_case,
  unjudged_assertion, planned_attempt,
}
use oscar_corrtest.Store.Execution.Closed.{
  fallback_judged, no_planned_case, no_unjudged, no_planned_attempt,
}
use oscar_corrtest.Store.Execution.Confined.{
  OnlyRows-trans, write_cases-OnlyRows, write_attempts-OnlyRows, close_planned-OnlyRows,
  children_of,
}
use oscar_corrtest.Store.Execution.Parts.{finalize_parts}
use oscar_corrtest.Store.Execution.Rows.{any_of_tally}
use oscar_corrtest.Store.Operations.{transition_event}
use oscar_corrtest.Store.Recovered.Cleanup.{IsKeyed}
use oscar_corrtest.Store.Recovered.Prepared.{keyed_row}
use oscar_corrtest.Store.Rows.{on_row, found_id}
use oscar_corrtest.Store.Timeline.{append_parts}

pub find_run-set_where :
    (p : Row → Bool) (f : Row → Row) (keeps : (r : Row) → (f r).run.id ≡ r.run.id) (j : String)
    (rs : List Row)
    → find_run j (set_where p f rs) ≡ on_row (λ r. if p r then f r else r) (find_run j rs)
unfolding find_run
find_run-set_where p f keeps j [] = refl
find_run-set_where p f keeps j (r ∷ rs) = elim (Bool-cases (p r)) [
  | inl hit ↦
      let same : has_id j (f r) ≡ has_id j r = ap (λ i. str_eq i j) (keeps r) in
      rw (hit, same)
        (elim (Bool-cases (has_id j r)) [
          | inl own ↦ rw own (rw hit refl)
          | inr other ↦ rw other (find_run-set_where p f keeps j rs)
        ])
  | inr miss ↦ rw miss (elim (Bool-cases (has_id j r)) [
    | inl own ↦ rw own (rw miss refl)
    | inr other ↦ rw other (find_run-set_where p f keeps j rs)
  ])
]

untouched_row :
    (id j : String) (f : Row → Row)
    → str_eq id j ≡ false
    → (rs : List Row)
    → on_row (λ r. if to_complete id r then f r else r) (find_run j rs) ≡ find_run j rs
untouched_row id j f other rs = elim (Option-cases (find_run j rs)) [
  | inl gone ↦ rw gone refl
  | inr (row, found) ↦
      let miss : to_complete id row ≡ false =
        rw (found_id j rs found) (ground (arith, eq_iff id j, eq_iff j id)) in
      rw found (rw miss refl)
]

module _ (broken : Call → Bool) (id : String) (facts : ExecutionFacts) (v : Verdict)
    (c : CleanupStatus) (report : Option Report) (t : String) (at : Option ℕ) (db : Db) where
  -- After a finalization no case and no attempt of the run is planned and no assertion of it lacks a verdict,
  -- whichever facts were given; the rows of every other run are as they were.
  pub finalize_settles :
      {after : Db}
      → finalize_run broken id facts v c report t at db ≡ ok after
      → (any (planned_case id) after.children ≡ false)
        × (any (unjudged_assertion id) after.children ≡ false)
        × (any (planned_attempt id) after.children ≡ false)
        × ((j : String) → str_eq id j ≡ false → children_of j after ≡ children_of j db)
  finalize_settles {after} h =
      let (cases, attempts, r, _, _, cases_done, attempts_done, _, _, written) =
        finalize_parts broken id facts v c report t at db h in
      let (same, _, _) = append_parts broken _ _ written in
      let rows : after.children ≡ (close_planned id (fallback_of v) at attempts).children =
        ap (λ (d : Db). d.children) same in
      let only =
        OnlyRows-trans id db attempts (close_planned id (fallback_of v) at attempts)
          (OnlyRows-trans id db cases attempts
            (write_cases-OnlyRows broken id facts.cases db cases_done)
            (write_attempts-OnlyRows broken id at facts.attempts cases attempts_done))
          (close_planned-OnlyRows broken id (fallback_of v) at attempts) in
      (
        ap (any (planned_case id)) rows
            ∙ no_planned_case id (fallback_of v) at (fallback_judged v) attempts,
        ap (any (unjudged_assertion id)) rows
            ∙ no_unjudged id (fallback_of v) at (fallback_judged v) attempts,
        ap (any (planned_attempt id)) rows
            ∙ no_planned_attempt id (fallback_of v) at (fallback_judged v) attempts,
        λ j other. ap (keep (λ x. str_eq x.run_id j)) rows ∙ only.others j other,
      )

  -- Where the ids are distinct: a finalization that succeeds was of a run that was cleaning up; the run is
  -- completed with the verdict, the cleanup state and the report that were given, every other run is as it was,
  -- and exactly one event is added, which has the run's next number.
  pub finalize_run_lem :
      {after : Db}
      → IsKeyed db.runs
      → finalize_run broken id facts v c report t at db ≡ ok after
      → (row : Row) × (r : Report) × (find_run id db.runs ≡ some row)
        × (status_eq row.run.status cleaning_up ≡ true)
        × (report ≡ some r)
        × (find_run id after.runs ≡ some (ended v c r t at row))
        × ((j : String) → str_eq id j ≡ false → find_run j after.runs ≡ find_run j db.runs)
        × (after.events
            ≡ db.events
              ++ number_event db (transition_event id cleaning_up completed at "Run completed")
                ∷ [])
  finalize_run_lem {after} keyed h =
      let (cases, attempts, r, _, _, cases_done, attempts_done, given, one, written) =
        finalize_parts broken id facts v c report t at db h in
      let (same, _, _) = append_parts broken _ _ written in
      let only =
        OnlyRows-trans id db cases attempts
          (write_cases-OnlyRows broken id facts.cases db cases_done)
          (write_attempts-OnlyRows broken id at facts.attempts cases attempts_done) in
      let runs : attempts.runs ≡ db.runs = ap (λ (d : Db). d.runs) only.rest in
      let events : attempts.events ≡ db.events = ap (λ (d : Db). d.events) only.rest in
      let (row, found, cleaning) =
        keyed_row (λ x. status_eq x.run.status cleaning_up) id db.runs keyed
          (any_of_tally (to_complete id) db.runs (rw runs at one)) in
      let set = ended v c r t at in
      let after_runs : after.runs ≡ set_where (to_complete id) set db.runs =
        ap (λ (d : Db). d.runs) same ∙ ap (set_where (to_complete id) set) runs in
      let found_after = λ (j : String).
        ap (find_run j) after_runs
        ∙ find_run-set_where (to_complete id) set (λ x. refl) j db.runs in
      let event = transition_event id cleaning_up completed at "Run completed" in
      let own : to_complete id row ≡ true =
        rw (found_id id db.runs found) (rw cleaning (ground (arith, eq_iff id id))) in
      (
        row,
        r,
        found,
        cleaning,
        given,
        found_after id ∙ rw found (rw own refl),
        λ j other. found_after j ∙ untouched_row id j set other db.runs,
        ap (λ (d : Db). d.events) same
            ∙ ap (λ es. es ++ record event { sequence = suc (last_sequence id es) } ∷ []) events,
      )

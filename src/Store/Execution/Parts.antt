-- ===== src/Store/Execution/Parts.antt =====
-- internal/persistence/sqlite/execution_repository.go: what a successful FinalizeRun has passed on its way.
use oscar_corrtest.Base.{
  ℕ, ◌≡◌, refl, ap, ◌∙◌, String, Bool, true, false, ◌||◌, not, List, ◌∷◌, Option, none, some, ok,
  err, ◌==◌, tally, >>=-eq-ok, ok-injective, refuse_if-eq-ok, arith, Result,
}
use oscar_corrtest.Run.{
  Verdict, CleanupStatus, verdict_valid, cleanup_valid, cleaning_up, completed, is_zero,
}
use oscar_corrtest.Run.Facts.{
  CaseFact, AssertionFact, AlertAttemptFact, ExecutionFacts, FactError, validate_facts,
}
use oscar_corrtest.Run.Responsibility.{Report}
use oscar_corrtest.Store.{
  Db, Call, append_event, begin_tx, commit, run_cases, assertions, alert_attempts, write_rows,
  write_run, bad_completion, unknown_case, unknown_assertion, unknown_attempt, not_cleaning,
}
use oscar_corrtest.Store.Execution.{
  set_where, write_assertions, write_cases, write_attempts, close_rows, close_planned, complete_row,
  to_complete, ended, finalize_run, fallback_of, is_report, the_report, as_facts, this_assertion,
  this_case, this_attempt, update_children, on_case, on_assertion, on_attempt, judged, evaluated,
  sent,
}
use oscar_corrtest.Store.Operations.{transition_event}

as_facts_ok : (r : Result FactError (Unit {0})) {u : Unit {0}} → as_facts r ≡ ok u → r ≡ ok tt
as_facts_ok (ok done) h = refl
as_facts_ok (err e) h = cc

first_valid : (a b c d : Bool) → (not a || not b || not c || d) ≡ false → a ≡ true
first_valid true b c d h = refl
first_valid false b c d h = cc

report_given : (r : Option Report) {saved : Report} → the_report r ≡ ok saved → r ≡ some saved
report_given none h = cc
report_given (some r) h = ap some (ok-injective h)

module _ (broken : Call → Bool) where
  pub write_assertions_parts :
      (id : String) (f : CaseFact) (a : AssertionFact) (more : List AssertionFact) (db : Db)
      {next : Db}
      → write_assertions broken id f (a ∷ more) db ≡ ok next
      → ((tally (this_assertion id f a) db.children == 1) ≡ true)
        × (write_assertions broken id f more
              (update_children (this_assertion id f a) (on_assertion (evaluated a)) db)
            ≡ ok next)
  unfolding write_assertions
  write_assertions_parts id f a more db h =
      let (_, h1) = refuse_if-eq-ok (broken (write_rows assertions)) unknown_assertion _ h in
      let (one, h2) =
        refuse_if-eq-ok (not (tally (this_assertion id f a) db.children == 1)) unknown_assertion _
          h1 in
      (ground arith, h2)

  pub write_cases_parts :
      (id : String) (f : CaseFact) (more : List CaseFact) (db : Db) {next : Db}
      → write_cases broken id (f ∷ more) db ≡ ok next
      → (mid : Db) × ((tally (this_case id f) db.children == 1) ≡ true)
        × (write_assertions broken id f f.assertions
              (update_children (this_case id f) (on_case (judged f)) db)
            ≡ ok mid)
        × (write_cases broken id more mid ≡ ok next)
  unfolding write_cases
  write_cases_parts id f more db h =
      let (_, h1) = refuse_if-eq-ok (broken (write_rows run_cases)) unknown_case _ h in
      let (one, h2) =
        refuse_if-eq-ok (not (tally (this_case id f) db.children == 1)) unknown_case _ h1 in
      let (mid, done, rest) =
        >>=-eq-ok
          (write_assertions broken id f f.assertions
            (update_children (this_case id f) (on_case (judged f)) db))
          _ h2 in
      (mid, ground arith, done, rest)

  pub write_attempts_parts :
      (id : String) (at : Option ℕ) (f : AlertAttemptFact) (more : List AlertAttemptFact) (db : Db)
      {next : Db}
      → write_attempts broken id at (f ∷ more) db ≡ ok next
      → ((tally (this_attempt id f) db.children == 1) ≡ true)
        × (write_attempts broken id at more
              (update_children (this_attempt id f) (on_attempt (sent f at)) db)
            ≡ ok next)
  unfolding write_attempts
  write_attempts_parts id at f more db h =
      let (_, h1) = refuse_if-eq-ok (broken (write_rows alert_attempts)) unknown_attempt _ h in
      let (one, h2) =
        refuse_if-eq-ok (not (tally (this_attempt id f) db.children == 1)) unknown_attempt _ h1 in
      (ground arith, h2)

  close_rows_parts :
      (id : String) (v : Verdict) (at : Option ℕ) (db : Db) {next : Db}
      → close_rows broken id v at db ≡ ok next
      → close_planned id v at db ≡ next
  unfolding close_rows
  close_rows_parts id v at db h =
      let (_, h1) = refuse_if-eq-ok (broken (write_rows run_cases)) _ _ h in
      let (_, h2) = refuse_if-eq-ok (broken (write_rows assertions)) _ _ h1 in
      let (_, h3) = refuse_if-eq-ok (broken (write_rows alert_attempts)) _ _ h2 in ok-injective h3

  complete_row_parts :
      (id : String) (v : Verdict) (c : CleanupStatus) (r : Report) (t : String) (at : Option ℕ)
      (db : Db) {next : Db}
      → complete_row broken id v c r t at db ≡ ok next
      → ((tally (to_complete id) db.runs == 1) ≡ true)
        × (record db { runs = set_where (to_complete id) (ended v c r t at) db.runs } ≡ next)
  unfolding complete_row
  complete_row_parts id v c r t at db h =
      let (_, h1) = refuse_if-eq-ok (broken (write_run id)) not_cleaning _ h in
      let (one, h2) =
        refuse_if-eq-ok (not (tally (to_complete id) db.runs == 1)) not_cleaning _ h1 in
      (ground arith, ok-injective h2)

  -- The tables in which the event of the completion is written.
  abbrev pub completed_db : String → Verdict → CleanupStatus → Report → String → Option ℕ → Db → Db
  completed_db id v c r t at db = record (close_planned id (fallback_of v) at db) {
    runs = set_where (to_complete id) (ended v c r t at) db.runs;
  }

  pub finalize_parts :
      (id : String) (facts : ExecutionFacts) (v : Verdict) (c : CleanupStatus)
      (report : Option Report) (t : String) (at : Option ℕ) (db : Db) {after : Db}
      → finalize_run broken id facts v c report t at db ≡ ok after
      → (cases : Db) × (attempts : Db) × (r : Report) × (verdict_valid v ≡ true)
        × (validate_facts facts ≡ ok tt)
        × (write_cases broken id facts.cases db ≡ ok cases)
        × (write_attempts broken id at facts.attempts cases ≡ ok attempts)
        × (report ≡ some r)
        × ((tally (to_complete id) attempts.runs == 1) ≡ true)
        × (append_event broken
              (transition_event id cleaning_up completed at "Run completed")
              (completed_db id v c r t at attempts)
            ≡ ok after)
  unfolding finalize_run
  finalize_parts id facts v c report t at db h =
      let (fit, h1) =
        refuse_if-eq-ok
          (not (verdict_valid v) || not (cleanup_valid c) || not (is_report report) || is_zero at)
          bad_completion _ h in
      let (_, sound, h2) = >>=-eq-ok (as_facts (validate_facts facts)) _ h1 in
      let (_, h3) = refuse_if-eq-ok (broken begin_tx) _ _ h2 in
      let (cases, done_cases, h4) = >>=-eq-ok (write_cases broken id facts.cases db) _ h3 in
      let (attempts, done_attempts, h5) =
        >>=-eq-ok (write_attempts broken id at facts.attempts cases) _ h4 in
      let (closed, done_close, h6) =
        >>=-eq-ok (close_rows broken id (fallback_of v) at attempts) _ h5 in
      let (r, given, h7) = >>=-eq-ok (the_report report) _ h6 in
      let (finished, done_row, h8) = >>=-eq-ok (complete_row broken id v c r t at closed) _ h7 in
      let event = transition_event id cleaning_up completed at "Run completed" in
      let (written, appended, h9) = >>=-eq-ok (append_event broken event finished) _ h8 in
      let (_, same) = refuse_if-eq-ok (broken commit) _ _ h9 in
      let shut = close_rows_parts id (fallback_of v) at attempts done_close in
      let (one, ended_row) = complete_row_parts id v c r t at closed done_row in
      (
        cases,
        attempts,
        r,
        first_valid _ _ _ _ fit,
        as_facts_ok _ sound,
        done_cases,
        done_attempts,
        report_given report given,
        rw (← shut) at one,
        ap
              (λ (d : Db).
                append_event broken event
                  (record d { runs = set_where (to_complete id) (ended v c r t at) d.runs }))
              shut
            ∙ ap (append_event broken event) ended_row
            ∙ appended
            ∙ same,
      )

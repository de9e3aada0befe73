-- ===== src/Store/Execution/Recorded.antt =====
-- internal/persistence/sqlite/execution_repository.go: a finalization writes every fact that it is given.
use oscar_corrtest.Base.{
  ℕ, ◌≡◌, ap, ◌∙◌, String, Bool, true, List, [], ◌∷◌, Option, ok, any, All, Bool-cases, ◌⊎◌, inl,
  inr,
}
use oscar_corrtest.Run.{Verdict, CleanupStatus}
use oscar_corrtest.Run.Facts.{CaseFact, AssertionFact, AlertAttemptFact, ExecutionFacts}
use oscar_corrtest.Run.Responsibility.{Report}
use oscar_corrtest.Store.{Db, Call, Child}
use oscar_corrtest.Store.Execution.{
  write_assertions, write_cases, write_attempts, finalize_run, fallback_of, this_assertion,
  this_case, this_attempt, update_children, on_columns, on_case, on_assertion, on_attempt, judged,
  evaluated, sent, is_planned,
}
use oscar_corrtest.Store.Execution.Kept.{
  IsSettled, Holds, assertions_keep, cases_keep, attempts_keep, closing_keeps,
}
use oscar_corrtest.Store.Execution.Parts.{
  write_assertions_parts, write_cases_parts, write_attempts_parts, finalize_parts,
}
use oscar_corrtest.Store.Execution.Rows.{any_reached, any_of_tally}
use oscar_corrtest.Store.Timeline.{append_parts}
use oscar_corrtest.Store.Execution.Facts.{
  records, records_assertion, records_attempt, judged-records, evaluated-records, sent-records,
}
use oscar_corrtest.Store.Execution.Settled.{
  case-IsSettled, assertion-IsSettled, attempt-IsSettled, HasVerdict, facts-HasVerdict,
}

-- What was written of a fact on a case: its row, and the rows of its assertions.
abbrev pub IsRecorded : String → List Child → CaseFact → Type 0
IsRecorded id rows f =
    (any (records id f) rows ≡ true)
    × All (λ a. any (records_assertion id f a) rows ≡ true) f.assertions

-- An attempt that is not reported as planned has a row of what was reported.
abbrev pub IsReported : String → List Child → AlertAttemptFact → Type 0
IsReported id rows f = (is_planned f.send_state ≡ true) ⊎ (any (records_attempt id f) rows ≡ true)

module _ (id : String) where
  abbrev Keeps : Db → Db → Type 0
  Keeps db next = (q : Child → Bool) → IsSettled id q → Holds q db → Holds q next

  carry_assertions :
      (f : CaseFact) (as' : List AssertionFact) (db next : Db)
      → Keeps db next
      → All HasVerdict as'
      → All (λ a. any (records_assertion id f a) db.children ≡ true) as'
      → All (λ a. any (records_assertion id f a) next.children ≡ true) as'
  carry_assertions f [] db next keeps valid h = tt
  carry_assertions f (a ∷ more) db next keeps (one, valid) (now, h) = (
    keeps (records_assertion id f a) (assertion-IsSettled id f a one) now,
    carry_assertions f more db next keeps valid h,
  )

  carry_cases :
      (fs : List CaseFact) (db next : Db)
      → Keeps db next
      → All (λ f. All HasVerdict f.assertions) fs
      → All (IsRecorded id db.children) fs
      → All (IsRecorded id next.children) fs
  carry_cases [] db next keeps valid h = tt
  carry_cases (f ∷ more) db next keeps (mine, valid) ((row, rows), h) = (
    (
      keeps (records id f) (case-IsSettled id f) row,
      carry_assertions f f.assertions db next keeps mine rows,
    ),
    carry_cases more db next keeps valid h,
  )

  carry_attempts :
      (fs : List AlertAttemptFact) (db next : Db)
      → Keeps db next
      → All (IsReported id db.children) fs
      → All (IsReported id next.children) fs
  carry_attempts [] db next keeps h = tt
  carry_attempts (f ∷ more) db next keeps (one, h) = (
    elim (Bool-cases (is_planned f.send_state)) [
      | inl planned ↦ inl planned
      | inr tried ↦ elim one [
        | inl planned ↦ inl planned
        | inr row ↦ inr (keeps (records_attempt id f) (attempt-IsSettled id f tried) row)
      ]
    ],
    carry_attempts more db next keeps h,
  )

  module _ (broken : Call → Bool) where
    assertions-Recorded :
        (f : CaseFact) (as' : List AssertionFact) (db : Db) {next : Db}
        → All HasVerdict as'
        → write_assertions broken id f as' db ≡ ok next
        → All (λ a. any (records_assertion id f a) next.children ≡ true) as'
    assertions-Recorded f [] db valid k = tt
    assertions-Recorded f (a ∷ more) db (one, valid) k =
        let (found, rest) = write_assertions_parts broken id f a more db k in
        let first = update_children (this_assertion id f a) (on_assertion (evaluated a)) db in
        let row =
          any_reached (this_assertion id f a) (on_columns (on_assertion (evaluated a)))
            (records_assertion id f a) (evaluated-records id f a) db.children
            (any_of_tally (this_assertion id f a) db.children found) in
        (
          assertions_keep id (records_assertion id f a) (assertion-IsSettled id f a one) broken f
              more first row rest,
          assertions-Recorded f more first valid rest,
        )

    cases-Recorded :
        (fs : List CaseFact) (db : Db) {next : Db}
        → All (λ f. All HasVerdict f.assertions) fs
        → write_cases broken id fs db ≡ ok next
        → All (IsRecorded id next.children) fs
    cases-Recorded [] db valid k = tt
    cases-Recorded (f ∷ more) db {next} (mine, valid) k =
        let (mid, found, done, rest) = write_cases_parts broken id f more db k in
        let first = update_children (this_case id f) (on_case (judged f)) db in
        let row =
          any_reached (this_case id f) (on_columns (on_case (judged f))) (records id f)
            (judged-records id f) db.children (any_of_tally (this_case id f) db.children found) in
        let row_mid =
          assertions_keep id (records id f) (case-IsSettled id f) broken f f.assertions first row
            done in
        let keeps : Keeps mid next =
          λ q settled h. cases_keep id q settled broken more mid h rest in
        (
          (
            keeps (records id f) (case-IsSettled id f) row_mid,
            carry_assertions f f.assertions mid next keeps mine
                (assertions-Recorded f f.assertions first mine done),
          ),
          cases-Recorded more mid valid rest,
        )

    attempts-Reported :
        (at : Option ℕ) (fs : List AlertAttemptFact) (db : Db) {next : Db}
        → write_attempts broken id at fs db ≡ ok next
        → All (IsReported id next.children) fs
    attempts-Reported at [] db k = tt
    attempts-Reported at (f ∷ more) db k =
        let (found, rest) = write_attempts_parts broken id at f more db k in
        let first = update_children (this_attempt id f) (on_attempt (sent f at)) db in
        let row =
          any_reached (this_attempt id f) (on_columns (on_attempt (sent f at)))
            (records_attempt id f) (sent-records id f at) db.children
            (any_of_tally (this_attempt id f) db.children found) in
        (
          elim (Bool-cases (is_planned f.send_state)) [
            | inl planned ↦ inl planned
            | inr tried ↦ inr (
                attempts_keep id (records_attempt id f) (attempt-IsSettled id f tried) broken at
                  more first row rest)
          ],
          attempts-Reported at more first rest,
        )

    -- After a finalization each of the given facts on a case, an assertion or an attempt has a row of the run with
    -- its keys that says what the fact says: the verdicts, texts and times of cases and assertions, and the state,
    -- class, status and fingerprint of attempts. Neither a later fact nor the closing of what has no fact overwrites
    -- it; an attempt that is itself reported as planned is excepted.
    pub finalize_records :
        (facts : ExecutionFacts) (v : Verdict) (c : CleanupStatus) (report : Option Report)
        (t : String) (at : Option ℕ) (db : Db) {after : Db}
        → finalize_run broken id facts v c report t at db ≡ ok after
        → All (IsRecorded id after.children) facts.cases
          × All (IsReported id after.children) facts.attempts
    finalize_records facts v c report t at db {after} h =
        let (cases, attempts, r, _, sound, cases_done, attempts_done, _, _, written) =
          finalize_parts broken id facts v c report t at db h in
        let (same, _, _) = append_parts broken _ _ written in
        let valid = facts-HasVerdict facts sound in
        let closed : Keeps attempts after = λ q settled row.
          ap (λ (d : Db). any q d.children) same
          ∙ closing_keeps id q settled (fallback_of v) at attempts row in
        let through : Keeps cases after = λ q settled row.
          closed q settled
            (attempts_keep id q settled broken at facts.attempts cases row attempts_done) in
        (
          carry_cases facts.cases cases after through valid
              (cases-Recorded facts.cases db valid cases_done),
          carry_attempts facts.attempts attempts after closed
              (attempts-Reported at facts.attempts cases attempts_done),
        )

-- ===== src/Store/Execution/Kept.antt =====
-- internal/persistence/sqlite/execution_repository.go: the updates of FinalizeRun keep a row that is settled.
use oscar_corrtest.Base.{
  ℕ, ◌≡◌, refl, sym, ap, ◌∙◌, String, Bool, true, false, List, [], ◌∷◌, Option, ok, any,
  ok-injective,
}
use oscar_corrtest.Run.{Verdict}
use oscar_corrtest.Run.Facts.{CaseFact, AssertionFact, AlertAttemptFact}
use oscar_corrtest.Store.{Db, Call, Child, Columns}
use oscar_corrtest.Store.Execution.{
  write_assertions, write_cases, write_attempts, close_planned, close_cases, close_assertions,
  this_assertion, this_case, this_attempt, update_children, on_columns, on_case, on_assertion,
  on_attempt, judged, evaluated, sent, planned_case, unjudged_assertion, planned_attempt,
  unexecuted, unevaluated, unsent,
}
use oscar_corrtest.Store.Execution.Parts.{
  write_assertions_parts, write_cases_parts, write_attempts_parts,
}
use oscar_corrtest.Store.Execution.Rows.{any_stays}

-- A row that passes the test is neither planned nor without a verdict.
abbrev pub IsSettled : String → (Child → Bool) → Type 0
IsSettled id q =
    (c : Child)
    → q c ≡ true
    → (planned_case id c ≡ false)
      × (unjudged_assertion id c ≡ false)
      × (planned_attempt id c ≡ false)

abbrev pub Holds : (Child → Bool) → Db → Type 0
Holds q db = any q db.children ≡ true

module _ (id : String) (q : Child → Bool) (settled : IsSettled id q) where
  stays :
      (p : Child → Bool) (g : Columns → Columns) (db : Db)
      → ((c : Child) → q c ≡ true → p c ≡ false)
      → Holds q db
      → Holds q (update_children p g db)
  stays p g db apart = any_stays p (on_columns g) q apart db.children

  module _ (broken : Call → Bool) where
    pub assertions_keep :
        (g : CaseFact) (as' : List AssertionFact) (db : Db) {next : Db}
        → Holds q db
        → write_assertions broken id g as' db ≡ ok next
        → Holds q next
    unfolding write_assertions
    assertions_keep g [] db h k = ap (λ (d : Db). any q d.children) (sym (ok-injective k)) ∙ h
    assertions_keep g (a ∷ more) db h k =
        let (_, rest) = write_assertions_parts broken id g a more db k in
        assertions_keep g more
          (update_children (this_assertion id g a) (on_assertion (evaluated a)) db)
          (stays (this_assertion id g a) (on_assertion (evaluated a)) db
            (λ c own. let (_, two, _) = settled c own in rw two refl) h)
          rest

    pub cases_keep :
        (gs : List CaseFact) (db : Db) {next : Db}
        → Holds q db
        → write_cases broken id gs db ≡ ok next
        → Holds q next
    unfolding write_cases
    cases_keep [] db h k = ap (λ (d : Db). any q d.children) (sym (ok-injective k)) ∙ h
    cases_keep (g ∷ more) db h k =
        let (mid, _, done, rest) = write_cases_parts broken id g more db k in
        let first = update_children (this_case id g) (on_case (judged g)) db in
        cases_keep more mid
          (assertions_keep g g.assertions first
            (stays (this_case id g) (on_case (judged g)) db
              (λ c own. let (one, _, _) = settled c own in rw one refl) h)
            done)
          rest

    pub attempts_keep :
        (at : Option ℕ) (gs : List AlertAttemptFact) (db : Db) {next : Db}
        → Holds q db
        → write_attempts broken id at gs db ≡ ok next
        → Holds q next
    unfolding write_attempts
    attempts_keep at [] db h k = ap (λ (d : Db). any q d.children) (sym (ok-injective k)) ∙ h
    attempts_keep at (g ∷ more) db h k =
        let (_, rest) = write_attempts_parts broken id at g more db k in
        attempts_keep at more (update_children (this_attempt id g) (on_attempt (sent g at)) db)
          (stays (this_attempt id g) (on_attempt (sent g at)) db
            (λ c own. let (_, _, three) = settled c own in rw three refl) h)
          rest

  pub closing_keeps :
      (v : Verdict) (at : Option ℕ) (db : Db) → Holds q db → Holds q (close_planned id v at db)
  closing_keeps v at db h =
      let one = close_cases id v at db in
      let two = close_assertions id v at one in
      stays (planned_attempt id) (on_attempt (unsent at)) two
        (λ c own. let (_, _, three) = settled c own in three)
        (stays (unjudged_assertion id) (on_assertion (unevaluated v at)) one
          (λ c own. let (_, two, _) = settled c own in two)
          (stays (planned_case id) (on_case (unexecuted v at)) db
            (λ c own. let (one, _, _) = settled c own in one) h))

-- ===== src/Store/Execution/Repeats.antt =====
-- internal/persistence/sqlite/execution_repository.go: a finalization refuses facts that repeat a case.
use oscar_corrtest.Base.{
  ℕ, ◌≡◌, refl, sym, ap, ◌∙◌, String, Bool, true, false, ◌&&◌, List, [], ◌∷◌, Option, ok, err,
  str_eq, any, map, ok-injective, arith, eq_iff, Bool-cases, inl, inr,
}
use oscar_corrtest.Base.Assoc.{contains}
use oscar_corrtest.Run.{Verdict, CleanupStatus}
use oscar_corrtest.Run.Facts.{CaseFact, AssertionFact, ExecutionFacts}
use oscar_corrtest.Run.Responsibility.{Report}
use oscar_corrtest.Store.{
  Db, Call, Child, Columns, StoreError, Outcome, case_columns, assertion_columns, attempt_columns,
  no_columns,
}
use oscar_corrtest.Store.Documents.Planned.{AreDistinct}
use oscar_corrtest.Store.Execution.{
  write_assertions, write_cases, finalize_run, this_assertion, this_case, update_children,
  on_columns, on_case, on_assertion, judged, evaluated, case_is, is_planned, planned_case,
}
use oscar_corrtest.Store.Execution.Closed.{case_on_assertion}
use oscar_corrtest.Store.Execution.Parts.{write_assertions_parts, write_cases_parts, finalize_parts}
use oscar_corrtest.Store.Execution.Rows.{any_same, any_of_tally, none_left, none_more}

-- The planned case with a key.
abbrev with_key : String → String → Child → Bool
with_key id k c = planned_case id c && case_is (λ r. str_eq r.stable_key k) c.columns

abbrev Gone : String → String → Db → Type 0
Gone id k db = any (with_key id k) db.children ≡ false

judged_gone :
    (id k : String) (g : CaseFact) (c : Child)
    → with_key id k (on_columns (on_case (judged g)) c) ≡ false
judged_gone id k g c = look c c.columns
  where
    look :
        (d : Child) (cs : Columns)
        → ((str_eq d.run_id id && case_is (λ r. is_planned r.status) (on_case (judged g) cs))
            && case_is (λ r. str_eq r.stable_key k) (on_case (judged g) cs))
          ≡ false
    look d (case_columns r) = ground arith
    look d (assertion_columns r) = ground arith
    look d (attempt_columns r) = ground arith
    look d no_columns = ground arith

module _ (broken : Call → Bool) (id : String) where
  assertions_Gone :
      (k : String) (g : CaseFact) (as' : List AssertionFact) (db : Db) {next : Db}
      → Gone id k db
      → write_assertions broken id g as' db ≡ ok next
      → Gone id k next
  unfolding write_assertions
  assertions_Gone k g [] db h done =
      ap (λ (d : Db). any (with_key id k) d.children) (sym (ok-injective done)) ∙ h
  assertions_Gone k g (a ∷ more) db h done =
      let (_, rest) = write_assertions_parts broken id g a more db done in
      assertions_Gone k g more
        (update_children (this_assertion id g a) (on_assertion (evaluated a)) db)
        (any_same (this_assertion id g a) (on_columns (on_assertion (evaluated a))) (with_key id k)
            (λ c. ground (
              arith,
              case_on_assertion (λ r. is_planned r.status) (evaluated a) c.columns,
              case_on_assertion (λ r. str_eq r.stable_key k) (evaluated a) c.columns,
            ))
            db.children
          ∙ h)
        rest

  -- Where no planned case has a key, no further fact with it is accepted.
  not_again :
      (k : String) (gs : List CaseFact) (db : Db) {next : Db}
      → Gone id k db
      → write_cases broken id gs db ≡ ok next
      → contains k (map (λ (f : CaseFact). f.stable_key) gs) ≡ false
  not_again k [] db h done = refl
  not_again k (g ∷ more) db h done =
      let (mid, one, judged_mid, rest) = write_cases_parts broken id g more db done in
      let first = update_children (this_case id g) (on_case (judged g)) db in
      let later =
        not_again k more mid
          (assertions_Gone k g g.assertions first
            (none_more (this_case id g) (on_columns (on_case (judged g))) (with_key id k)
              (judged_gone id k g) db.children h)
            judged_mid)
          rest in
      elim (Bool-cases (str_eq k g.stable_key)) [
        | inr other ↦ rw other later
        | inl same ↦
            let own : any (with_key id g.stable_key) db.children ≡ true =
              any_of_tally (this_case id g) db.children one in
            cc (own, h, ap (λ j. any (with_key id j) db.children) ((eq_iff k g.stable_key).0 same))
      ]

  distinct_cases :
      (fs : List CaseFact) (db : Db) {next : Db}
      → write_cases broken id fs db ≡ ok next
      → AreDistinct (map (λ (f : CaseFact). f.stable_key) fs)
  distinct_cases [] db done = tt
  distinct_cases (f ∷ more) db done =
      let (mid, _, judged_mid, rest) = write_cases_parts broken id f more db done in
      let first = update_children (this_case id f) (on_case (judged f)) db in
      (
        not_again f.stable_key more mid
            (assertions_Gone f.stable_key f f.assertions first
              (none_left (this_case id f) (on_columns (on_case (judged f)))
                (λ c h. judged_gone id f.stable_key f c) db.children)
              judged_mid)
            rest,
        distinct_cases more mid rest,
      )

  refused_or :
      {A B : Type 0} (r : Outcome A)
      → ((x : A) → r ≡ ok x → B)
      → ¬ B
      → (e : StoreError) × (r ≡ err e)
  refused_or (ok x) h bad = absurd (bad (h x refl))
  refused_or (err e) h bad = (e, refl)

  -- Facts in which two cases have the same key are refused with an error, whatever the journal holds and
  -- whatever else is given.
  pub finalize_refuses_repeats :
      (facts : ExecutionFacts) (v : Verdict) (c : CleanupStatus) (report : Option Report)
      (t : String) (at : Option ℕ) (db : Db)
      → ¬ AreDistinct (map (λ (f : CaseFact). f.stable_key) facts.cases)
      → (e : StoreError) × (finalize_run broken id facts v c report t at db ≡ err e)
  finalize_refuses_repeats facts v c report t at db =
      refused_or (finalize_run broken id facts v c report t at db) (λ after h.
        let (_, _, _, _, _, cases_done, _, _, _, _) =
          finalize_parts broken id facts v c report t at db h in
        distinct_cases facts.cases db cases_done)

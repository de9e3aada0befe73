-- ===== src/Store/Execution/Settled.antt =====
-- internal/persistence/sqlite/execution_repository.go: a row that says what a fact says is settled, where the
-- fact is one that `Validate` accepts.
use oscar_corrtest.Base.{
  ◌≡◌, refl, ap, String, true, false, ◌&&◌, List, [], ◌∷◌, ok, str_eq, All, arith, eq_iff,
  refuse_if-eq-ok, >>=-eq-ok,
}
use oscar_corrtest.Run.{Verdict, same_verdict, verdict_valid}
use oscar_corrtest.Run.Facts.{
  CaseFact, AssertionFact, AlertAttemptFact, ExecutionFacts, bad_case, bad_assertion, each,
  each_case, case_refused, assertion_refused, validate_facts,
}
use oscar_corrtest.Store.{
  Child, Columns, case_columns, assertion_columns, attempt_columns, no_columns,
}
use oscar_corrtest.Store.Execution.{case_is, assertion_is, attempt_is, is_planned}
use oscar_corrtest.Store.Execution.Kept.{IsSettled}
use oscar_corrtest.Store.Recovery.{no_verdict}
use oscar_corrtest.Store.Execution.Facts.{
  case_records, assertion_records, attempt_records, records, of_case, records_assertion,
  records_attempt,
}

completed_status : (s : String) → str_eq s "COMPLETED" ≡ true → str_eq s "PLANNED" ≡ false
completed_status s h = ap (λ t. str_eq t "PLANNED") ((eq_iff s "COMPLETED").0 h)

judged_verdict :
    (v w : Verdict) → verdict_valid w ≡ true → same_verdict v w ≡ true → no_verdict v ≡ false
unfolding verdict_valid same_verdict
judged_verdict Verdict.unset Verdict.pass valid h = cc
judged_verdict Verdict.unset Verdict.fail valid h = cc
judged_verdict Verdict.unset Verdict.inconclusive valid h = cc
judged_verdict Verdict.unset Verdict.error valid h = cc
judged_verdict Verdict.unset Verdict.skipped valid h = cc
judged_verdict Verdict.unset Verdict.unset valid h = cc
judged_verdict Verdict.unset (Verdict.other_verdict s) valid h = cc
judged_verdict Verdict.pass w valid h = refl
judged_verdict Verdict.fail w valid h = refl
judged_verdict Verdict.inconclusive w valid h = refl
judged_verdict Verdict.error w valid h = refl
judged_verdict Verdict.skipped w valid h = refl
judged_verdict (Verdict.other_verdict s) w valid h = refl

module _ (id : String) where
  pub case-IsSettled : (f : CaseFact) → IsSettled id (records id f)
  case-IsSettled f c h = look c c.columns h
    where
      look :
          (d : Child) (k : Columns)
          → (str_eq d.run_id id && case_is (case_records f) k) ≡ true
          → ((str_eq d.run_id id && case_is (λ r. is_planned r.status) k) ≡ false)
            × ((str_eq d.run_id id && assertion_is (λ r. no_verdict r.verdict) k) ≡ false)
            × ((str_eq d.run_id id && attempt_is (λ r. is_planned r.send_state) k) ≡ false)
      look d (case_columns r) k =
          (ground (arith, completed_status r.status), ground arith, ground arith)
      look d (assertion_columns r) k = (ground arith, absurd (ground arith), ground arith)
      look d (attempt_columns r) k = (ground arith, ground arith, absurd (ground arith))
      look d no_columns k = (ground arith, ground arith, ground arith)

  pub assertion-IsSettled :
      (f : CaseFact) (a : AssertionFact)
      → verdict_valid a.verdict ≡ true
      → IsSettled id (records_assertion id f a)
  assertion-IsSettled f a valid c h = look c c.columns h
    where
      look :
          (d : Child) (k : Columns)
          → (of_case id f.stable_key d && assertion_is (assertion_records a) k) ≡ true
          → ((str_eq d.run_id id && case_is (λ r. is_planned r.status) k) ≡ false)
            × ((str_eq d.run_id id && assertion_is (λ r. no_verdict r.verdict) k) ≡ false)
            × ((str_eq d.run_id id && attempt_is (λ r. is_planned r.send_state) k) ≡ false)
      look d (case_columns r) k = absurd (ground arith)
      look d (assertion_columns r) k =
          (ground arith, ground (arith, judged_verdict r.verdict a.verdict valid), ground arith)
      look d (attempt_columns r) k = absurd (ground arith)
      look d no_columns k = absurd (ground arith)

  pub attempt-IsSettled :
      (f : AlertAttemptFact) → is_planned f.send_state ≡ false → IsSettled id (records_attempt id f)
  attempt-IsSettled f tried c h = look c c.columns h
    where
      look :
          (d : Child) (k : Columns)
          → (of_case id f.case_stable_key d && attempt_is (attempt_records f) k) ≡ true
          → ((str_eq d.run_id id && case_is (λ r. is_planned r.status) k) ≡ false)
            × ((str_eq d.run_id id && assertion_is (λ r. no_verdict r.verdict) k) ≡ false)
            × ((str_eq d.run_id id && attempt_is (λ r. is_planned r.send_state) k) ≡ false)
      look d (case_columns r) k = absurd (ground arith)
      look d (assertion_columns r) k = absurd (ground arith)
      look d (attempt_columns r) k = (
        ground arith,
        ground arith,
        let same = ap is_planned ((eq_iff r.send_state f.send_state).0 (ground arith)) in
            ground (arith, same, tried),
      )
      look d no_columns k = absurd (ground arith)

abbrev pub HasVerdict : AssertionFact → Type 0
HasVerdict a = verdict_valid a.verdict ≡ true

each-HasVerdict :
    (as' : List AssertionFact)
    → each assertion_refused bad_assertion as' ≡ ok tt
    → All HasVerdict as'
each-HasVerdict [] h = tt
each-HasVerdict (a ∷ more) h =
    let (fine, rest) = refuse_if-eq-ok (assertion_refused a) bad_assertion _ h in
    (ground arith, each-HasVerdict more rest)

each_case-HasVerdict :
    (fs : List CaseFact) → each_case fs ≡ ok tt → All (λ f. All HasVerdict f.assertions) fs
each_case-HasVerdict [] h = tt
each_case-HasVerdict (f ∷ more) h =
    let (_, h1) = refuse_if-eq-ok (case_refused f) bad_case _ h in
    let (_, mine, h2) = >>=-eq-ok (each assertion_refused bad_assertion f.assertions) _ h1 in
    (each-HasVerdict f.assertions mine, each_case-HasVerdict more h2)

pub facts-HasVerdict :
    (facts : ExecutionFacts)
    → validate_facts facts ≡ ok tt
    → All (λ f. All HasVerdict f.assertions) facts.cases
unfolding validate_facts
facts-HasVerdict facts h =
    let (_, mine, _) = >>=-eq-ok (each_case facts.cases) _ h in
    each_case-HasVerdict facts.cases mine

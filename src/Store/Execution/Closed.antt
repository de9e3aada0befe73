-- ===== src/Store/Execution/Closed.antt =====
-- internal/persistence/sqlite/execution_repository.go: after the last three updates of FinalizeRun nothing of the run is planned.
use oscar_corrtest.Base.{
  ℕ, ◌≡◌, refl, ap, ◌∙◌, String, Bool, false, ◌&&◌, Option, str_eq, any, arith,
}
use oscar_corrtest.Run.{Verdict, inconclusive}
use oscar_corrtest.Store.{
  Db, Child, Columns, CaseRow, AssertionRow, AttemptRow, case_columns, assertion_columns,
  attempt_columns, no_columns,
}
use oscar_corrtest.Store.Execution.{
  close_planned, close_cases, close_assertions, fallback_of, on_columns, on_case, on_assertion,
  on_attempt, planned_case, unjudged_assertion, planned_attempt, unexecuted, unevaluated, unsent,
  case_is, assertion_is, attempt_is, is_planned,
}
use oscar_corrtest.Store.Execution.Rows.{none_left, any_same}
use oscar_corrtest.Store.Recovery.{no_verdict}

pub fallback_judged : (v : Verdict) → no_verdict (fallback_of v) ≡ false
fallback_judged inconclusive = refl
fallback_judged _ = refl

-- A test on the rows of one table does not see an update of another.
pub case_on_assertion :
    (p : CaseRow → Bool) (f : AssertionRow → AssertionRow) (k : Columns)
    → case_is p (on_assertion f k) ≡ case_is p k
case_on_assertion p f (case_columns r) = refl
case_on_assertion p f (assertion_columns r) = refl
case_on_assertion p f (attempt_columns r) = refl
case_on_assertion p f no_columns = refl

pub case_on_attempt :
    (p : CaseRow → Bool) (f : AttemptRow → AttemptRow) (k : Columns)
    → case_is p (on_attempt f k) ≡ case_is p k
case_on_attempt p f (case_columns r) = refl
case_on_attempt p f (assertion_columns r) = refl
case_on_attempt p f (attempt_columns r) = refl
case_on_attempt p f no_columns = refl

assertion_on_attempt :
    (p : AssertionRow → Bool) (f : AttemptRow → AttemptRow) (k : Columns)
    → assertion_is p (on_attempt f k) ≡ assertion_is p k
assertion_on_attempt p f (case_columns r) = refl
assertion_on_attempt p f (assertion_columns r) = refl
assertion_on_attempt p f (attempt_columns r) = refl
assertion_on_attempt p f no_columns = refl

case_on_case :
    (p : CaseRow → Bool) (f : CaseRow → CaseRow) (k : Columns)
    → ((r : CaseRow) → p (f r) ≡ false)
    → case_is p (on_case f k) ≡ false
case_on_case p f (case_columns r) h = h r
case_on_case p f (assertion_columns r) h = refl
case_on_case p f (attempt_columns r) h = refl
case_on_case p f no_columns h = refl

assertion_on_assertion :
    (p : AssertionRow → Bool) (f : AssertionRow → AssertionRow) (k : Columns)
    → ((r : AssertionRow) → p (f r) ≡ false)
    → assertion_is p (on_assertion f k) ≡ false
assertion_on_assertion p f (case_columns r) h = refl
assertion_on_assertion p f (assertion_columns r) h = h r
assertion_on_assertion p f (attempt_columns r) h = refl
assertion_on_assertion p f no_columns h = refl

attempt_on_attempt :
    (p : AttemptRow → Bool) (f : AttemptRow → AttemptRow) (k : Columns)
    → ((r : AttemptRow) → p (f r) ≡ false)
    → attempt_is p (on_attempt f k) ≡ false
attempt_on_attempt p f (case_columns r) h = refl
attempt_on_attempt p f (assertion_columns r) h = refl
attempt_on_attempt p f (attempt_columns r) h = h r
attempt_on_attempt p f no_columns h = refl

of_run_and : (id : String) (c : Child) (b : Bool) → b ≡ false → (str_eq c.run_id id && b) ≡ false
of_run_and id c b h = rw h (ground arith)

-- After the three statements nothing of the run is planned.
module _ (id : String) (v : Verdict) (at : Option ℕ) (unset_less : no_verdict v ≡ false) where
  pub no_planned_case :
      (db : Db) → any (planned_case id) (close_planned id v at db).children ≡ false
  no_planned_case db =
      any_same (planned_attempt id) (on_columns (on_attempt (unsent at))) (planned_case id)
        (λ c.
          ap (λ b. str_eq c.run_id id && b)
            (case_on_attempt (λ r. is_planned r.status) (unsent at) c.columns))
        (close_assertions id v at (close_cases id v at db)).children
      ∙ any_same (unjudged_assertion id) (on_columns (on_assertion (unevaluated v at)))
          (planned_case id)
          (λ c.
            ap (λ b. str_eq c.run_id id && b)
              (case_on_assertion (λ r. is_planned r.status) (unevaluated v at) c.columns))
          (close_cases id v at db).children
      ∙ none_left (planned_case id) (on_columns (on_case (unexecuted v at)))
          (λ c h.
            of_run_and id c _
              (case_on_case (λ r. is_planned r.status) (unexecuted v at) c.columns (λ r. refl)))
          db.children

  pub no_unjudged :
      (db : Db) → any (unjudged_assertion id) (close_planned id v at db).children ≡ false
  no_unjudged db =
      any_same (planned_attempt id) (on_columns (on_attempt (unsent at))) (unjudged_assertion id)
        (λ c.
          ap (λ b. str_eq c.run_id id && b)
            (assertion_on_attempt (λ r. no_verdict r.verdict) (unsent at) c.columns))
        (close_assertions id v at (close_cases id v at db)).children
      ∙ none_left (unjudged_assertion id) (on_columns (on_assertion (unevaluated v at)))
          (λ c h. of_run_and id c _ (
            assertion_on_assertion (λ r. no_verdict r.verdict) (unevaluated v at) c.columns
              (λ r. unset_less)))
          (close_cases id v at db).children

  pub no_planned_attempt :
      (db : Db) → any (planned_attempt id) (close_planned id v at db).children ≡ false
  no_planned_attempt db =
      none_left (planned_attempt id) (on_columns (on_attempt (unsent at)))
        (λ c h.
          of_run_and id c _
            (attempt_on_attempt (λ r. is_planned r.send_state) (unsent at) c.columns (λ r. refl)))
        (close_assertions id v at (close_cases id v at db)).children

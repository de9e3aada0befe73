-- ===== src/Store/Execution/Facts.antt =====
-- internal/persistence/sqlite/execution_repository.go: the rows that say what a fact says.
use oscar_corrtest.Base.{
  ℕ, ◌≡◌, refl, String, Bool, true, false, ◌&&◌, Option, none, some, ◌==◌, str_eq, arith, eq_iff,
}
use oscar_corrtest.Run.{Verdict, same_verdict}
use oscar_corrtest.Run.Facts.{CaseFact, AssertionFact, AlertAttemptFact, json_text}
use oscar_corrtest.Store.{
  Child, Columns, CaseRow, AssertionRow, AttemptRow, case_columns, assertion_columns,
  attempt_columns, no_columns,
}
use oscar_corrtest.Store.Execution.{
  this_assertion, this_case, this_attempt, on_columns, on_case, on_assertion, on_attempt, judged,
  evaluated, sent, case_is, assertion_is, attempt_is, is_planned, case_id_of, nullable,
}
use oscar_corrtest.Store.Recovery.{no_verdict}

same_verdict_refl : (v : Verdict) → same_verdict v v ≡ true
unfolding same_verdict
same_verdict_refl (Verdict.other_verdict s) = ground (arith, eq_iff s s)
same_verdict_refl Verdict.pass = refl
same_verdict_refl Verdict.fail = refl
same_verdict_refl Verdict.inconclusive = refl
same_verdict_refl Verdict.error = refl
same_verdict_refl Verdict.skipped = refl
same_verdict_refl Verdict.unset = refl

abbrev pub is_at : Option ℕ → Option ℕ → Bool
is_at none none = true
is_at (some s) (some t) = s == t
is_at s t = false

is_at_refl : (t : Option ℕ) → is_at t t ≡ true
is_at_refl none = refl
is_at_refl (some t) = ground arith

abbrev pub is_text : Option String → Option String → Bool
is_text none none = true
is_text (some s) (some t) = str_eq s t
is_text s t = false

is_text_refl : (t : Option String) → is_text t t ≡ true
is_text_refl none = refl
is_text_refl (some t) = (eq_iff t t).1 refl

-- The rows of the three tables that say what a fact says.
abbrev pub case_records : CaseFact → CaseRow → Bool
case_records f r =
    str_eq r.stable_key f.stable_key
    && str_eq r.status "COMPLETED"
    && same_verdict r.verdict f.verdict
    && is_at r.started_at f.started_at
    && is_at r.ended_at f.ended_at

abbrev pub assertion_records : AssertionFact → AssertionRow → Bool
assertion_records a r =
    (str_eq r.stable_key a.stable_key && str_eq r.kind a.kind)
    && same_verdict r.verdict a.verdict
    && str_eq r.expected (json_text a.expected)
    && is_text r.observed (some (json_text a.observed))
    && str_eq r.explanation a.explanation
    && is_at r.observation_start a.observation_start
    && is_at r.observation_end a.observation_end

abbrev pub attempt_records : AlertAttemptFact → AttemptRow → Bool
attempt_records f r =
    (str_eq r.event_id f.event_id && (r.event_index == f.event_index))
    && str_eq r.send_state f.send_state
    && is_text r.injection_class (some f.injection_class)
    && is_at r.response_status (some f.status_code)
    && is_text r.fingerprint (nullable f.fingerprint)

abbrev pub records : String → CaseFact → Child → Bool
records id f c = str_eq c.run_id id && case_is (case_records f) c.columns

abbrev pub of_case : String → String → Child → Bool
of_case id key c = str_eq c.run_id id && str_eq c.case_id (case_id_of id key)

abbrev pub records_assertion : String → CaseFact → AssertionFact → Child → Bool
records_assertion id f a c =
    of_case id f.stable_key c && assertion_is (assertion_records a) c.columns

abbrev pub records_attempt : String → AlertAttemptFact → Child → Bool
records_attempt id f c = of_case id f.case_stable_key c && attempt_is (attempt_records f) c.columns

module _ (id : String) where
  -- The update of a fact makes its row say what the fact says.
  pub judged-records :
      (f : CaseFact) (c : Child)
      → this_case id f c ≡ true
      → records id f (on_columns (on_case (judged f)) c) ≡ true
  judged-records f c h = look c c.columns h
    where
      look :
          (d : Child) (k : Columns)
          → (str_eq d.run_id id
              && case_is (λ r. is_planned r.status) k
              && case_is (λ r. str_eq r.stable_key f.stable_key) k)
            ≡ true
          → (str_eq d.run_id id && case_is (case_records f) (on_case (judged f) k)) ≡ true
      look d (case_columns r) k =
          ground
            (arith, same_verdict_refl f.verdict, is_at_refl f.started_at, is_at_refl f.ended_at)
      look d (assertion_columns r) k = ground arith
      look d (attempt_columns r) k = ground arith
      look d no_columns k = ground arith

  pub evaluated-records :
      (f : CaseFact) (a : AssertionFact) (c : Child)
      → this_assertion id f a c ≡ true
      → records_assertion id f a (on_columns (on_assertion (evaluated a)) c) ≡ true
  evaluated-records f a c h = look c c.columns h
    where
      look :
          (d : Child) (k : Columns)
          → ((str_eq d.run_id id && assertion_is (λ r. no_verdict r.verdict) k)
              && str_eq d.case_id (case_id_of id f.stable_key)
              && assertion_is (λ r. str_eq r.stable_key a.stable_key && str_eq r.kind a.kind) k)
            ≡ true
          → (of_case id f.stable_key d
              && assertion_is (assertion_records a) (on_assertion (evaluated a) k))
            ≡ true
      look d (assertion_columns r) k = ground (
        arith,
        same_verdict_refl a.verdict,
        (eq_iff (json_text a.expected) (json_text a.expected)).1 refl,
        (eq_iff (json_text a.observed) (json_text a.observed)).1 refl,
        (eq_iff a.explanation a.explanation).1 refl,
        is_at_refl a.observation_start,
        is_at_refl a.observation_end,
      )
      look d (case_columns r) k = absurd (ground arith)
      look d (attempt_columns r) k = absurd (ground arith)
      look d no_columns k = absurd (ground arith)

  pub sent-records :
      (f : AlertAttemptFact) (at : Option ℕ) (c : Child)
      → this_attempt id f c ≡ true
      → records_attempt id f (on_columns (on_attempt (sent f at)) c) ≡ true
  sent-records f at c h = look c c.columns h
    where
      look :
          (d : Child) (k : Columns)
          → ((str_eq d.run_id id && attempt_is (λ r. is_planned r.send_state) k)
              && str_eq d.case_id (case_id_of id f.case_stable_key)
              && attempt_is
                  (λ r. str_eq r.event_id f.event_id && (r.event_index == f.event_index))
                  k)
            ≡ true
          → (of_case id f.case_stable_key d
              && attempt_is (attempt_records f) (on_attempt (sent f at) k))
            ≡ true
      look d (attempt_columns r) k = ground (
        arith,
        (eq_iff f.send_state f.send_state).1 refl,
        (eq_iff f.injection_class f.injection_class).1 refl,
        is_text_refl (nullable f.fingerprint),
      )
      look d (case_columns r) k = absurd (ground arith)
      look d (assertion_columns r) k = absurd (ground arith)
      look d no_columns k = absurd (ground arith)

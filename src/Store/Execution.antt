-- ===== src/Store/Execution.antt =====
-- internal/persistence/sqlite/execution_repository.go: FinalizeRun, which writes the facts of an execution
-- and ends the run in one transaction.
pub mod Rows
pub mod Parts
pub mod Closed
pub mod Confined
pub mod Finalized
pub mod Kept
pub mod Facts
pub mod Settled
pub mod Recorded
pub mod Repeats
use oscar_corrtest.Base.{
  ℕ, String, Bool, true, false, ◌&&◌, ◌||◌, not, List, [], ◌∷◌, Option, none, some, Result, ok, err,
  ◌>>=◌, ◌>>◌, refuse_if, str_eq, ◌==◌, if◌then◌else◌, map, tally, ◌⧺◌,
}
use oscar_corrtest.Run.{
  Verdict, CleanupStatus, cleaning_up, completed, inconclusive, skipped, error, status_eq, is_zero,
  verdict_valid, cleanup_valid,
}
use oscar_corrtest.Run.Facts.{
  CaseFact, AssertionFact, AlertAttemptFact, ExecutionFacts, FactError, validate_facts, json_text,
}
use oscar_corrtest.Run.Responsibility.{Report}
use oscar_corrtest.Store.{
  Row, Db, Call, Outcome, Child, Columns, CaseRow, AssertionRow, AttemptRow, case_columns,
  assertion_columns, attempt_columns, run_cases, assertions, alert_attempts, begin_tx, commit,
  write_rows, write_run, bad_completion, bad_facts, unknown_case, unknown_assertion,
  unknown_attempt, not_cleaning, call, has_id, append_event,
}
use oscar_corrtest.Store.Operations.{transition_event}
use oscar_corrtest.Store.Recovery.{no_verdict}

-- `UPDATE ... SET f WHERE p`; `tally p` is the number of affected rows.
abbrev pub set_where {ℓ} : {A : Type ℓ} → (A → Bool) → (A → A) → List A → List A
set_where p f xs = map (λ x. if p x then f x else x) xs

abbrev pub case_is : (CaseRow → Bool) → Columns → Bool
case_is p (case_columns r) = p r
case_is p c = false

abbrev pub assertion_is : (AssertionRow → Bool) → Columns → Bool
assertion_is p (assertion_columns r) = p r
assertion_is p c = false

abbrev pub attempt_is : (AttemptRow → Bool) → Columns → Bool
attempt_is p (attempt_columns r) = p r
attempt_is p c = false

abbrev pub on_case : (CaseRow → CaseRow) → Columns → Columns
on_case f (case_columns r) = case_columns (f r)
on_case f c = c

abbrev pub on_assertion : (AssertionRow → AssertionRow) → Columns → Columns
on_assertion f (assertion_columns r) = assertion_columns (f r)
on_assertion f c = c

abbrev pub on_attempt : (AttemptRow → AttemptRow) → Columns → Columns
on_attempt f (attempt_columns r) = attempt_columns (f r)
on_attempt f c = c

abbrev pub on_columns : (Columns → Columns) → Child → Child
on_columns f c = record c { columns = f c.columns }

abbrev pub update_children : (Child → Bool) → (Columns → Columns) → Db → Db
update_children p f db = record db { children = set_where p (on_columns f) db.children }

abbrev pub is_planned : String → Bool
is_planned status = str_eq status "PLANNED"

abbrev pub case_id_of : String → String → String
case_id_of id key = id ⧺ ":case:" ⧺ key

abbrev pub planned_case : String → Child → Bool
planned_case id c = str_eq c.run_id id && case_is (λ r. is_planned r.status) c.columns

abbrev pub unjudged_assertion : String → Child → Bool
unjudged_assertion id c = str_eq c.run_id id && assertion_is (λ r. no_verdict r.verdict) c.columns

abbrev pub planned_attempt : String → Child → Bool
planned_attempt id c = str_eq c.run_id id && attempt_is (λ r. is_planned r.send_state) c.columns

abbrev pub this_case : String → CaseFact → Child → Bool
this_case id f c = planned_case id c && case_is (λ r. str_eq r.stable_key f.stable_key) c.columns

abbrev pub judged : CaseFact → CaseRow → CaseRow
judged f r = record r {
  status = "COMPLETED";
  verdict = f.verdict;
  started_at = f.started_at;
  ended_at = f.ended_at;
}

abbrev pub this_assertion : String → CaseFact → AssertionFact → Child → Bool
this_assertion id f a c =
    unjudged_assertion id c
    && str_eq c.case_id (case_id_of id f.stable_key)
    && assertion_is (λ r. str_eq r.stable_key a.stable_key && str_eq r.kind a.kind) c.columns

abbrev pub evaluated : AssertionFact → AssertionRow → AssertionRow
evaluated a r = record r {
  expected = json_text a.expected;
  observed = some (json_text a.observed);
  verdict = a.verdict;
  explanation = a.explanation;
  observation_start = a.observation_start;
  observation_end = a.observation_end;
}

abbrev pub this_attempt : String → AlertAttemptFact → Child → Bool
this_attempt id f c =
    planned_attempt id c
    && str_eq c.case_id (case_id_of id f.case_stable_key)
    && attempt_is (λ r. str_eq r.event_id f.event_id && (r.event_index == f.event_index)) c.columns

-- `nullable`.
abbrev pub nullable : String → Option String
nullable s = if str_eq s "" then none else some s

abbrev pub sent : AlertAttemptFact → Option ℕ → AttemptRow → AttemptRow
sent f at r = record r {
  fingerprint = nullable f.fingerprint;
  send_state = f.send_state;
  injection_class = some f.injection_class;
  response_status = some f.status_code;
  updated_at = at;
}

-- The three statements for what was planned and has no fact.
abbrev pub fallback_of : Verdict → Verdict
fallback_of inconclusive = skipped
fallback_of v = error

abbrev pub started_or : Option ℕ → Option ℕ → Option ℕ
started_or none at = at
started_or (some t) at = some t

abbrev pub unexecuted : Verdict → Option ℕ → CaseRow → CaseRow
unexecuted v at r = record r {
  status = "COMPLETED";
  verdict = v;
  started_at = started_or r.started_at at;
  ended_at = at;
}

abbrev pub unevaluated : Verdict → Option ℕ → AssertionRow → AssertionRow
unevaluated v at r = record r {
  observed = some "{\"reason\":\"not evaluated\"}";
  verdict = v;
  explanation = "run ended before assertion evaluation";
  observation_start = at;
  observation_end = at;
}

abbrev pub unsent : Option ℕ → AttemptRow → AttemptRow
unsent at r = record r { send_state = "NOT_SENT"; updated_at = at }

abbrev pub close_cases : String → Verdict → Option ℕ → Db → Db
close_cases id v at db = update_children (planned_case id) (on_case (unexecuted v at)) db

abbrev pub close_assertions : String → Verdict → Option ℕ → Db → Db
close_assertions id v at db =
    update_children (unjudged_assertion id) (on_assertion (unevaluated v at)) db

abbrev pub close_attempts : String → Option ℕ → Db → Db
close_attempts id at db = update_children (planned_attempt id) (on_attempt (unsent at)) db

abbrev pub close_planned : String → Verdict → Option ℕ → Db → Db
close_planned id v at db = close_attempts id at (close_assertions id v at (close_cases id v at db))

abbrev pub to_complete : String → Row → Bool
to_complete id r = has_id id r && status_eq r.run.status cleaning_up

abbrev pub ended : Verdict → CleanupStatus → Report → String → Option ℕ → Row → Row
ended verdict cleanup report terminal_error at r = record r {
  run = record r.run {
    status = completed;
    verdict = verdict;
    cleanup_status = cleanup;
    terminal_error = terminal_error;
    ended_at = at;
    updated_at = at;
  };
  report = report;
}

abbrev pub as_facts : Result FactError (Unit {0}) → Outcome (Unit {0})
as_facts (ok done) = ok tt
as_facts (err e) = err (bad_facts e)

-- A report is `none` where it is not JSON.
abbrev pub is_report : Option Report → Bool
is_report none = false
is_report (some r) = true

abbrev pub the_report : Option Report → Outcome Report
the_report none = err bad_completion
the_report (some r) = ok r

module _ (broken : Call → Bool) where
  unfoldable pub write_assertions : String → CaseFact → List AssertionFact → Db → Outcome Db
  write_assertions id f [] db = ok db
  write_assertions id f (a ∷ more) db = do
    refuse_if (broken (write_rows assertions)) unknown_assertion
    refuse_if (not (tally (this_assertion id f a) db.children == 1)) unknown_assertion
    write_assertions id f more
        (update_children (this_assertion id f a) (on_assertion (evaluated a)) db)

  unfoldable pub write_cases : String → List CaseFact → Db → Outcome Db
  unfolding write_assertions
  write_cases id [] db = ok db
  write_cases id (f ∷ more) db = do
    refuse_if (broken (write_rows run_cases)) unknown_case
    refuse_if (not (tally (this_case id f) db.children == 1)) unknown_case
    next ←
        write_assertions id f f.assertions
          (update_children (this_case id f) (on_case (judged f)) db)
    write_cases id more next

  unfoldable pub write_attempts : String → Option ℕ → List AlertAttemptFact → Db → Outcome Db
  write_attempts id at [] db = ok db
  write_attempts id at (f ∷ more) db = do
    refuse_if (broken (write_rows alert_attempts)) unknown_attempt
    refuse_if (not (tally (this_attempt id f) db.children == 1)) unknown_attempt
    write_attempts id at more (update_children (this_attempt id f) (on_attempt (sent f at)) db)

  unfoldable pub close_rows : String → Verdict → Option ℕ → Db → Outcome Db
  close_rows id v at db = do
    call broken (write_rows run_cases)
    call broken (write_rows assertions)
    call broken (write_rows alert_attempts)
    ok (close_planned id v at db)

  unfoldable pub complete_row :
      String → Verdict → CleanupStatus → Report → String → Option ℕ → Db → Outcome Db
  complete_row id verdict cleanup report terminal_error at db = do
    refuse_if (broken (write_run id)) not_cleaning
    refuse_if (not (tally (to_complete id) db.runs == 1)) not_cleaning
    ok (record db {
      runs = set_where (to_complete id) (ended verdict cleanup report terminal_error at) db.runs;
    })

  unfoldable pub finalize_run :
      String
      → ExecutionFacts
      → Verdict
      → CleanupStatus
      → Option Report
      → String
      → Option ℕ
      → Db
      → Outcome Db
  unfolding validate_facts write_cases write_attempts close_rows complete_row append_event
      verdict_valid cleanup_valid
  finalize_run id facts verdict cleanup report terminal_error at db = do
    refuse_if
        (not (verdict_valid verdict)
          || not (cleanup_valid cleanup)
          || not (is_report report)
          || is_zero at)
        bad_completion
    as_facts (validate_facts facts)
    call broken begin_tx
    cases_written ← write_cases id facts.cases db
    attempts_written ← write_attempts id at facts.attempts cases_written
    closed ← close_rows id (fallback_of verdict) at attempts_written
    saved ← the_report report
    finished ← complete_row id verdict cleanup saved terminal_error at closed
    written ←
        append_event broken (transition_event id cleaning_up completed at "Run completed") finished
    call broken commit
    ok written

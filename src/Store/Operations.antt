-- ===== src/Store/Operations.antt =====
-- internal/persistence/sqlite/run_repository.go, input_attempt.go: the methods that write a run or an event,
-- each in a transaction that is committed last.
use oscar_corrtest.Base.{
  ℕ, String, Bool, ◌&&◌, ◌||◌, not, [], ◌∷◌, ◌++◌, Option, Result, ok, err, ◌>>=◌, ◌>>◌, refuse_if,
  str_eq, any,
}
use oscar_corrtest.Base.Assoc.{contains}
use oscar_corrtest.Run.{
  RunStatus, Verdict, CleanupStatus, Run, other, interrupted, completed, unknown, status_eq,
  can_transition, cleanup_valid, is_zero,
}
use oscar_corrtest.Run as Domain
use oscar_corrtest.Run.Responsibility.{Detail, RunEvent, no_detail, transition}
use oscar_corrtest.Store.{
  Row, Db, Call, Outcome, ready, begin_tx, commit, read_run, write_run, insert_run, not_active,
  not_terminal, bad_cleanup_update, bad_move, bad_run, refused, has_id, find_run, require,
  is_terminal, rewrite, call, append_event,
}

abbrev pub as_store : Result Domain.RunError (Unit {0}) → Outcome (Unit {0})
as_store (ok done) = ok tt
as_store (err e) = err (bad_run e)

-- The keys of `runs`: the primary key, the unique token, the target and the scenario.
abbrev pub run_refused : Db → Row → Bool
run_refused db row =
    any (λ r. has_id row.run.id r || str_eq r.run.short_token row.run.short_token) db.runs
    || (not (str_eq row.run.target_id "") && not (contains row.run.target_id db.targets))
    || (not (str_eq row.run.scenario_id "") && not (contains row.run.scenario_id db.scenarios))

abbrev pub moved : RunStatus → Option ℕ → Run → Run
moved next at r = record r { status = next; updated_at = at }

abbrev pub transition_event : String → RunStatus → RunStatus → Option ℕ → String → RunEvent
transition_event id current next at summary = record {
  run_id = id;
  case_id = "";
  sequence = 0;
  type = "run.transition";
  level = "info";
  occurred_at = at;
  summary = summary;
  detail = transition current next (other "");
}

abbrev pub prepared_event : String → Option ℕ → Detail → RunEvent
prepared_event id at detail = record {
  run_id = id;
  case_id = "";
  sequence = 0;
  type = "alert.prepared";
  level = "info";
  occurred_at = at;
  summary = "External input prepared; cleanup responsibility retained";
  detail = detail;
}

abbrev pub set_cleanup : CleanupStatus → Option ℕ → Run → Run
set_cleanup cleanup at r = record r { cleanup_status = cleanup; updated_at = at }

abbrev pub retry_event : String → Option ℕ → String → RunEvent
retry_event id at summary = record {
  run_id = id;
  case_id = "";
  sequence = 0;
  type = "cleanup.retry";
  level = "info";
  occurred_at = at;
  summary = summary;
  detail = no_detail;
}

module _ (broken : Call → Bool) where
  unfoldable pub create_run : Row → Db → Outcome Db
  create_run row db = do
    call broken ready
    as_store (Domain.validate row.run)
    call broken insert_run
    refuse_if (run_refused db row) (refused "runs")
    ok (record db { runs = db.runs ++ row ∷ [] })

  unfoldable pub append_run_event : RunEvent → Db → Outcome Db
  unfolding append_event
  append_run_event e db = do
    call broken ready
    call broken begin_tx
    written ← append_event broken e db
    call broken commit
    ok written

  unfoldable pub transition_run : String → RunStatus → Option ℕ → String → Db → Outcome Db
  unfolding append_event find_run
  transition_run id next at summary db = do
    call broken ready
    call broken begin_tx
    call broken (read_run id)
    row ← require (find_run id db.runs)
    refuse_if (not (can_transition row.run.status next)) (bad_move row.run.status next)
    call broken (write_run id)
    written ←
        append_event broken (transition_event id row.run.status next at summary)
          (rewrite id (moved next at) db)
    call broken commit
    ok written

  unfoldable pub prepare_run_input : String → Option ℕ → Detail → Db → Outcome Db
  unfolding append_event
  prepare_run_input id at detail db = do
    call broken ready
    call broken begin_tx
    call broken (write_run id)
    refuse_if (not (any (λ r. has_id id r && not (is_terminal r.run.status)) db.runs)) not_active
    written ←
        append_event broken (prepared_event id at detail) (rewrite id (set_cleanup unknown at) db)
    call broken commit
    ok written

  unfoldable pub set_terminal_run_cleanup :
      String → CleanupStatus → Option ℕ → String → Db → Outcome Db
  unfolding append_event
  set_terminal_run_cleanup id cleanup at summary db = do
    refuse_if (not (cleanup_valid cleanup) || is_zero at || str_eq summary "") bad_cleanup_update
    call broken begin_tx
    call broken (write_run id)
    refuse_if (not (any (λ r. has_id id r && is_terminal r.run.status) db.runs)) not_terminal
    written ←
        append_event broken (retry_event id at summary) (rewrite id (set_cleanup cleanup at) db)
    call broken commit
    ok written

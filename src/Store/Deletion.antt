-- ===== src/Store/Deletion.antt =====
-- internal/persistence/sqlite/run_repository.go: DeleteTerminalRun, one statement for each table.
use oscar_corrtest.Base.{
  String, Bool, true, false, ◌&&◌, ◌||◌, not, ok, ◌>>=◌, ◌>>◌, refuse_if, str_eq, keep, any,
}
use oscar_corrtest.Run.{CleanupStatus, clean, not_required, verdict_valid}
use oscar_corrtest.Store.{
  Db, Call, Outcome, Child, Table, assertions, alert_attempts, artifacts, run_cases, existing_feeds,
  installed_pack_runs, call, begin_tx, commit, read_run, delete_from, delete_events,
  delete_resources, delete_runs, not_safe, refused, require, find_run, has_id, of_run, is_terminal,
  holds_cases,
}

abbrev pub proven_clean : CleanupStatus → Bool
proven_clean clean = true
proven_clean not_required = true
proven_clean c = false

abbrev pub same_table : Table → Table → Bool
same_table assertions assertions = true
same_table alert_attempts alert_attempts = true
same_table artifacts artifacts = true
same_table run_cases run_cases = true
same_table existing_feeds existing_feeds = true
same_table installed_pack_runs installed_pack_runs = true
same_table s t = false

abbrev pub row_of : Table → String → Child → Bool
row_of t id c = same_table t c.table && str_eq c.run_id id

abbrev pub drop_children : Table → String → Db → Db
drop_children t id db = record db { children = keep (λ c. not (row_of t id c)) db.children }

-- A case of the run that a row which is still there refers to.
abbrev pub case_in_use : String → Db → Bool
case_in_use id db =
    any
      (λ c.
        row_of run_cases id c
        && (any (λ e. str_eq e.case_id c.id) db.events
            || any (λ x. not (holds_cases x.table) && str_eq x.case_id c.id) db.children))
      db.children

-- The tables after the first four statements, and after all but the last.
abbrev pub quieted : String → Db → Db
quieted id db =
    record (drop_children artifacts id
      (drop_children alert_attempts id (drop_children assertions id db))) {
        events = keep (λ e. not (of_run id e)) db.events;
      }

abbrev pub cleared : String → Db → Db
cleared id db = record (drop_children run_cases id (quieted id db)) {
  resources = keep (λ r. not (str_eq r.run_id id)) db.resources;
}

module _ (broken : Call → Bool) where
  unfoldable pub delete_rows : String → Db → Outcome Db
  delete_rows id db = do
    call broken (delete_from assertions)
    call broken (delete_from alert_attempts)
    call broken (delete_from artifacts)
    call broken delete_events
    call broken (delete_from run_cases)
    refuse_if (case_in_use id (quieted id db)) (refused "run_cases")
    call broken delete_resources
    call broken delete_runs
    refuse_if (any (λ c. str_eq c.run_id id) (cleared id db).children) (refused "runs")
    ok (record (cleared id db) { runs = keep (λ r. not (has_id id r)) db.runs })

  unfoldable pub delete_terminal_run : String → Db → Outcome Db
  unfolding delete_rows verdict_valid find_run
  delete_terminal_run id db = do
    call broken begin_tx
    call broken (read_run id)
    row ← require (find_run id db.runs)
    refuse_if
        (not (is_terminal row.run.status)
          || not (verdict_valid row.run.verdict)
          || not (proven_clean row.run.cleanup_status))
        not_safe
    gone ← delete_rows id db
    call broken commit
    ok gone

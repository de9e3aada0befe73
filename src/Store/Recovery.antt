-- ===== src/Store/Recovery.antt =====
-- internal/persistence/sqlite/run_repository.go: RecoverInterruptedRuns, which the service calls when
-- it starts. The runs are taken in the order of the table; the source takes them in the order of their
-- ids, which only decides the order in which events of different runs are written.
use oscar_corrtest.Base.{
  ℕ, ◌∷◌, [], String, Bool, true, false, ◌&&◌, ◌||◌, not, List, Option, none, some, ok, ◌>>=◌, ◌>>◌,
  if◌then◌else◌, str_eq, keep, length, any,
}
use oscar_corrtest.Run.{
  Verdict, CleanupStatus, Run, other, interrupted, completed, unset, not_required, unknown,
  status_eq,
}
use oscar_corrtest.Run.Responsibility.{RunEvent, transition, possible_alert_inputs}
use oscar_corrtest.Store.{
  Row, Resource, Db, Call, Outcome, call, ready, begin_tx, list_active, commit, write_run,
  count_resources, read_events, of_run, rewrite, append_event, is_terminal,
}

abbrev pub no_verdict : Verdict → Bool
no_verdict unset = true
no_verdict v = false

-- The `WHERE` of the list of runs to recover.
unfoldable pub needs_recovery : Row → Bool
unfolding status_eq
needs_recovery r =
    not (is_terminal r.run.status) || (status_eq r.run.status completed && no_verdict r.run.verdict)

abbrev pub is_open : Option ℕ → Bool
is_open none = true
is_open (some t) = false

-- `SELECT count(*) FROM resources WHERE run_id=? AND deleted_at IS NULL`.
abbrev pub open_resources : String → List Resource → List Resource
open_resources id rs = keep (λ r. str_eq r.run_id id && is_open r.deleted_at) rs

abbrev pub timeline : String → List RunEvent → List RunEvent
timeline id es = keep (of_run id) es

abbrev pub owes_cleanup : Row → Db → Bool
owes_cleanup r db =
    any (λ x. true) (open_resources r.run.id db.resources)
    || possible_alert_inputs r.run.status r.report (timeline r.run.id db.events)

unfoldable pub cleanup_after : Row → Db → CleanupStatus
unfolding possible_alert_inputs
cleanup_after r db = if owes_cleanup r db then unknown else not_required

abbrev pub interruption : Row → Option ℕ → RunEvent
interruption r at = record {
  run_id = r.run.id;
  case_id = "";
  sequence = 0;
  type = "run.interrupted";
  level = "warning";
  occurred_at = at;
  summary = "Run interrupted by process restart";
  detail = transition (other "") (other "") r.run.status;
}

abbrev pub stopped : CleanupStatus → Option ℕ → Run → Run
stopped cleanup at r = record r { status = interrupted; cleanup_status = cleanup; updated_at = at }

module _ (broken : Call → Bool) where
  unfoldable pub recover_run : Option ℕ → Row → Db → Outcome Db
  unfolding append_event cleanup_after
  recover_run at r db = do
    call broken (count_resources r.run.id)
    call broken (read_events r.run.id)
    call broken (write_run r.run.id)
    append_event broken (interruption r at) (rewrite r.run.id (stopped (cleanup_after r db) at) db)

  unfoldable pub recover_all : Option ℕ → List Row → Db → Outcome Db
  recover_all at [] db = ok db
  recover_all at (r ∷ rs) db = do next ← recover_run at r db; recover_all at rs next

  unfoldable pub recover_interrupted_runs : Option ℕ → Db → Outcome (ℕ × Db)
  unfolding recover_all needs_recovery
  recover_interrupted_runs at db = do
    call broken ready
    call broken begin_tx
    call broken list_active
    next ← recover_all at (keep needs_recovery db.runs) db
    call broken commit
    ok (length (keep needs_recovery db.runs), next)

-- ===== src/Store.antt =====
-- internal/persistence/sqlite: the tables of the run journal and what the operations of
-- run_repository.go share, `appendEvent` among them. A statement of SQL is a function on the
-- tables; what the schema refuses (migrations/*.sql) is an error of the statement, and a call
-- that the engine fails is one that `broken` names. A transaction works on a copy, so an error
-- leaves the tables as they were.
pub mod Operations
pub mod Recovery
pub mod Deletion
pub mod Deleted
pub mod Rows
pub mod Moves
pub mod Parts
pub mod Recovered
pub mod Execution
pub mod Documents
pub mod Frame
pub mod Timeline
pub mod Keyed
pub mod Owed
pub mod Retention
pub mod Resources
use oscar_corrtest.Base.{
  ℕ, zero, suc, ◌+◌, String, Bool, true, false, ◌&&◌, ◌||◌, not, List, [], ◌∷◌, ◌++◌, map, Option,
  none, some, Result, ok, err, ◌>>=◌, ◌>>◌, refuse_if, str_eq, ltb, ◌==◌, if◌then◌else◌, any, keep,
}
use oscar_corrtest.Base.Assoc.{contains}
use oscar_corrtest.Run.{
  RunStatus, Verdict, CleanupStatus, Run, other, interrupted, completed, unknown, status_eq,
  can_transition, cleanup_valid, is_zero,
}
use oscar_corrtest.Run as Domain
use oscar_corrtest.Run.Facts.{FactError}
use oscar_corrtest.Run.Responsibility.{
  Report, Detail, RunEvent, no_detail, malformed_detail, foreign_detail, transition,
}

-- A row of `runs`: the summary, what its report decodes to, and the documents of its execution.
pub record Row : Type 0 where
  pub run : Run
  pub report : Report
  pub capabilities : Option String
  pub plan : Option String

pub data ResourceState : Type 0 where
  proposed created deleted unknown_state : ResourceState
  other_state : String → ResourceState

pub record Resource : Type 0 where
  pub id : String
  pub run_id : String
  pub kind : String
  pub external_id : String
  pub external_name : String
  pub ownership_token : String
  pub lifecycle_state : ResourceState
  pub created_at : Option ℕ
  pub deleted_at : Option ℕ
  pub cleanup_error : String

pub record CaseRow : Type 0 where
  pub stable_key : String
  pub pattern : String
  pub name : String
  pub status : String
  pub verdict : Verdict
  pub started_at : Option ℕ
  pub ended_at : Option ℕ

pub record AssertionRow : Type 0 where
  pub stable_key : String
  pub kind : String
  pub expected : String
  pub observed : Option String
  pub verdict : Verdict
  pub explanation : String
  pub observation_start : Option ℕ
  pub observation_end : Option ℕ

pub record AttemptRow : Type 0 where
  pub event_id : String
  pub event_index : ℕ
  pub physical_alert_name : String
  pub semantic_role : String
  pub identity_labels : List (String × String)
  pub fingerprint : Option String
  pub send_state : String
  pub injection_class : Option String
  pub response_status : Option ℕ
  pub created_at : Option ℕ
  pub updated_at : Option ℕ

-- The columns of a row of `run_cases`, `assertions` or `alert_attempts`; those of the other tables are
-- left out.
pub data Columns : Type 0 where
  case_columns : CaseRow → Columns
  assertion_columns : AssertionRow → Columns
  attempt_columns : AttemptRow → Columns
  no_columns : Columns

-- The other tables that refer to a run, with the columns that a deletion reads and the others.
pub data Table : Type 0 where
  assertions alert_attempts artifacts run_cases existing_feeds installed_pack_runs : Table

pub record Child : Type 0 where
  pub table : Table
  pub id : String
  pub run_id : String
  pub case_id : String
  pub columns : Columns

pub record Db : Type 0 where
  pub runs : List Row
  pub events : List RunEvent
  pub resources : List Resource
  pub children : List Child
  pub targets : List String
  pub scenarios : List String

-- The calls on the engine, each with the run or resource that it is about.
pub data Call : Type 0 where
  ready begin_tx list_active commit : Call
  read_run write_run allocate insert_event count_resources read_events : String → Call
  delete_from : Table → Call
  delete_events delete_resources delete_runs insert_run : Call
  count_names insert_resource write_resource : Call
  write_rows insert_row : Table → Call

pub data StoreError : Type 0 where
  engine : Call → StoreError
  not_found not_active not_terminal not_safe bad_event bad_event_detail bad_cleanup_update :
      StoreError
  bad_move : RunStatus → RunStatus → StoreError
  refused : String → StoreError
  bad_run : Domain.RunError → StoreError
  bad_resource name_taken bad_evidence not_eligible : StoreError
  bad_completion not_cleaning unknown_case unknown_assertion unknown_attempt : StoreError
  bad_documents bad_plan not_uninitialized : StoreError
  bad_facts : FactError → StoreError

abbrev pub Outcome : Type 0 → Type 0
Outcome A = Result StoreError A

abbrev pub has_id : String → Row → Bool
has_id id r = str_eq r.run.id id

-- `SELECT ... FROM runs WHERE id=?`.
unfoldable pub find_run : String → List Row → Option Row
find_run id [] = none
find_run id (r ∷ rs) = if has_id id r then some r else find_run id rs

-- `sql.ErrNoRows`.
abbrev pub require : Option Row → Outcome Row
require (some r) = ok r
require none = err not_found

-- `UPDATE runs SET ... WHERE id=?`.
unfoldable pub update_run : String → (Run → Run) → List Row → List Row
update_run id f [] = []
update_run id f (r ∷ rs) =
    (if has_id id r then record r { run = f r.run } else r) ∷ update_run id f rs

abbrev pub of_run : String → RunEvent → Bool
of_run id e = str_eq e.run_id id

-- `COALESCE(MAX(sequence), 0)` over the events of a run.
unfoldable pub last_sequence : String → List RunEvent → ℕ
last_sequence id [] = 0
last_sequence id (e ∷ es) =
    let rest = last_sequence id es in
    if of_run id e && ltb rest e.sequence then e.sequence else rest

abbrev pub holds_cases : Table → Bool
holds_cases run_cases = true
holds_cases t = false

abbrev pub is_case : String → Child → Bool
is_case case_id c = holds_cases c.table && str_eq c.id case_id

-- The foreign keys and the unique key of `run_events`.
unfoldable pub event_refused : Db → RunEvent → Bool
unfolding find_run
event_refused db e =
    not (any (has_id e.run_id) db.runs)
    || (not (str_eq e.case_id "") && not (any (is_case e.case_id) db.children))
    || any (λ x. of_run e.run_id x && (x.sequence == e.sequence)) db.events

abbrev pub incomplete : RunEvent → Bool
incomplete e =
    str_eq e.run_id ""
    || str_eq e.type ""
    || str_eq e.level ""
    || is_zero e.occurred_at
    || str_eq e.summary ""

abbrev pub bad_json : Detail → Bool
bad_json malformed_detail = true
bad_json d = false

abbrev pub number_event : Db → RunEvent → RunEvent
number_event db e = record e { sequence = suc (last_sequence e.run_id db.events) }

-- `status IN ('COMPLETED','INTERRUPTED')`.
abbrev pub is_terminal : RunStatus → Bool
is_terminal s = status_eq s completed || status_eq s interrupted

abbrev pub rewrite : String → (Run → Run) → Db → Db
rewrite id f db = record db { runs = update_run id f db.runs }

module _ (broken : Call → Bool) where
  abbrev pub call : Call → Outcome (Unit {0})
  call c = refuse_if (broken c) (engine c)

  unfoldable pub append_event : RunEvent → Db → Outcome Db
  unfolding last_sequence event_refused
  append_event e db = do
    refuse_if (incomplete e) bad_event
    refuse_if (bad_json e.detail) bad_event_detail
    call (allocate e.run_id)
    call (insert_event e.run_id)
    refuse_if (event_refused db (number_event db e)) (refused "run_events")
    ok (record db { events = db.events ++ number_event db e ∷ [] })

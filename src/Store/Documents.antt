-- ===== src/Store/Documents.antt =====
-- internal/persistence/sqlite/run_repository.go: SetOrdinaryPreflightPlan and SetRunExecutionDocuments, which
-- store the compiled plan of a run and a row for each case, assertion and alert of it.
pub mod Inserted
pub mod Planned
use oscar_corrtest.Base.{
  ℕ, suc, String, Bool, true, false, ◌&&◌, ◌||◌, not, List, [], ◌∷◌, ◌++◌, Option, none, some, ok,
  err, ◌>>=◌, ◌>>◌, refuse_if, str_eq, ◌==◌, if◌then◌else◌, tally, any, ◌⧺◌, decimal,
}
use oscar_corrtest.Base.Assoc.{label}
use oscar_corrtest.Run.{queued, unset, status_eq, is_zero}
use oscar_corrtest.Run.Facts.{Json, json_valid}
use oscar_corrtest.Store.{
  Row, Db, Call, Outcome, Child, Columns, Table, case_columns, assertion_columns, attempt_columns,
  run_cases, assertions, alert_attempts, ready, begin_tx, commit, write_run, insert_row,
  bad_documents, bad_plan, not_uninitialized, not_found, refused, call, has_id, is_case,
}
use oscar_corrtest.Store.Deletion.{same_table}
use oscar_corrtest.Store.Execution.{set_where, case_id_of, started_or}

-- What `json.Unmarshal` gives for the plan. The kind of an assertion is `none` where it does not decode.
pub record PlanAssertion : Type 0 where
  pub text : String
  pub kind : Option String

pub record PlanAlert : Type 0 where
  pub name : String
  pub labels : List (String × String)
  pub annotations : List (String × String)

pub record PlanCase : Type 0 where
  pub name : String
  pub code : String
  pub assertions : List PlanAssertion
  pub alerts : List PlanAlert

pub record PlanDocument : Type 0 where
  pub run_id : String
  pub pattern : String
  pub cases : List PlanCase

-- The text of a plan, whether it is JSON, and what it decodes to: the run and the input path for one of the
-- methods, the document for the other.
pub record PlanText : Type 0 where
  pub text : String
  pub is_json : Bool
  pub route : Option (String × String)
  pub document : Option PlanDocument

abbrev pub decoded : {A : Type 0} → Option A → Outcome A
decoded none = err bad_plan
decoded (some x) = ok x

-- The unique keys of `run_cases` and `assertions`.
abbrev pub same_key : Child → Child → Columns → Columns → Bool
same_key x y (case_columns r) (case_columns s) =
    str_eq x.run_id y.run_id && str_eq r.stable_key s.stable_key
same_key x y (assertion_columns r) (assertion_columns s) =
    str_eq x.case_id y.case_id && str_eq r.stable_key s.stable_key
same_key x y r s = false

abbrev pub clashes : Child → Child → Bool
clashes y x = same_table x.table y.table && (str_eq x.id y.id || same_key x y x.columns y.columns)

unfoldable pub child_refused : Db → Child → Bool
child_refused db c =
    not (any (has_id c.run_id) db.runs)
    || (not (str_eq c.case_id "") && not (any (is_case c.case_id) db.children))
    || any (clashes c) db.children

abbrev pub case_child : String → String → PlanCase → Child
case_child id pattern c = record {
  table = run_cases;
  id = case_id_of id c.code;
  run_id = id;
  case_id = "";
  columns = case_columns (record {
    stable_key = c.code;
    pattern = pattern;
    name = c.name;
    status = "PLANNED";
    verdict = unset;
    started_at = none;
    ended_at = none;
  });
}

abbrev pub assertion_child : String → String → ℕ → String → PlanAssertion → Child
assertion_child id case_id n kind a = record {
  table = assertions;
  id = case_id ⧺ ":assertion:" ⧺ decimal n;
  run_id = id;
  case_id = case_id;
  columns = assertion_columns (record {
    stable_key = kind ⧺ ":" ⧺ decimal n;
    kind = kind;
    expected = a.text;
    observed = none;
    verdict = unset;
    explanation = "";
    observation_start = none;
    observation_end = none;
  });
}

abbrev pub or_else : String → String → String
or_else s t = if str_eq s "" then t else s

abbrev pub attempt_child : String → String → ℕ → Option ℕ → PlanAlert → Child
attempt_child id case_id n at a = record {
  table = alert_attempts;
  id = case_id ⧺ ":attempt:" ⧺ decimal n;
  run_id = id;
  case_id = case_id;
  columns = attempt_columns (record {
    event_id =
        or_else (label a.annotations "oscar_test_event_id") (case_id ⧺ ":event:" ⧺ decimal n);
    event_index = n;
    physical_alert_name = a.name;
    semantic_role = label a.labels "oscar_test_alert_role";
    identity_labels = a.labels;
    fingerprint = none;
    send_state = "PLANNED";
    injection_class = none;
    response_status = none;
    created_at = at;
    updated_at = at;
  });
}

abbrev pub kind_or : Option String → String
kind_or none = ""
kind_or (some k) = k

abbrev pub no_plan : Option String → Bool
no_plan none = true
no_plan (some p) = false

abbrev pub is_uninitialized : String → Row → Bool
is_uninitialized id r = has_id id r && status_eq r.run.status queued && no_plan r.plan

abbrev pub with_plan : String → Option ℕ → Row → Row
with_plan text at r = record r { run = record r.run { updated_at = at }; plan = some text }

abbrev pub with_documents : Json → String → Option ℕ → Row → Row
with_documents capabilities text at r = record r {
  run = record r.run { started_at = started_or r.run.started_at at; updated_at = at };
  capabilities = capabilities;
  plan = some text;
}

module _ (broken : Call → Bool) where
  unfoldable pub insert_child : Child → Db → Outcome Db
  unfolding child_refused
  insert_child c db = do
    call broken (insert_row c.table)
    refuse_if (child_refused db c) (refused "children")
    ok (record db { children = db.children ++ c ∷ [] })

  unfoldable pub insert_assertions : String → String → ℕ → List PlanAssertion → Db → Outcome Db
  unfolding insert_child
  insert_assertions id case_id n [] db = ok db
  insert_assertions id case_id n (a ∷ more) db = do
    refuse_if (str_eq (kind_or a.kind) "") bad_plan
    next ← insert_child (assertion_child id case_id n (kind_or a.kind) a) db
    insert_assertions id case_id (suc n) more next

  unfoldable pub insert_attempts : String → String → ℕ → Option ℕ → List PlanAlert → Db → Outcome Db
  unfolding insert_child
  insert_attempts id case_id n at [] db = ok db
  insert_attempts id case_id n at (a ∷ more) db = do
    refuse_if (str_eq a.name "") bad_plan
    next ← insert_child (attempt_child id case_id n at a) db
    insert_attempts id case_id (suc n) at more next

  unfoldable pub insert_cases : String → String → Option ℕ → List PlanCase → Db → Outcome Db
  unfolding insert_child insert_assertions insert_attempts
  insert_cases id pattern at [] db = ok db
  insert_cases id pattern at (c ∷ more) db = do
    refuse_if (str_eq c.code "" || str_eq c.name "") bad_plan
    with_case ← insert_child (case_child id pattern c) db
    with_assertions ← insert_assertions id (case_id_of id c.code) 1 c.assertions with_case
    with_attempts ← insert_attempts id (case_id_of id c.code) 1 at c.alerts with_assertions
    insert_cases id pattern at more with_attempts

  unfoldable pub set_ordinary_preflight_plan : String → PlanText → Option ℕ → Db → Outcome Db
  set_ordinary_preflight_plan id plan at db = do
    call broken ready
    (run_id, input_path) ← decoded plan.route
    refuse_if (not (str_eq run_id id) || not (str_eq input_path "ordinary-webhook") || is_zero at)
        bad_plan
    call broken (write_run id)
    refuse_if (not (tally (is_uninitialized id) db.runs == 1)) not_uninitialized
    ok (record db { runs = set_where (is_uninitialized id) (with_plan plan.text at) db.runs })

  unfoldable pub set_run_execution_documents : String → Json → PlanText → Option ℕ → Db → Outcome Db
  unfolding insert_cases
  set_run_execution_documents id capabilities plan at db = do
    refuse_if (not (json_valid capabilities) || not plan.is_json || is_zero at) bad_documents
    document ← decoded plan.document
    refuse_if (not (str_eq document.run_id id) || str_eq document.pattern "") bad_plan
    call broken begin_tx
    call broken (write_run id)
    refuse_if (not (tally (has_id id) db.runs == 1)) not_found
    written ← insert_cases id document.pattern at document.cases (record db {
      runs = set_where (has_id id) (with_documents capabilities plan.text at) db.runs;
    })
    call broken commit
    ok written

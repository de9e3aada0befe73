-- ===== src/Examples/Store.antt =====
-- internal/persistence/sqlite: a journal with a run that injects and a run that has ended.
use oscar_corrtest.Base.{
  ℕ, ◌≡◌, refl, ◌↔◌, List, [], ◌∷◌, ◌++◌, none, some, true, false, Bool, Result, ok, err, str_eq,
  any, keep, if◌then◌else◌, ◌||◌, suc, length, String,
}
use oscar_corrtest.Run.{
  injecting, observing, completed, interrupted, unset, pass, clean, not_required, unknown,
  can_transition, verdict_valid, status_eq, is_zero,
}
use oscar_corrtest.Run.Responsibility.{no_report, no_detail, possible_alert_inputs}
use oscar_corrtest.Store.{
  Row, Db, Call, StoreError, Resource, Child, Table, assertions, alert_attempts, artifacts,
  run_cases, no_columns, commit, proposed, find_run, update_run, append_event, event_refused,
  last_sequence, is_terminal,
}
use oscar_corrtest.Store.Operations.{transition_run, prepare_run_input, transition_event, moved}
use oscar_corrtest.Store.Recovery.{
  needs_recovery, recover_run, recover_all, recover_interrupted_runs, timeline, stopped,
  owes_cleanup, cleanup_after,
}
use oscar_corrtest.Store.Deletion.{delete_rows, delete_terminal_run, proven_clean}
use oscar_corrtest.Store.Execution.Confined.{children_of}
use oscar_corrtest.Store.Deleted.{resources_of, delete_terminal_run_lem}
use oscar_corrtest.Store.Moves.{all_up, transition_run_effect, transition_run_iff}
use oscar_corrtest.Store.Recovered.{recover_settles}
use oscar_corrtest.Store.Recovered.Cleanup.{recovered_row}
use oscar_corrtest.Store.Recovered.Prepared.{prepared_run_stays_owed}
use oscar_corrtest.Store.Resources.Names as Names
use oscar_corrtest.Store.Resources.Names.{IsExclusive, history-IsExclusive}
use oscar_corrtest.Store.Rows.{with_run}
use oscar_corrtest.Store.Timeline.{IsNumbered}
use oscar_corrtest.Store.Timeline.Ops as Ops
use oscar_corrtest.Store.Timeline.Ops.{history-IsNumbered}

abbrev pub lively : Row
lively = record {
  run = record {
    id = "run-1";
    short_token = "aaaaaaaa";
    target_id = "";
    scenario_id = "";
    status = injecting;
    verdict = unset;
    cleanup_status = not_required;
    harness_version = "1";
    started_at = none;
    ended_at = none;
    created_at = some 1;
    updated_at = some 1;
    terminal_error = "";
  };
  report = no_report;
  capabilities = none;
  plan = none;
}

abbrev ended : Row
ended = record {
  run = record {
    id = "run-2";
    short_token = "bbbbbbbb";
    target_id = "";
    scenario_id = "";
    status = completed;
    verdict = pass;
    cleanup_status = clean;
    harness_version = "1";
    started_at = none;
    ended_at = none;
    created_at = some 1;
    updated_at = some 1;
    terminal_error = "";
  };
  report = no_report;
  capabilities = none;
  plan = none;
}

abbrev pub journal : Db
journal = record {
  runs = lively ∷ ended ∷ [];
  events = [];
  resources = [];
  children = [];
  targets = [];
  scenarios = [];
}

abbrev db_or : Db → Result {0, 0} StoreError Db → Db
db_or d (ok x) = x
db_or d (err e) = d

observed_db : Db
unfolding transition_run append_event find_run update_run can_transition last_sequence event_refused
observed_db = db_or journal (transition_run all_up "run-1" observing (some 2) "observe" journal)

observes : transition_run all_up "run-1" observing (some 2) "observe" journal ≡ ok observed_db
unfolding observed_db
observes = refl

transition_run_effect_example :
    (row : Row) × (find_run "run-1" journal.runs ≡ some row)
    × (can_transition row.run.status observing ≡ true)
    × (find_run "run-1" observed_db.runs ≡ some (with_run (moved observing (some 2)) row))
    × (find_run "run-2" observed_db.runs ≡ find_run "run-2" journal.runs)
    × (observed_db.events
        ≡ journal.events
          ++ record (transition_event "run-1" row.run.status observing (some 2) "observe") {
            sequence = suc (length (timeline "run-1" journal.events));
          }
            ∷ [])
transition_run_effect_example =
    transition_run_effect all_up "run-1" "run-2" observing (some 2) "observe" journal refl
      (λ id. tt) observes

transition_run_iff_example :
    ((after : Db) × (transition_run all_up "run-1" observing (some 2) "observe" journal ≡ ok after))
    ↔ ((row : Row) × (find_run "run-1" journal.runs ≡ some row)
        × (can_transition row.run.status observing ≡ true)
        × ((str_eq "run-1" "" || is_zero (some 2) || str_eq "observe" "") ≡ false))
transition_run_iff_example =
    transition_run_iff "run-1" observing (some 2) "observe" journal (λ id. tt)

unfoldable pub no_commit : Call → Bool
no_commit commit = true
no_commit c = false

abbrev steps : List ((Call → Bool) × Ops.Op)
steps =
    (all_up, Ops.move "run-1" observing (some 2) "observe")
    ∷ (no_commit, Ops.recover (some 3))
    ∷ (all_up, Ops.recover (some 4))
    ∷ (all_up, Ops.delete "run-2")
    ∷ []

history-IsNumbered_example : IsNumbered (Ops.history steps journal).events
history-IsNumbered_example = history-IsNumbered steps journal (λ id. tt)

recovered_db : Db
unfolding recover_interrupted_runs recover_all recover_run needs_recovery append_event find_run
    update_run last_sequence event_refused cleanup_after possible_alert_inputs status_eq
recovered_db = elim (recover_interrupted_runs all_up (some 3) journal) [
  | ok p ↦ p.1
  | err e ↦ journal
]

recovers : recover_interrupted_runs all_up (some 3) journal ≡ ok (1, recovered_db)
unfolding recovered_db
recovers = refl

settled_again : recover_interrupted_runs all_up (some 4) recovered_db ≡ ok (0, recovered_db)
unfolding recovered_db
settled_again = refl

recover_settles_example :
    (keep needs_recovery recovered_db.runs ≡ []) × (◌≡◌ {A = ℕ} 0 0) × (recovered_db ≡ recovered_db)
recover_settles_example =
    recover_settles all_up all_up (some 3) (some 4) journal recovers settled_again

recovered_row_example :
    find_run "run-1" recovered_db.runs
    ≡ some (
        if needs_recovery lively
        then with_run
            (stopped (if owes_cleanup lively journal then unknown else not_required) (some 3))
            lively
        else lively)
recovered_row_example =
    recovered_row all_up (some 3) "run-1" journal (refl, (refl, tt)) (unfold find_run in refl)
      recovers

unfoldable pub prepared_db : Db
unfolding status_eq prepare_run_input append_event update_run last_sequence event_refused
prepared_db = db_or journal (prepare_run_input all_up "run-1" (some 2) no_detail journal)

pub prepares : prepare_run_input all_up "run-1" (some 2) no_detail journal ≡ ok prepared_db
unfolding prepared_db
prepares = refl

lost_db : Db
unfolding prepared_db recover_interrupted_runs recover_all recover_run needs_recovery find_run
    append_event update_run last_sequence event_refused cleanup_after possible_alert_inputs
    status_eq
lost_db = elim (recover_interrupted_runs all_up (some 3) prepared_db) [
  | ok p ↦ p.1
  | err e ↦ journal
]

lost : recover_interrupted_runs all_up (some 3) prepared_db ≡ ok (1, lost_db)
unfolding lost_db
lost = refl

prepared_run_stays_owed_example :
    (row : Row) × (find_run "run-1" lost_db.runs ≡ some row)
    × (row.run.status ≡ interrupted)
    × (row.run.cleanup_status ≡ unknown)
prepared_run_stays_owed_example =
    prepared_run_stays_owed all_up all_up "run-1" (some 2) (some 3) no_detail journal
      (refl, (refl, tt)) prepares lost

abbrev child : Table → String → String → String → Child
child t id run_id case_id = record {
  table = t;
  id = id;
  run_id = run_id;
  case_id = case_id;
  columns = no_columns;
}

-- Both runs have a case with an assertion, an attempt and an artifact.
abbrev full_journal : Db
full_journal = record journal {
  children =
      child run_cases "case-1" "run-1" ""
      ∷ child assertions "assertion-1" "run-1" "case-1"
      ∷ child run_cases "case-2" "run-2" ""
      ∷ child assertions "assertion-2" "run-2" "case-2"
      ∷ child alert_attempts "attempt-2" "run-2" "case-2"
      ∷ child alert_attempts "attempt-1" "run-1" "case-1"
      ∷ child artifacts "artifact-1" "run-1" "case-1"
      ∷ child artifacts "artifact-2" "run-2" "case-2"
      ∷ [];
}

shorter_db : Db
unfolding status_eq delete_terminal_run delete_rows find_run verdict_valid
shorter_db = db_or journal (delete_terminal_run all_up "run-2" full_journal)

deletes : delete_terminal_run all_up "run-2" full_journal ≡ ok shorter_db
unfolding shorter_db
deletes = refl

delete_terminal_run_lem_example :
    (row : Row) × (find_run "run-2" full_journal.runs ≡ some row)
    × (is_terminal row.run.status ≡ true)
    × (verdict_valid row.run.verdict ≡ true)
    × (proven_clean row.run.cleanup_status ≡ true)
    × (find_run "run-2" shorter_db.runs ≡ none)
    × (timeline "run-2" shorter_db.events ≡ [])
    × (resources_of "run-2" shorter_db.resources ≡ [])
    × (any (λ c. str_eq c.run_id "run-2") shorter_db.children ≡ false)
    × (find_run "run-1" shorter_db.runs ≡ find_run "run-1" full_journal.runs)
    × (timeline "run-1" shorter_db.events ≡ timeline "run-1" full_journal.events)
    × (resources_of "run-1" shorter_db.resources ≡ resources_of "run-1" full_journal.resources)
    × (children_of "run-1" shorter_db ≡ children_of "run-1" full_journal)
delete_terminal_run_lem_example =
    delete_terminal_run_lem all_up "run-2" "run-1" full_journal refl deletes

abbrev proposal : Resource
proposal = record {
  id = "res-1";
  run_id = "run-1";
  kind = "rule";
  external_id = "";
  external_name = "corrtest-rule";
  ownership_token = "run-1";
  lifecycle_state = proposed;
  created_at = none;
  deleted_at = none;
  cleanup_error = "";
}

abbrev claims : List ((Call → Bool) × Names.Op)
claims =
    (all_up, Names.create proposal)
    ∷ (all_up, Names.create (record proposal { id = "res-2" }))
    ∷ (all_up, Names.adopt "res-1" "42" (some 2))
    ∷ (all_up, Names.delete "res-1" (some 3))
    ∷ (all_up, Names.create (record proposal { id = "res-2" }))
    ∷ []

history-IsExclusive_example : IsExclusive (Names.history claims journal).resources
history-IsExclusive_example = history-IsExclusive claims journal tt

-- ===== src/Examples/Cleanup.antt =====
-- internal/runner/runner.go: the cleanup of a run with one rule and one alert.
use oscar_corrtest.Base.{◌≡◌, refl, [], ◌∷◌, none, some, true, false, All, ok}
use oscar_corrtest.Run.{asserting, unset, not_required, clean, dirty, can_transition}
use oscar_corrtest.Run.Responsibility.{no_report}
use oscar_corrtest.Store.{
  Db, Resource, created, find_run, update_run, append_event, event_refused, last_sequence,
}
use oscar_corrtest.Store.Operations.{transition_run}
use oscar_corrtest.Store.Moves.{all_up}
use oscar_corrtest.Store.Resources.{
  mark_resource_deleted, mark_resource_cleanup_error, update_where,
}
use oscar_corrtest.Runner.Cleanup.{
  History, World, rule_id, clean_resource, clean_resources, any_unresolved, cleanup, start,
  discovered, unresolved,
}
use oscar_corrtest.Runner.Cleanup.Clean.{IsGone, IsDeleted, cleanup_clean}

abbrev rule : Resource
rule = record {
  id = "res-1";
  run_id = "run-1";
  kind = "rule";
  external_id = "42";
  external_name = "corrtest-rule";
  ownership_token = "run-1";
  lifecycle_state = created;
  created_at = some 1;
  deleted_at = none;
  cleanup_error = "";
}

abbrev journal : Db
journal = record {
  runs =
      record {
        run = record {
          id = "run-1";
          short_token = "aaaaaaaa";
          target_id = "";
          scenario_id = "";
          status = asserting;
          verdict = unset;
          cleanup_status = not_required;
          harness_version = "1";
          started_at = none;
          ended_at = none;
          created_at = some 1;
          updated_at = some 1;
          terminal_error = "";
        };
        report = no_report;
        capabilities = none;
        plan = none;
      }
      ∷ [];
  events = [];
  resources = rule ∷ [];
  children = [];
  targets = [];
  scenarios = [];
}

abbrev alert : History
alert = record { alert_name = "parent"; fingerprint = "abc"; run_id = "run-1" }

abbrev healthy : World
healthy = record {
  transition_faults = all_up;
  mark_faults = λ id. all_up;
  deletes_rule = λ id. true;
  discovery = none;
  resolves = λ h. true;
  now = 9;
}

ids : rule_id "42" ≡ some 42
unfolding rule_id
ids = refl

no_ids : rule_id "-1" ≡ none
unfolding rule_id
no_ids = refl

cleans : (cleanup healthy "run-1" (rule ∷ []) (alert ∷ []) journal).0 ≡ clean
unfolding cleanup transition_run find_run can_transition append_event update_run last_sequence
    event_refused clean_resources clean_resource rule_id mark_resource_deleted
    mark_resource_cleanup_error update_where any_unresolved
cleans = refl

leaves_a_rule :
    (cleanup
      (record healthy { deletes_rule = λ id. false })
      "run-1"
      (rule ∷ [])
      (alert ∷ [])
      journal).0
    ≡ dirty
unfolding cleanup transition_run find_run can_transition append_event update_run last_sequence
    event_refused clean_resources clean_resource rule_id mark_resource_deleted
    mark_resource_cleanup_error update_where any_unresolved
leaves_a_rule = refl

cleanup_clean_example :
    (moved : Db) × (start healthy "run-1" journal ≡ ok moved)
    × All (IsDeleted healthy) (rule ∷ [])
    × All
        (IsGone (cleanup healthy "run-1" (rule ∷ []) (alert ∷ []) journal).1.resources)
        (rule ∷ [])
    × ((discovered none).1 ≡ true)
    × All (λ h. unresolved healthy "run-1" h ≡ false) (alert ∷ [])
cleanup_clean_example = cleanup_clean healthy "run-1" (rule ∷ []) (alert ∷ []) journal cleans

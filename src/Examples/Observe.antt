-- ===== src/Examples/Observe.antt =====
-- internal/snmpload/observe.go: a problem and its clear, read on pages that overlap.
use oscar_corrtest.Base.{
  ◌≡◌, ◌↔◌, refl, String, Bool, true, List, [], ◌∷◌, ◌++◌, none, some, str_eq, map,
}
use oscar_corrtest.Snmp.Fixture.{Episode}
use oscar_corrtest.Snmp.Observe.{HistoryRecord, Observation, observe_rows, reconcile, deep_equal}
use oscar_corrtest.Snmp.Observe.Overlap.{reconcile-overlap}
use oscar_corrtest.Snmp.Observe.Reconciled.{IsReconciled, observe_rows_iff}

abbrev link_down : Episode
link_down = record {
  family = "link";
  token = "crt-1-0";
  mapping = "";
  mapping_source = "";
  mapping_sha256 = "";
  alert_name = "linkDown";
  alert_group = "link";
  agent = "10.0.0.1";
  severity = "major";
  alert_key = "port-1";
  problem_oid = "1";
  clear_oid = "2";
  varbinds = [];
}

abbrev common : List (String × String)
common =
    ("agent", "10.0.0.1")
    ∷ ("alert_group", "link")
    ∷ ("alert_key", "port-1")
    ∷ ("correlation_key", "k")
    ∷ []

abbrev problem_row : HistoryRecord
problem_row = record {
  original_severity = some "major";
  severity = some "major";
  starts_at = some 10;
  id = "7";
  alert_name = "linkDown";
  fingerprint = "f7";
  status = "resolved";
  created_at = some 11;
  labels = common;
  annotations = ("description", "crt-1-0 is down") ∷ [];
}

abbrev clear_row : HistoryRecord
clear_row = record {
  original_severity = some "info";
  severity = some "info";
  starts_at = some 20;
  id = "8";
  alert_name = "linkDown";
  fingerprint = "f8";
  status = "resolved";
  created_at = some 21;
  labels =
      common
      ++ ("correlation_resolved_count", "1")
        ∷ ("correlation_status", "success")
        ∷ ("correlation_value", "k")
        ∷ ("is_resolution", "true")
        ∷ [];
  annotations = [];
}

both_rows : List HistoryRecord
both_rows = problem_row ∷ clear_row ∷ []

states :
    map
      (λ (o : Observation). o.state)
      (reconcile str_eq (link_down ∷ []) (both_rows ++ problem_row ∷ []))
    ≡ "resolved" ∷ []
unfolding both_rows reconcile oscar_corrtest.Base.Assoc.find
states = refl

without_clear :
    map (λ (o : Observation). o.state) (reconcile str_eq (link_down ∷ []) (problem_row ∷ []))
    ≡ "clear-missing" ∷ []
unfolding reconcile oscar_corrtest.Base.Assoc.find
without_clear = refl

observe_rows_iff_example :
    (str_eq (observe_rows str_eq 0 link_down both_rows).state "resolved" ≡ true)
    ↔ IsReconciled str_eq link_down both_rows
observe_rows_iff_example = observe_rows_iff str_eq link_down 0 both_rows

reconcile-overlap_example :
    reconcile str_eq (link_down ∷ []) (both_rows ++ problem_row ∷ [])
    ≡ reconcile str_eq (link_down ∷ []) both_rows
unfolding both_rows deep_equal
reconcile-overlap_example =
    reconcile-overlap str_eq (link_down ∷ []) both_rows (problem_row ∷ []) ((refl, refl), tt)

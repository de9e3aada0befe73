-- ===== src/Examples/Control.antt =====
-- internal/compiler/no_match.go: a flood plan with a control.
use mathlib.Core.List.{Memᴰ}
use oscar_corrtest.Base.{◌≡◌, refl, String, false, [], ◌∷◌, some, ok, err}
use oscar_corrtest.Base.Assoc.{find}
use oscar_corrtest.Control.{
  texts, other_value, RulePlan, AlertPlan, CasePlan, Plan, not_disjoint, validate_control_exclusion,
}
use oscar_corrtest.Control.Excluded.{takes, control_excluded}

abbrev rule_for : String → RulePlan
rule_for alert = record {
  name = "r";
  pattern = "flood";
  match_criteria = ("match", texts (("alertname", alert) ∷ [])) ∷ ("min_count", other_value) ∷ [];
}

abbrev input : AlertPlan
input = record {
  source = "s";
  name = "Unmatched";
  status = "firing";
  labels = ("alertname", "Unmatched") ∷ ("oscar_test_event_id", "e1") ∷ [];
  episode_offset = some 0;
}

abbrev control_case : String → CasePlan
control_case alert = record {
  control = "downstream-unmatched";
  code = "N01";
  rule = rule_for alert;
  alerts = input ∷ [];
}

abbrev plan_for : String → Plan
plan_for alert = record { pattern = "flood"; cases = control_case alert ∷ [] }

accepted : validate_control_exclusion (plan_for "Matched") ≡ ok tt
unfolding validate_control_exclusion
accepted = refl

refused_plan : validate_control_exclusion (plan_for "Unmatched") ≡ err not_disjoint
unfolding validate_control_exclusion
refused_plan = refl

control_excluded_example :
    takes (find "match" (control_case "Matched").rule.match_criteria) input.labels ≡ false
control_excluded_example =
    control_excluded (plan_for "Matched") (control_case "Matched") (control_case "Matched") input
      accepted (Memᴰ.head refl) refl (Memᴰ.head refl) (Memᴰ.head refl)

-- ===== src/Examples/Scenario.antt =====
-- internal/scenario: accepted scenarios of a flood, a threshold and an absence, and a burst of events.
use oscar_corrtest.Base.{ℕ, ◌*◌, ◌≡◌, refl, String, List, [], ◌∷◌, true, ok, arith, decimal}
use mathlib.Core.List.{Memᴰ}
use oscar_corrtest.Base.Assoc.{find, put, has}
use oscar_corrtest.Scenario.{second, Assertion, Event, Case, Scenario, identity_key}
use oscar_corrtest.Scenario.Names.{
  is_supported_pattern, is_trimmed, is_blank, bad_name, names_ok, labels_ok, is_reserved_label,
  is_label_name, has_control,
}
use oscar_corrtest.Scenario.Semantics.Expand.{
  SemanticEvent, expand, expand_from, observe_event, stimuli, chronological, insert_at,
}
use oscar_corrtest.Scenario.Semantics.Windows.{
  flood_reaches, threshold_reaches, any_window, collect, insert_group, any_start, within,
}
use oscar_corrtest.Scenario.Semantics.Spec.{IsSorted}
use oscar_corrtest.Scenario.Semantics.Ordered.{has_gap, gap_in}
use oscar_corrtest.Scenario.Semantics.Check
use oscar_corrtest.Scenario.Semantics.Check.{
  expect, single_source_role, check_flood, required_roles, in_case, validate_pattern_semantics,
}
use oscar_corrtest.Scenario.Validate.{validate, validate_cases, validate_case, validate_case_body}
use oscar_corrtest.Scenario.Validate.Parts.{
  validate_assertions, validate_checkpoints, validate_downstream_control,
  validate_named_episode_assertions,
}
use oscar_corrtest.Scenario.Validate.Events.{validate_stimuli, validate_events, validate_event}
use oscar_corrtest.Scenario.Validate.Meaning.{Floods, FallsSilent, flood_positive, absence_positive}

abbrev one_parent : Assertion
one_parent = record { kind = "synthetic-alert-count"; outcome = ""; equals = 1 }

abbrev no_parent : Assertion
no_parent = record { kind = "synthetic-alert-count"; outcome = ""; equals = 0 }

abbrev positive : Case
positive = record {
  control = "";
  name = "five faults";
  code = "P01";
  polarity = "positive";
  role = "interface_down";
  repeat = 5;
  window = 30 * second;
  group_by = [];
  labels = ("site", "lab-a") ∷ [];
  suppress_for_notifiers = [];
  tag_for_notifiers = [];
  assertions = one_parent ∷ [];
  checkpoints = [];
  events = [];
}

abbrev negative : Case
negative = record {
  control = "";
  name = "four faults";
  code = "N01";
  polarity = "negative";
  role = "interface_down";
  repeat = 4;
  window = 30 * second;
  group_by = [];
  labels = ("site", "lab-a") ∷ [];
  suppress_for_notifiers = [];
  tag_for_notifiers = [];
  assertions = no_parent ∷ [];
  checkpoints = [];
  events = [];
}

abbrev flood : Scenario
flood = record {
  api_version = "corrtest.oscar/v1alpha1";
  kind = "CorrelationScenario";
  name = "flood";
  suite = "basic";
  input_path = "";
  pattern = "flood";
  max_duration = 120 * second;
  cases = positive ∷ negative ∷ [];
}

flood_accepted : validate flood ≡ ok tt
unfolding validate validate_cases validate_case validate_case_body is_supported_pattern bad_name
    is_trimmed names_ok labels_ok is_reserved_label is_label_name has_control validate_assertions
    validate_checkpoints validate_downstream_control validate_named_episode_assertions
    validate_stimuli validate_pattern_semantics required_roles Check.validate_cases
    Check.validate_case in_case expand stimuli expand_from observe_event identity_key find put
    single_source_role check_flood expect flood_reaches is_blank decimal
flood_accepted = refl

flood_positive_example : Floods positive
flood_positive_example =
    flood_positive flood positive flood_accepted (Memᴰ.head refl) refl refl refl

abbrev seen : String → String → ℕ → SemanticEvent
seen role device at = record {
  role = role;
  status = "firing";
  labels = ("device", device) ∷ ("oscar_source", role) ∷ [];
  at = at;
  ordinal = at;
  group_key = "*";
  identity = device;
}

abbrev burst : List SemanticEvent
burst =
    seen "snmp" "a" 1
    ∷ seen "api" "b" 2
    ∷ seen "snmp" "c" 3
    ∷ seen "api" "d" 4
    ∷ seen "snmp" "e" 5
    ∷ []

burst-IsSorted : IsSorted burst
burst-IsSorted = (
  (omega arith, (omega arith, (omega arith, (omega arith, tt)))),
  (
    (omega arith, (omega arith, (omega arith, tt))),
    ((omega arith, (omega arith, tt)), ((omega arith, tt), (tt, tt))),
  ),
)

burst_floods : flood_reaches 10 burst ≡ true
unfolding flood_reaches any_window collect insert_group any_start within chronological insert_at
burst_floods = refl

abbrev fault : String → ℕ → Event
fault device delay = record {
  role = "link_down";
  source = device;
  status = "firing";
  labels = ("device", device) ∷ [];
  delay = delay;
}

abbrev three_faults : Case
three_faults = record positive {
  name = "three devices";
  role = "";
  repeat = 0;
  events = fault "a" 0 ∷ fault "b" second ∷ fault "c" (2 * second) ∷ [];
}

abbrev two_faults : Case
two_faults = record negative {
  name = "two devices";
  role = "";
  repeat = 0;
  events = fault "a" 0 ∷ fault "b" second ∷ [];
}

abbrev threshold : Scenario
threshold = record flood {
  name = "threshold";
  pattern = "threshold";
  cases = three_faults ∷ two_faults ∷ [];
}

threshold_accepted : validate threshold ≡ ok tt
unfolding validate validate_cases validate_case validate_case_body is_supported_pattern bad_name
    is_trimmed names_ok labels_ok is_reserved_label is_label_name has_control validate_assertions
    validate_checkpoints validate_downstream_control validate_named_episode_assertions
    validate_stimuli validate_events validate_event validate_pattern_semantics required_roles
    Check.validate_cases Check.validate_case in_case expand stimuli expand_from observe_event
    identity_key find put single_source_role expect threshold_reaches is_blank decimal has
threshold_accepted = refl

abbrev beat : ℕ → Event
beat delay = record {
  role = "heartbeat";
  source = "";
  status = "firing";
  labels = [];
  delay = delay;
}

abbrev silent_case : Case
silent_case = record positive {
  name = "a gap of forty seconds";
  role = "";
  repeat = 0;
  window = 60 * second;
  events = beat 0 ∷ beat (40 * second) ∷ [];
}

abbrev steady_case : Case
steady_case = record negative {
  name = "no gap";
  role = "";
  repeat = 0;
  window = 60 * second;
  events = beat 0 ∷ beat (20 * second) ∷ beat (40 * second) ∷ [];
}

abbrev absence : Scenario
absence = record flood {
  name = "absence";
  pattern = "absence";
  cases = silent_case ∷ steady_case ∷ [];
}

absence_accepted : validate absence ≡ ok tt
unfolding validate validate_cases validate_case validate_case_body is_supported_pattern bad_name
    is_trimmed names_ok labels_ok is_reserved_label is_label_name has_control validate_assertions
    validate_checkpoints validate_downstream_control validate_named_episode_assertions
    validate_stimuli validate_events validate_event validate_pattern_semantics required_roles
    Check.validate_cases Check.validate_case in_case expand stimuli expand_from observe_event
    identity_key find put single_source_role expect has_gap gap_in chronological insert_at collect
    insert_group is_blank decimal has
absence_accepted = refl

absence_positive_example : FallsSilent silent_case
absence_positive_example =
    absence_positive absence silent_case absence_accepted (Memᴰ.head refl) refl refl

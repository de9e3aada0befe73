-- ===== src/Scenario/Validate.antt =====
-- internal/scenario/decode.go, checkpoints.go, no_match.go: the closed contract of a scenario. The
-- texts of the errors are not modelled, only which check refused.
pub mod Events
pub mod Parts
pub mod Accepted
pub mod Order
pub mod Meaning
use oscar_corrtest.Base.{
  ℕ, ◌+◌, ◌*◌, String, Bool, true, false, ◌&&◌, ◌||◌, not, List, [], ◌∷◌, ◌++◌, ltb, leb, ◌==◌,
  str_eq, if◌then◌else◌, any, length, Result, ok, err, ◌>>=◌, ◌>>◌, refuse_if,
}
use oscar_corrtest.Base.Assoc.{contains}
use oscar_corrtest.Scenario.{second, Assertion, Event, Case, Scenario}
use oscar_corrtest.Scenario.Names.{
  max_name, max_case_name, is_supported_pattern, bad_name, too_long, names_ok, labels_ok,
}
use oscar_corrtest.Scenario.Semantics.Check.{SemanticError, validate_pattern_semantics}
use Parts.{
  ScenarioError, bad_input_path, bad_document, bad_scenario_name, bad_budget, bad_case_identity,
  bad_polarity, bad_case_budget, bad_group_by, bad_labels, foreign_notifiers, many_notifiers,
  bad_notifiers, missing_code, semantic, Check, validate_assertions, validate_checkpoints,
  validate_downstream_control, validate_named_episode_assertions,
}
use Events.{validate_stimuli}

abbrev pub max_case_window : ℕ
max_case_window = 120 * second

abbrev pub max_scenario_duration : ℕ
max_scenario_duration = 300 * second

-- The sets of codes and names that the loop over the cases fills.
pub record Seen : Type 0 where
  pub codes : List String
  pub names : List String

abbrev unknown_input_path : String → Bool
unknown_input_path p = not (
    str_eq p ""
    || str_eq p "alert-engine"
    || str_eq p "receiver-admission"
    || str_eq p "ordinary-webhook")

abbrev case_identity_bad : Seen → Case → Bool
case_identity_bad seen c =
    str_eq c.name ""
    || too_long max_case_name c.name
    || contains c.name seen.names
    || not (str_eq c.code "P01" || str_eq c.code "N01")
    || contains c.code seen.codes

abbrev polarity_bad : Case → Bool
polarity_bad c =
    (str_eq c.code "P01" && not (str_eq c.polarity "positive"))
    || (str_eq c.code "N01" && not (str_eq c.polarity "negative"))

abbrev has_notifiers : Case → Bool
has_notifiers c =
    not (length c.suppress_for_notifiers == 0) || not (length c.tag_for_notifiers == 0)

-- One round of the loop over the cases, after the identity checks.
unfoldable pub validate_case_body : Scenario → Case → Check
validate_case_body d c = do
  refuse_if
      (c.window == 0
        || ltb max_case_window c.window
        || ltb 16 (length c.group_by)
        || ltb 64 (length c.labels))
      bad_case_budget
  refuse_if (not (names_ok max_name [] c.group_by)) bad_group_by
  refuse_if (not (labels_ok c.labels)) bad_labels
  validate_assertions c.assertions
  validate_checkpoints c d.max_duration
  refuse_if (not (str_eq d.pattern "parent_child") && has_notifiers c) foreign_notifiers
  refuse_if (ltb 16 (length c.suppress_for_notifiers) || ltb 16 (length c.tag_for_notifiers))
      many_notifiers
  refuse_if (not (names_ok max_name [] (c.suppress_for_notifiers ++ c.tag_for_notifiers)))
      bad_notifiers
  validate_downstream_control d.pattern c
  validate_named_episode_assertions c
  validate_stimuli d.max_duration c

unfoldable pub validate_case : Scenario → Seen → Case → Result ScenarioError Seen
validate_case d seen c = do
  refuse_if (case_identity_bad seen c) bad_case_identity
  refuse_if (polarity_bad c) bad_polarity
  validate_case_body d c
  ok (record { codes = c.code ∷ seen.codes; names = c.name ∷ seen.names })

unfoldable pub validate_cases : Scenario → Seen → List Case → Result ScenarioError Seen
validate_cases d seen [] = ok seen
validate_cases d seen (c ∷ cs) = do seen' ← validate_case d seen c; validate_cases d seen' cs

abbrev by_semantics : Result (String × SemanticError) (Unit {0}) → Check
by_semantics (ok u) = ok u
by_semantics (err (code, e)) = err (semantic code e)

abbrev pub nothing_seen : Seen
nothing_seen = record { codes = []; names = [] }

unfoldable pub validate : Scenario → Check
validate d = do
  refuse_if (unknown_input_path d.input_path) bad_input_path
  refuse_if
      (not (str_eq d.api_version "corrtest.oscar/v1alpha1")
        || not (str_eq d.kind "CorrelationScenario")
        || not (is_supported_pattern d.pattern))
      bad_document
  refuse_if (bad_name max_name d.name || bad_name max_name d.suite) bad_scenario_name
  refuse_if
      (d.max_duration == 0 || ltb max_scenario_duration d.max_duration || not (length d.cases == 2))
      bad_budget
  seen ← validate_cases d nothing_seen d.cases
  refuse_if (not (contains "P01" seen.codes) || not (contains "N01" seen.codes)) missing_code
  by_semantics (validate_pattern_semantics d)

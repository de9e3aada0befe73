-- ===== src/Control.antt =====
-- internal/compiler/no_match.go: `ValidateControlExclusion`, by which a compiled plan keeps the alerts of a control
-- apart from the rules of the plan, with the parts of the plan in compiler.go that it reads.
pub mod Excluded
use oscar_corrtest.Base.{
  ℕ, String, Bool, true, false, ◌&&◌, ◌||◌, not, List, [], ◌∷◌, Option, none, some, Result, ok, err,
  ◌>>=◌, ◌>>◌, refuse_if, str_eq, ◌==◌, length, any, if◌then◌else◌,
}
use oscar_corrtest.Base.Assoc.{find, label, contains}

-- A value of `MatchCriteria`: a map of texts, a map of any values, of which those that are texts are given, no
-- value, or another one.
pub data Criterion : Type 0 where
  texts : List (String × String) → Criterion
  values : List (String × Option String) → Criterion
  nil other_value : Criterion

pub record RulePlan : Type 0 where
  pub name : String
  pub pattern : String
  pub match_criteria : List (String × Criterion)

pub record AlertPlan : Type 0 where
  pub source : String
  pub name : String
  pub status : String
  pub labels : List (String × String)
  pub episode_offset : Option ℕ

pub record CasePlan : Type 0 where
  pub control : String
  pub code : String
  pub rule : RulePlan
  pub alerts : List AlertPlan

pub record Plan : Type 0 where
  pub pattern : String
  pub cases : List CasePlan

pub data ControlError : Type 0 where
  unsupported_control no_inputs repeated_input incomplete_input unprovable not_disjoint :
      ControlError

abbrev pub text_or_none : Option (Option String) → String
text_or_none (some (some s)) = s
text_or_none v = ""

-- The alert name that the rule asks for, where it asks for nothing else.
abbrev pub match_name : Option Criterion → String
match_name (some (texts (e ∷ []))) = label (e ∷ []) "alertname"
match_name (some (values (e ∷ []))) = text_or_none (find "alertname" (e ∷ []))
match_name c = ""

abbrev pub is_nil : Option Criterion → Bool
is_nil none = true
is_nil (some nil) = true
is_nil c = false

unfoldable pub exclude : AlertPlan → List CasePlan → Result ControlError (Unit {0})
unfolding find
exclude alert [] = ok tt
exclude alert (fixture ∷ more) = do
  refuse_if
      (not (str_eq fixture.rule.pattern "flood")
        || not (length fixture.rule.match_criteria == 2)
        || is_nil (find "min_count" fixture.rule.match_criteria))
      unprovable
  refuse_if
      (str_eq (match_name (find "match" fixture.rule.match_criteria)) ""
        || str_eq alert.name (match_name (find "match" fixture.rule.match_criteria)))
      not_disjoint
  exclude alert more

abbrev pub no_offset : Option ℕ → Bool
no_offset none = true
no_offset (some d) = false

-- A source is the pair of a name and a source, which the code joins by a zero byte.
abbrev pub same_source : String × String → String × String → Bool
same_source x y = str_eq x.0 y.0 && str_eq x.1 y.1

unfoldable pub check_inputs :
    List CasePlan
    → List AlertPlan
    → List String
    → List (String × String)
    → Result ControlError (Unit {0})
unfolding exclude
check_inputs fixtures [] seen sources = ok tt
check_inputs fixtures (a ∷ more) seen sources = do
  refuse_if
      (str_eq (label a.labels "oscar_test_event_id") ""
        || contains (label a.labels "oscar_test_event_id") seen
        || any (same_source (a.name, a.source)) sources)
      repeated_input
  refuse_if
      (str_eq a.name ""
        || not (str_eq (label a.labels "alertname") a.name)
        || str_eq a.source ""
        || no_offset a.episode_offset
        || not (str_eq a.status "firing"))
      incomplete_input
  exclude a fixtures
  check_inputs fixtures more (label a.labels "oscar_test_event_id" ∷ seen)
      ((a.name, a.source) ∷ sources)

abbrev pub has_none : List AlertPlan → Bool
has_none [] = true
has_none (a ∷ more) = false

abbrev pub check_control : Plan → CasePlan → Result ControlError (Unit {0})
check_control plan item = do
  refuse_if
      (not (str_eq item.control "downstream-unmatched")
        || not (str_eq plan.pattern "flood")
        || not (str_eq item.code "N01"))
      unsupported_control
  refuse_if (has_none item.alerts) no_inputs
  check_inputs plan.cases item.alerts [] []

abbrev pub check_case : Plan → CasePlan → Result ControlError (Unit {0})
check_case plan item = if str_eq item.control "" then ok tt else check_control plan item

unfoldable pub check_cases : Plan → List CasePlan → Result ControlError (Unit {0})
unfolding check_inputs
check_cases plan [] = ok tt
check_cases plan (item ∷ more) = do check_case plan item; check_cases plan more

-- `ValidateControlExclusion`.
unfoldable pub validate_control_exclusion : Plan → Result ControlError (Unit {0})
unfolding check_cases
validate_control_exclusion plan = check_cases plan plan.cases

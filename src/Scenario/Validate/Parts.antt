-- ===== src/Scenario/Validate/Parts.antt =====
-- internal/scenario/decode.go, checkpoints.go, no_match.go: the checks of a case's assertions,
-- checkpoints and control.
use oscar_corrtest.Base.{
  ℕ, ◌+◌, ◌-◌, ◌*◌, String, Bool, ◌&&◌, ◌||◌, not, List, [], ◌∷◌, ◌++◌, ltb, leb, ◌==◌, str_eq,
  if◌then◌else◌, any, all, length, get_or, Result, ok, ◌>>◌, refuse_if, map,
}
use oscar_corrtest.Base.Assoc.{contains}
use oscar_corrtest.Scenario.{second, Assertion, Checkpoint, Event, Case, identity_key}
use oscar_corrtest.Scenario.Names.{max_name, max_case_name, bad_name, is_blank, too_long}
use oscar_corrtest.Scenario.Semantics.Check.{SemanticError}

pub data ScenarioError : Type 0 where
  bad_input_path bad_document bad_scenario_name bad_budget bad_case_identity bad_polarity :
      ScenarioError
  bad_case_budget bad_group_by bad_labels foreign_notifiers many_notifiers bad_notifiers :
      ScenarioError
  missing_code : ScenarioError
  assertion_count assertion_kind assertion_budget assertion_outcome : ScenarioError
  checkpoint_count checkpoint_name checkpoint_order checkpoint_window : ScenarioError
  checkpoint_budget checkpoint_overlap : ScenarioError
  stray_witness control_place control_events control_repeat control_assertions : ScenarioError
  episode_events episode_source : ScenarioError
  repeat_stimulus mixed_stimuli : ScenarioError
  source_offset source_name refire_time refire_state event_invalid event_order : ScenarioError
  event_labels resolved_labels resolved_inactive : ScenarioError
  semantic : String → SemanticError → ScenarioError

abbrev pub Check : Type 0
Check = Result ScenarioError (Unit {0})

abbrev kind_in : List String → Assertion → Bool
kind_in kinds a = contains a.kind kinds

abbrev outcome_kinds : List String
outcome_kinds = "audit-count" ∷ "parent-link-count" ∷ "source-episode-state-count" ∷ []

abbrev silent_kinds : List String
silent_kinds = "synthetic-alert-count" ∷ "downstream-no-match-count" ∷ []

unfoldable pub validate_assertion : Assertion → Check
validate_assertion a = do
  refuse_if (not (kind_in (outcome_kinds ++ silent_kinds) a)) assertion_kind
  refuse_if (ltb 100 a.equals || too_long max_name a.outcome) assertion_budget
  refuse_if (kind_in outcome_kinds a && is_blank a.outcome) assertion_outcome
  refuse_if
      (str_eq a.kind "source-episode-state-count"
        && not (str_eq a.outcome "firing" || str_eq a.outcome "resolved"))
      assertion_outcome
  refuse_if (kind_in silent_kinds a && not (str_eq a.outcome "")) assertion_outcome
  ok tt

-- `for _, x := range xs { if err := check(x); err != nil { return err } }`
abbrev pub check_all {ℓ} : {A : Type ℓ} → (A → Check) → List A → Check
check_all check [] = ok tt
check_all check (x ∷ xs) = check x >> check_all check xs

unfoldable pub validate_assertions : List Assertion → Check
unfolding validate_assertion
validate_assertions assertions = do
  refuse_if (length assertions == 0 || ltb 32 (length assertions)) assertion_count
  check_all validate_assertion assertions

-- `item.Events[index].Delay`, and zero where the case repeats a role.
abbrev pub delay_at : List Event → ℕ → ℕ
delay_at events index = get_or (map (λ e. e.delay) events) index 0

abbrev pub stimulus_count : Case → ℕ
stimulus_count c = if length c.events == 0 then c.repeat else length c.events

-- One checkpoint, after the names seen and the ordinal before it.
unfoldable pub validate_checkpoint : Case → ℕ → List String → ℕ → Checkpoint → Check
validate_checkpoint c budget names previous p = do
  refuse_if (bad_name max_case_name p.name || contains p.name names) checkpoint_name
  refuse_if (leb p.after_event previous || ltb (stimulus_count c) p.after_event) checkpoint_order
  refuse_if (p.window == 0 || ltb (120 * second) p.window) checkpoint_window
  let at = delay_at c.events (p.after_event - 1)
  refuse_if (ltb budget (at + p.window) || ltb (c.window + 15 * second) (at + p.window))
      checkpoint_budget
  refuse_if
      (ltb p.after_event (stimulus_count c)
        && ltb (delay_at c.events p.after_event) (at + p.window))
      checkpoint_overlap
  validate_assertions p.assertions

unfoldable pub checkpoint_loop : Case → ℕ → List String → ℕ → List Checkpoint → Check
unfolding validate_checkpoint
checkpoint_loop c budget names previous [] = ok tt
checkpoint_loop c budget names previous (p ∷ ps) =
    validate_checkpoint c budget names previous p
    >> checkpoint_loop c budget (p.name ∷ names) p.after_event ps

unfoldable pub validate_checkpoints : Case → ℕ → Check
unfolding checkpoint_loop
validate_checkpoints c budget = do
  refuse_if (ltb 16 (length c.checkpoints)) checkpoint_count
  checkpoint_loop c budget [] 0 c.checkpoints

checkpoint_assertions : List Checkpoint → List Assertion
checkpoint_assertions [] = []
checkpoint_assertions (p ∷ ps) = p.assertions ++ checkpoint_assertions ps

unfoldable pub all_assertions : Case → List Assertion
unfolding checkpoint_assertions
all_assertions c = c.assertions ++ checkpoint_assertions c.checkpoints

-- The events of a control are named, fire, and are pairwise distinct.
unfoldable pub control_loop : List String → List Event → Check
control_loop seen [] = ok tt
control_loop seen (e ∷ es) =
    refuse_if
      (str_eq e.source "" || not (str_eq e.status "firing") || contains (identity_key e) seen)
      control_repeat
    >> control_loop (identity_key e ∷ seen) es

abbrev is_witness : Assertion → Bool
is_witness a = str_eq a.kind "downstream-no-match-count"

abbrev downstream : String → Case → Check
downstream pattern c = do
  refuse_if
      (not (str_eq c.control "downstream-unmatched")
        || not (str_eq pattern "flood")
        || not (str_eq c.code "N01"))
      control_place
  refuse_if (length c.events == 0) control_events
  control_loop [] c.events
  refuse_if (not (all (λ a. is_witness a && not (a.equals == 0)) (all_assertions c)))
      control_assertions
  ok tt

unfoldable pub validate_downstream_control : String → Case → Check
unfolding all_assertions control_loop
validate_downstream_control pattern c =
    if str_eq c.control ""
    then refuse_if (any is_witness (all_assertions c)) stray_witness
    else downstream pattern c

abbrev is_episode : Assertion → Bool
is_episode a = str_eq a.kind "source-episode-state-count"

unfoldable pub validate_named_episode_assertions : Case → Check
unfolding all_assertions
validate_named_episode_assertions c =
    if any is_episode (all_assertions c)
    then (refuse_if (length c.events == 0) episode_events
        >> refuse_if (any (λ e. str_eq e.source "") c.events) episode_source)
    else ok tt

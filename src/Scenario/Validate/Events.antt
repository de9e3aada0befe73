-- ===== src/Scenario/Validate/Events.antt =====
-- internal/scenario/decode.go: the stimuli of a case, a role that is repeated or a list of events.
use oscar_corrtest.Base.{
  ℕ, ◌%◌, String, Bool, true, false, ◌&&◌, ◌||◌, not, List, [], ◌∷◌, Option, none, some, ltb, leb,
  ◌==◌, str_eq, if◌then◌else◌, length, Result, ok, ◌>>=◌, ◌>>◌, refuse_if,
}
use oscar_corrtest.Base.Assoc.{find, put, remove, has}
use oscar_corrtest.Scenario.{millisecond, Event, Case, identity_key}
use oscar_corrtest.Scenario.Names.{max_name, is_label_name, too_long, labels_ok}
use oscar_corrtest.Scenario.Validate.Parts.{
  ScenarioError, Check, repeat_stimulus, mixed_stimuli, source_offset, source_name, refire_time,
  refire_state, event_invalid, event_order, event_labels, resolved_labels, resolved_inactive,
}

-- The maps of the loop over the events: the keys that fire, and the last start of each key that has
-- fired (`seenSources` holds the keys of `sourceStarts`). A resolved key is deleted from the first.
pub record Sources : Type 0 where
  pub firing : List (String × Bool)
  pub starts : List (String × ℕ)
  pub previous : Option ℕ

abbrev pub is_firing_key : Sources → String → Bool
is_firing_key s key = has key s.firing

abbrev pub start_of : Sources → String → ℕ
start_of s key = elim (find key s.starts) [ none ↦ 0 | some t ↦ t ]

abbrev is_named : Event → Bool
is_named e = not (str_eq e.source "")

abbrev pub before_previous : Option ℕ → ℕ → Bool
before_previous none delay = false
before_previous (some previous) delay = ltb delay previous

abbrev close_key : Sources → String → Event → Sources
close_key s key e = record s { firing = remove key s.firing; previous = some e.delay }

abbrev open_key : Sources → String → Event → Sources
open_key s key e = record s {
  firing = put key true s.firing;
  starts = put key e.delay s.starts;
  previous = some e.delay;
}

unfoldable pub resolve_event : Sources → Event → Result ScenarioError Sources
resolve_event s e = do
  refuse_if (not (length e.labels == 0)) resolved_labels
  refuse_if (not (is_firing_key s (identity_key e))) resolved_inactive
  ok (close_key s (identity_key e) e)

unfoldable pub validate_event : ℕ → Sources → Event → Result ScenarioError Sources
unfolding resolve_event
validate_event budget s e = do
  let key = identity_key e
  let refires = is_named e && str_eq e.status "firing"
  refuse_if (is_named e && not (e.delay % millisecond == 0)) source_offset
  refuse_if (is_named e && (not (is_label_name e.source) || too_long max_name e.source)) source_name
  refuse_if (refires && has key s.starts && leb e.delay (start_of s key)) refire_time
  refuse_if (refires && (is_firing_key s key || (has key s.starts && not (length e.labels == 0))))
      refire_state
  refuse_if
      (str_eq e.role ""
        || too_long max_name e.role
        || not (str_eq e.status "firing" || str_eq e.status "resolved")
        || ltb budget e.delay)
      event_invalid
  refuse_if (before_previous s.previous e.delay) event_order
  refuse_if (not (labels_ok e.labels)) event_labels
  if str_eq e.status "resolved" then resolve_event s e else ok (open_key s key e)

unfoldable pub validate_events : ℕ → Sources → List Event → Result ScenarioError Sources
unfolding validate_event
validate_events budget s [] = ok s
validate_events budget s (e ∷ es) = do s' ← validate_event budget s e; validate_events budget s' es

abbrev pub no_sources : Sources
no_sources = record { firing = []; starts = []; previous = none }

abbrev declared_stimuli : ℕ → Case → Check
declared_stimuli budget c = do
  refuse_if (not (c.repeat == 0) || not (str_eq c.role "") || ltb 100 (length c.events))
      mixed_stimuli
  s ← validate_events budget no_sources c.events
  ok tt

unfoldable pub validate_stimuli : ℕ → Case → Check
unfolding validate_events
validate_stimuli budget c =
    if length c.events == 0
    then refuse_if
        (c.repeat == 0 || ltb 100 c.repeat || str_eq c.role "" || too_long max_name c.role)
        repeat_stimulus
    else declared_stimuli budget c

-- ===== src/Scenario/Validate/Order.antt =====
-- internal/scenario/decode.go, semantics.go: the stimuli of an accepted case are in order of time, and
-- so are the observations that they give.
use oscar_corrtest.Base.{
  ℕ, zero, suc, ◌+◌, ◌≤◌, ◌≡◌, inl, inr, String, true, false, List, [], ◌∷◌, Option, none, some,
  ◌==◌, length, ok, Result-cases, >>=-eq-ok, arith, All, All-map,
}
use mathlib.Core.Path.{subst}
use oscar_corrtest.Scenario.{Event, Case}
use oscar_corrtest.Scenario.Semantics.Expand.{
  Tables, observe_event, expand_from, expand, stimuli, firing_events, repeated,
}
use oscar_corrtest.Scenario.Semantics.Spec.{IsSorted}
use oscar_corrtest.Scenario.Validate.Events.{
  Sources, no_sources, before_previous, validate_event, validate_events, validate_stimuli,
}

abbrev pub InOrder : List Event → Type 0
InOrder [] = Unit
InOrder (e ∷ es) = All (λ x. e.delay ≤ x.delay) es × InOrder es

validate_event-order :
    (budget : ℕ) (s s' : Sources) (e : Event)
    → validate_event budget s e ≡ ok s'
    → (before_previous s.previous e.delay ≡ false) × (s'.previous ≡ some e.delay)
unfolding validate_event
validate_event-order budget s s' e h = ground arith

abbrev AtLeast : Option ℕ → List Event → Type 0
AtLeast none es = Unit
AtLeast (some t) es = All (λ x. t ≤ x.delay) es

AtLeast-nil : (o : Option ℕ) → AtLeast o []
AtLeast-nil none = tt
AtLeast-nil (some t) = tt

AtLeast-cons :
    (o : Option ℕ) (e : Event) (es : List Event)
    → before_previous o e.delay ≡ false
    → All (λ x. e.delay ≤ x.delay) es
    → AtLeast o (e ∷ es)
AtLeast-cons none e es h k = tt
AtLeast-cons (some t) e es h k =
    let le : t ≤ e.delay = ground arith in (le, All-map (λ x p. omega arith) es k)

validate_events-order :
    (budget : ℕ) (s s' : Sources) (es : List Event)
    → validate_events budget s es ≡ ok s'
    → AtLeast s.previous es × InOrder es
unfolding validate_events
validate_events-order budget s s' [] h = (AtLeast-nil s.previous, tt)
validate_events-order budget s s' (e ∷ es) h =
    let (t, here, rest) = >>=-eq-ok (validate_event budget s e) _ h in
    let (late, same) = validate_event-order budget s t e here in
    let (after, order) = validate_events-order budget t s' es rest in
    let after' : All (λ x. e.delay ≤ x.delay) es = subst (λ o. AtLeast o es) same after in
    (AtLeast-cons s.previous e es late after', (after', order))

observe_event-at :
    (c : Case) (t : Tables) (index : ℕ) (e : Event) → (observe_event c t index e).0.at ≡ e.delay
unfolding observe_event
observe_event-at c t index e = ground arith

expand_from-later :
    (c : Case) (t : Tables) (index start : ℕ) (es : List Event)
    → All (λ x. start ≤ x.delay) es
    → All (λ o. start ≤ o.at) (expand_from c t index es)
unfolding expand_from
expand_from-later c t index start [] h = tt
expand_from-later c t index start (e ∷ es) (p, h) = (
  omega (arith, observe_event-at c t index e),
  expand_from-later c (observe_event c t index e).1 (index + 1) start es h,
)

expand_from-IsSorted :
    (c : Case) (t : Tables) (index : ℕ) (es : List Event)
    → InOrder es
    → IsSorted (expand_from c t index es)
unfolding expand_from
expand_from-IsSorted c t index [] h = tt
expand_from-IsSorted c t index (e ∷ es) (l, h) = (
  rw (observe_event-at c t index e)
      (expand_from-later c (observe_event c t index e).1 (index + 1) e.delay es l),
  expand_from-IsSorted c (observe_event c t index e).1 (index + 1) es h,
)

firing_events-InOrder :
    (n : ℕ) (role : String)
    → All (λ x. 0 ≤ x.delay) (firing_events n role) × InOrder (firing_events n role)
unfolding firing_events
firing_events-InOrder zero role = (tt, tt)
firing_events-InOrder (suc n) role =
    let (l, h) = firing_events-InOrder n role in ((omega arith, l), (l, h))

stimuli-InOrder : (c : Case) → InOrder c.events → InOrder (stimuli c)
unfolding stimuli
stimuli-InOrder c h = ordered c.events h
  where
    ordered : (es : List Event) → InOrder es → InOrder (repeated es c.repeat c.role)
    ordered [] k = (firing_events-InOrder c.repeat c.role).1
    ordered (e ∷ es) k = k

empty-InOrder : (es : List Event) → (length es == 0) ≡ true → InOrder es
empty-InOrder [] h = tt
empty-InOrder (e ∷ es) h = absurd (ground arith)

events-InOrder : (budget : ℕ) (c : Case) → validate_stimuli budget c ≡ ok tt → InOrder c.events
unfolding validate_stimuli
events-InOrder budget c h = elim (Result-cases (validate_events budget no_sources c.events)) [
  | inl (s, accepted) ↦ (validate_events-order budget no_sources s c.events accepted).1
  | inr (e, refused) ↦ empty-InOrder c.events (ground arith)
]

-- Where the stimuli of a case are accepted, its observations are in order of time.
pub expand-IsSorted :
    (budget : ℕ) (c : Case) → validate_stimuli budget c ≡ ok tt → IsSorted (expand c)
unfolding expand
expand-IsSorted budget c h =
    expand_from-IsSorted c _ 0 (stimuli c) (stimuli-InOrder c (events-InOrder budget c h))

-- ===== src/Run/Graph.antt =====
-- internal/domain/run.go: the transition diagram of a run, and what follows for its histories.
use oscar_corrtest.Base.{◌≡◌, refl, ◌↔◌, true, arith}
use oscar_corrtest.Run.{
  RunStatus, queued, preflight, setting_up, injecting, observing, asserting, cancelling,
  cleaning_up, interrupted, recovering, completed, can_transition,
}

-- A run in one of these states holds work that may be given up by a cancellation.
pub data IsWorking : RunStatus → Type 0 where
  is_queued : IsWorking queued
  is_preflight : IsWorking preflight
  is_setting_up : IsWorking setting_up
  is_injecting : IsWorking injecting
  is_observing : IsWorking observing
  is_asserting : IsWorking asserting

infix 40 ◌⟶◌
pub data ◌⟶◌ : RunStatus → RunStatus → Type 0 where
  start : queued ⟶ preflight
  set_up : preflight ⟶ setting_up
  inject : setting_up ⟶ injecting
  observe : injecting ⟶ observing
  judge : observing ⟶ asserting
  tidy : asserting ⟶ cleaning_up
  cancel : {s : RunStatus} → IsWorking s → s ⟶ cancelling
  abandon : cancelling ⟶ cleaning_up
  finish : cleaning_up ⟶ completed
  recover : interrupted ⟶ recovering
  resume : recovering ⟶ cleaning_up
  lose_working : {s : RunStatus} → IsWorking s → s ⟶ interrupted
  lose_cancelling : cancelling ⟶ interrupted
  lose_cleaning : cleaning_up ⟶ interrupted
  lose_recovering : recovering ⟶ interrupted

ruleset edges = (
  start, set_up, inject, observe, judge, tidy, cancel, abandon, finish, recover, resume,
  lose_working, lose_cancelling, lose_cleaning, lose_recovering,
)

ruleset workers = (is_queued, is_preflight, is_setting_up, is_injecting, is_observing, is_asserting)

can_transition-⟶ : (a b : RunStatus) → can_transition a b ≡ true → a ⟶ b
unfolding can_transition
can_transition-⟶ a b h = grind (arith, edges, workers)

⟶-can_transition : {a b : RunStatus} → a ⟶ b → can_transition a b ≡ true
unfolding can_transition
⟶-can_transition start = refl
⟶-can_transition set_up = refl
⟶-can_transition inject = refl
⟶-can_transition observe = refl
⟶-can_transition judge = refl
⟶-can_transition tidy = refl
⟶-can_transition (cancel is_queued) = refl
⟶-can_transition (cancel is_preflight) = refl
⟶-can_transition (cancel is_setting_up) = refl
⟶-can_transition (cancel is_injecting) = refl
⟶-can_transition (cancel is_observing) = refl
⟶-can_transition (cancel is_asserting) = refl
⟶-can_transition abandon = refl
⟶-can_transition finish = refl
⟶-can_transition recover = refl
⟶-can_transition resume = refl
⟶-can_transition (lose_working is_queued) = refl
⟶-can_transition (lose_working is_preflight) = refl
⟶-can_transition (lose_working is_setting_up) = refl
⟶-can_transition (lose_working is_injecting) = refl
⟶-can_transition (lose_working is_observing) = refl
⟶-can_transition (lose_working is_asserting) = refl
⟶-can_transition lose_cancelling = refl
⟶-can_transition lose_cleaning = refl
⟶-can_transition lose_recovering = refl

-- `CanTransition` accepts exactly the edges of the transition diagram.
pub can_transition_iff : (a b : RunStatus) → (can_transition a b ≡ true) ↔ (a ⟶ b)
can_transition_iff a b = (can_transition-⟶ a b, ⟶-can_transition)

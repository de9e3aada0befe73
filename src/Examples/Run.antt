-- ===== src/Examples/Run.antt =====
-- internal/domain/run.go: a run that fails while it injects, and one that is interrupted.
use oscar_corrtest.Base.{◌≤◌, ◌≡◌, refl, ◌↔◌, true, false, List, [], ◌∷◌, length}
use oscar_corrtest.Run.{
  RunStatus, queued, preflight, setting_up, injecting, cancelling, cleaning_up, interrupted,
  recovering, completed, can_transition, valid,
}
use oscar_corrtest.Run.Graph.{◌⟶◌, can_transition_iff}
use oscar_corrtest.Run.History.{walk, final, completes}

abbrev failing : List RunStatus
failing = preflight ∷ setting_up ∷ injecting ∷ cancelling ∷ cleaning_up ∷ completed ∷ []

abbrev lost : List RunStatus
lost = recovering ∷ interrupted ∷ recovering ∷ cleaning_up ∷ completed ∷ []

failing_walks : walk queued failing ≡ true
unfolding can_transition
failing_walks = refl

lost_walks : walk interrupted lost ≡ true
unfolding can_transition
lost_walks = refl

no_resumption : can_transition recovering injecting ≡ false
unfolding can_transition
no_resumption = refl

can_transition_iff_example : (can_transition injecting cancelling ≡ true) ↔ (injecting ⟶ cancelling)
can_transition_iff_example = can_transition_iff injecting cancelling

completes_example :
    (ts : List RunStatus) × (walk injecting ts ≡ true)
    × (final injecting ts ≡ completed)
    × (length ts ≤ 3)
    × ((t : RunStatus) → can_transition completed t ≡ false)
completes_example = completes injecting (unfold valid in refl)

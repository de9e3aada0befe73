-- ===== src/Run/History.antt =====
-- internal/domain/run.go: what holds of every sequence of statuses that `CanTransition` accepts.
use oscar_corrtest.Base.{
  ℕ, ◌+◌, ◌*◌, ◌≤◌, ◌≡◌, refl, Bool, true, false, ◌&&◌, arith, List, [], ◌∷◌, length, tally, any,
  All, if◌then◌else◌, suc, and-eq-true, ◌≢◌, inl, inr, Bool-cases,
}
use oscar_corrtest.Run.{
  RunStatus, queued, preflight, setting_up, injecting, observing, asserting, cancelling,
  cleaning_up, interrupted, recovering, completed, other, valid, can_transition,
}

-- The later statuses of a run, each reached from the one before it.
abbrev pub walk : RunStatus → List RunStatus → Bool
walk s [] = true
walk s (t ∷ ts) = can_transition s t && walk t ts

abbrev pub final : RunStatus → List RunStatus → RunStatus
final s [] = s
final s (t ∷ ts) = final t ts

-- The most transitions that a run can make from a status with no interruption.
abbrev pub steps_left : RunStatus → ℕ
steps_left queued = 8
steps_left preflight = 7
steps_left setting_up = 6
steps_left injecting = 5
steps_left observing = 4
steps_left asserting = 3
steps_left cancelling = 2
steps_left interrupted = 3
steps_left recovering = 2
steps_left cleaning_up = 1
steps_left completed = 0
steps_left (other s) = 0

abbrev pub is_interrupted : RunStatus → Bool
is_interrupted interrupted = true
is_interrupted _ = false

abbrev pub is_cleaning_up : RunStatus → Bool
is_cleaning_up cleaning_up = true
is_cleaning_up _ = false

-- Statuses in which no alert is sent any more and no rule is created.
abbrev pub tidying : RunStatus → Bool
tidying interrupted = true
tidying recovering = true
tidying cleaning_up = true
tidying completed = true
tidying _ = false

transition_cost :
    (s t : RunStatus)
    → can_transition s t ≡ true
    → suc (steps_left t) ≤ steps_left s + 3 * (if is_interrupted t then 1 else 0)
unfolding can_transition
transition_cost s t h = ground arith

-- A run makes at most eight transitions, and three more for each time that it is interrupted.
pub walk_bounded :
    (s : RunStatus) (ts : List RunStatus)
    → walk s ts ≡ true
    → length ts + steps_left (final s ts) ≤ steps_left s + 3 * tally is_interrupted ts
walk_bounded s [] h = omega arith
walk_bounded s (t ∷ ts) h =
    let (step, rest) = and-eq-true (can_transition s t) (walk t ts) h in
    omega (arith, transition_cost s t step, walk_bounded t ts rest)

tidying_step : (s t : RunStatus) → tidying s ≡ true → can_transition s t ≡ true → tidying t ≡ true
unfolding can_transition
tidying_step s t h k = ground arith

walk-tidying :
    (s : RunStatus) (ts : List RunStatus)
    → tidying s ≡ true
    → walk s ts ≡ true
    → All (λ t. tidying t ≡ true) ts
walk-tidying s [] h k = tt
walk-tidying s (t ∷ ts) h k =
    let (step, rest) = and-eq-true (can_transition s t) (walk t ts) k in
    let here = tidying_step s t h step in (here, walk-tidying t ts here rest)

-- Once a run is interrupted it only recovers, cleans up and completes: no later status creates
-- rules, sends alerts, observes or judges.
pub interrupted-tidying :
    (ts : List RunStatus) → walk interrupted ts ≡ true → All (λ t. tidying t ≡ true) ts
interrupted-tidying ts h = walk-tidying interrupted ts refl h

completed_step : (s t : RunStatus) → can_transition s t ≡ true → t ≡ completed → s ≡ cleaning_up
unfolding can_transition
completed_step s t h e = ground arith

no_step_from_completed : (t : RunStatus) → can_transition completed t ≡ false
unfolding can_transition
no_step_from_completed t = ground arith

abbrev is_completed : RunStatus → Bool
is_completed completed = true
is_completed _ = false

is_completed_lem : (t : RunStatus) → is_completed t ≡ true → t ≡ completed
is_completed_lem t h = ground arith

not_completed : (t : RunStatus) → is_completed t ≡ false → t ≢ completed
not_completed t h e = ground arith

walk_cleans :
    (s : RunStatus) (ts : List RunStatus)
    → s ≢ completed
    → walk s ts ≡ true
    → final s ts ≡ completed
    → any is_cleaning_up (s ∷ ts) ≡ true
walk_cleans s [] n h e = absurd (n e)
walk_cleans s (t ∷ ts) n h e =
    let (step, rest) = and-eq-true (can_transition s t) (walk t ts) h in
    elim (Bool-cases (is_completed t)) [
      | inl done ↦ ground (arith, completed_step s t step (is_completed_lem t done))
      | inr more ↦ ground (arith, walk_cleans t ts (not_completed t more) rest e)
    ]

-- No run that has begun completes without a pass through CLEANING_UP.
pub queued_cleans :
    (ts : List RunStatus)
    → walk queued ts ≡ true
    → final queued ts ≡ completed
    → any is_cleaning_up ts ≡ true
queued_cleans ts h e = walk_cleans queued ts (λ q. cc) h e

-- What the harness does to end a run from each documented status.
abbrev pub way_out : RunStatus → List RunStatus
way_out asserting = cleaning_up ∷ completed ∷ []
way_out cancelling = cleaning_up ∷ completed ∷ []
way_out cleaning_up = completed ∷ []
way_out interrupted = recovering ∷ cleaning_up ∷ completed ∷ []
way_out recovering = cleaning_up ∷ completed ∷ []
way_out completed = []
way_out (other s) = []
way_out _ = cancelling ∷ cleaning_up ∷ completed ∷ []

-- Every documented status has a way to COMPLETED of at most three accepted transitions, and
-- COMPLETED itself has no transition at all.
pub completes :
    (s : RunStatus)
    → valid s ≡ true
    → (ts : List RunStatus) × (walk s ts ≡ true)
      × (final s ts ≡ completed)
      × (length ts ≤ 3)
      × ((t : RunStatus) → can_transition completed t ≡ false)
unfolding valid can_transition
completes s h = (way_out s, ground arith, ground arith, ground arith, no_step_from_completed)

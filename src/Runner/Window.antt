-- ===== src/Runner/Window.antt =====
-- internal/runner/observation.go: when `observe` ends and what its verdicts rest on.
use oscar_corrtest.Base.{
  ℕ, ◌≡◌, refl, sym, ap, ◌∙◌, Bool, true, false, List, [], ◌∷◌, Option, none, some, leb, any, ltb,
  ◌&&◌, Result, ok, err, >>=-eq-ok, arith, Bool-cases, ◌⊎◌, inl, inr, Result-cases, ok-injective,
  Option-cases,
}
use oscar_corrtest.Run.{fail}
use oscar_corrtest.Runner.{
  Snapshot, AssertionResult, RunnerError, sleep_failed, evaluate_assertions,
}
use oscar_corrtest.Runner.Observe.{
  Plan, Options, Poll, CaseResult, Marks, Outcome, no_marks, shadow_of, full_window, mark, conclude,
  stabilize, attempt, observe_loop, observe, deadline_of, ready_to_stop, Step, stop, go,
  after_attempt, round,
}

abbrev pub at_deadline : ℕ → Poll → Bool
at_deadline deadline poll = leb deadline poll.now

Step-cases :
    (x : Step) → ((r : Outcome) × (x ≡ stop r)) ⊎ ((m : Marks) × (s : Snapshot) × (x ≡ go m s))
Step-cases (stop r) = inl (r, refl)
Step-cases (go m s) = inr (m, s, refl)

loop_ends :
    (o : Options) (p : Plan) (deadline : ℕ) (m : Marks) (polls : List Poll)
    → any (at_deadline deadline) polls ≡ true
    → (r : Outcome) × (observe_loop o p deadline m polls ≡ some r)
unfolding observe_loop
loop_ends o p deadline m [] h = cc
loop_ends o p deadline m (poll ∷ polls) h = elim (Step-cases (round o p m poll)) [
  | inl (r, ended) ↦ (r, rw (observe_loop, ended) refl)
  | inr (next, last, goes) ↦ elim (Bool-cases (at_deadline deadline poll)) [
    | inl over ↦ (conclude o p next last, rw (observe_loop, goes, over) refl)
    | inr early ↦
        let (r, later) = loop_ends o p deadline next polls (rw early at h) in
        elim (Bool-cases poll.sleep_cut) [
          | inl cut ↦ (err sleep_failed, rw (observe_loop, goes, early, cut) refl)
          | inr slept ↦ (r, rw (observe_loop, goes, early, slept) later)
        ]
  ]
]

after_attempt_stops :
    (m : Marks) (x : Result RunnerError (Option CaseResult × Snapshot)) {result : CaseResult}
    → after_attempt m x ≡ stop (ok result)
    → (last : Snapshot) × (x ≡ ok (some result, last))
after_attempt_stops m (err e) h = cc
after_attempt_stops m (ok (some r, last)) h = (last, cc)
after_attempt_stops m (ok (none, last)) h = cc

-- A round that ends the observation with a result has read a snapshot and read again.
pub round_stops :
    (o : Options) (p : Plan) (m : Marks) (poll : Poll) {result : CaseResult}
    → round o p m poll ≡ stop (ok result)
    → (s : Snapshot) × (rs : List AssertionResult) × (last : Snapshot) × (attempt o p poll s rs
        ≡ ok (some result, last))
unfolding round
round_stops o p m poll h = elim (Option-cases poll.reading) [
  | inl unread ↦ let clash = rw unread at h in cc
  | inr (s, got) ↦ elim (Result-cases (evaluate_assertions p.assertions s (shadow_of o))) [
    | inr (e, failed) ↦ let clash = rw (got, failed) at h in cc
    | inl (rs, evaluated) ↦
        let (last, tried) =
          after_attempt_stops (mark o p s rs m) (attempt o p poll s rs)
            (rw (got, evaluated) at h) in
        (s, rs, last, tried)
  ]
]

pub attempt_stops :
    (o : Options) (p : Plan) (poll : Poll) (s : Snapshot) (rs : List AssertionResult)
    {result : CaseResult} {last : Snapshot}
    → attempt o p poll s rs ≡ ok (some result, last)
    → (full_window o p ≡ false) × (stabilize o p poll ≡ ok (some result, last))
attempt_stops o p poll s rs h =
    elim (Bool-cases (ready_to_stop o p s rs && ltb 0 o.stabilization)) [
      | inl done ↦ (ground arith, rw done at h)
      | inr not_done ↦ let clash = rw not_done at h in cc
    ]

-- A loop that ends with a result has ended in this round, at the deadline, or later.
pub loop_cases :
    (o : Options) (p : Plan) (deadline : ℕ) (m : Marks) (poll : Poll) (polls : List Poll)
    {result : CaseResult}
    → observe_loop o p deadline m (poll ∷ polls) ≡ some (ok result)
    → (round o p m poll ≡ stop (ok result))
      ⊎ (((next : Marks) × (last : Snapshot) × (round o p m poll ≡ go next last)
            × (at_deadline deadline poll ≡ true)
            × (conclude o p next last ≡ ok result))
          ⊎ ((next : Marks) × (last : Snapshot) × (round o p m poll ≡ go next last)
              × (at_deadline deadline poll ≡ false)
              × (observe_loop o p deadline next polls ≡ some (ok result))))
unfolding observe_loop
loop_cases o p deadline m poll polls h = elim (Step-cases (round o p m poll)) [
  | inl (r, ended) ↦ inl (ended ∙ ap stop (some_outcome (rw (observe_loop, ended) at h)))
  | inr (next, last, goes) ↦ elim (Bool-cases (at_deadline deadline poll)) [
    | inl over ↦
        inr (inl (next, last, goes, over, some_outcome (rw (observe_loop, goes, over) at h)))
    | inr early ↦ elim (Bool-cases poll.sleep_cut) [
      | inl cut ↦ let clash = rw (observe_loop, goes, early, cut) at h in cc
      | inr slept ↦ inr (inr (next, last, goes, early, rw (observe_loop, goes, early, slept) at h))
    ]
  ]
]
  where
    some_outcome : {x y : Outcome} → ◌≡◌ {A = Option Outcome} (some x) (some y) → x ≡ y
    some_outcome e = cc

-- If the clock reaches the deadline in some poll, the observation ends with a result or an error.
pub observe_ends :
    (o : Options) (p : Plan) (injected : Option ℕ) (start : ℕ) (polls : List Poll)
    → any (at_deadline (deadline_of o p injected start)) polls ≡ true
    → (r : Outcome) × (observe o p injected start polls ≡ some r)
unfolding observe
observe_ends o p injected start polls h =
    loop_ends o p (deadline_of o p injected start) no_marks polls h

-- The verdict after the deadline: a violation seen fails the case, a gap leaves it open.
pub conclude_violated :
    (o : Options) (p : Plan) (m : Marks) (last : Snapshot) {s : Snapshot} {result : CaseResult}
    → m.violation ≡ some s
    → conclude o p m last ≡ ok result
    → result.verdict ≡ fail
unfolding conclude
conclude_violated o p m last h k =
    let (results, evaluated, k1) =
      >>=-eq-ok (evaluate_assertions p.assertions last (shadow_of o)) _ k in
    sym (ap (λ (r : CaseResult). r.verdict) (ok-injective (rw h at k1)))

full_window_waits :
    (o : Options) (p : Plan) (deadline : ℕ) (m : Marks) (polls : List Poll) {result : CaseResult}
    → full_window o p ≡ true
    → observe_loop o p deadline m polls ≡ some (ok result)
    → any (at_deadline deadline) polls ≡ true
unfolding observe_loop
full_window_waits o p deadline m [] whole h = cc
full_window_waits o p deadline m (poll ∷ polls) whole h =
    elim (loop_cases o p deadline m poll polls h) [
      | inl ended ↦
          let (s, rs, last, tried) = round_stops o p m poll ended in
          let (partial, _) = attempt_stops o p poll s rs tried in absurd (ground arith)
      | inr (inl (next, last, goes, over, concluded)) ↦ rw over refl
      | inr (inr (next, last, goes, early, later)) ↦
          rw early (full_window_waits o p deadline next polls whole later)
    ]

-- Where the full window is required, as for a checkpoint or an assertion of a zero count, a result is
-- given only once the clock has reached the deadline.
pub observe-full_window :
    (o : Options) (p : Plan) (injected : Option ℕ) (start : ℕ) (polls : List Poll)
    {result : CaseResult}
    → full_window o p ≡ true
    → observe o p injected start polls ≡ some (ok result)
    → any (at_deadline (deadline_of o p injected start)) polls ≡ true
unfolding observe
observe-full_window o p injected start polls whole h =
    full_window_waits o p (deadline_of o p injected start) no_marks polls whole h

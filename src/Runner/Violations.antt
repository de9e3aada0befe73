-- ===== src/Runner/Violations.antt =====
-- internal/runner/observation.go: a zero count that is violated once in a checkpoint.
use oscar_corrtest.Base.{
  ℕ, ◌≡◌, refl, sym, ap, ◌∙◌, true, false, List, [], ◌∷◌, ◌++◌, Option, none, some, any, Result, ok,
  err, arith, Bool-cases, inl, inr, Result-cases, ok-injective, Option-cases,
}
use mathlib.Core.Path.{subst}
use oscar_corrtest.Run.{fail}
use oscar_corrtest.Runner.{Snapshot, AssertionResult, RunnerError, evaluate_assertions}
use oscar_corrtest.Runner.Observe.{
  Plan, Options, Poll, CaseResult, Marks, no_marks, shadow_of, full_window, is_violation, mark,
  conclude, attempt, observe_loop, observe, deadline_of, stop, go, after_attempt, round,
}
use oscar_corrtest.Runner.Window.{
  at_deadline, round_stops, attempt_stops, loop_cases, conclude_violated,
}

Violated : Marks → Type 0
Violated m = (s : Snapshot) × (m.violation ≡ some s)

round_goes :
    (o : Options) (p : Plan) (m : Marks) (poll : Poll) {next : Marks} {last : Snapshot}
    → round o p m poll ≡ go next last
    → (s : Snapshot) × (rs : List AssertionResult) × (poll.reading ≡ some s)
      × (evaluate_assertions p.assertions s (shadow_of o) ≡ ok rs)
      × (next ≡ mark o p s rs m)
unfolding round
round_goes o p m poll {next} {last} h = elim (Option-cases poll.reading) [
  | inl unread ↦ let clash = rw unread at h in cc
  | inr (s, got) ↦ elim (Result-cases (evaluate_assertions p.assertions s (shadow_of o))) [
    | inr (e, failed) ↦ let clash = rw (got, failed) at h in cc
    | inl (rs, evaluated) ↦ (
      s,
      rs,
      got,
      evaluated,
      after_attempt_goes (mark o p s rs m) (attempt o p poll s rs) (rw (got, evaluated) at h),
    )
  ]
]
  where
    after_attempt_goes :
        (n : Marks) (x : Result RunnerError (Option CaseResult × Snapshot))
        → after_attempt n x ≡ go next last
        → next ≡ n
    after_attempt_goes n (err e) k = cc
    after_attempt_goes n (ok (some r, z)) k = cc
    after_attempt_goes n (ok (none, z)) k = cc

mark_keeps :
    (o : Options) (p : Plan) (s : Snapshot) (rs : List AssertionResult) (m : Marks)
    → Violated m
    → Violated (mark o p s rs m)
unfolding Violated mark
mark_keeps o p s rs m (v, seen) = elim (Bool-cases (full_window o p)) [
  | inl whole ↦ (v, rw (whole, seen) refl)
  | inr partial ↦ (v, rw partial seen)
]

mark_sees :
    (o : Options) (p : Plan) (s : Snapshot) (rs : List AssertionResult) (m : Marks)
    → full_window o p ≡ true
    → any (is_violation o.checkpoint) rs ≡ true
    → Violated (mark o p s rs m)
unfolding Violated mark
mark_sees o p s rs m whole found = elim (Option-cases m.violation) [
  | inl first ↦ (s, rw (whole, first, found) refl)
  | inr (v, seen) ↦ (v, rw (whole, seen) refl)
]

conclude_fails :
    (o : Options) (p : Plan) (m : Marks) (last : Snapshot) {result : CaseResult}
    → Violated m
    → conclude o p m last ≡ ok result
    → result.verdict ≡ fail
unfolding Violated
conclude_fails o p m last (v, seen) h = conclude_violated o p m last seen h

module _ (o : Options) (p : Plan) (deadline : ℕ) (whole : full_window o p ≡ true) where
  no_early_end :
      (m : Marks) (poll : Poll) {result : CaseResult} → round o p m poll ≡ stop (ok result) → ⊥
  no_early_end m poll ended =
      let (s, rs, last, tried) = round_stops o p m poll ended in
      let (partial, _) = attempt_stops o p poll s rs tried in ground arith

  Violated-fails :
      (m : Marks) (polls : List Poll) {result : CaseResult}
      → Violated m
      → observe_loop o p deadline m polls ≡ some (ok result)
      → result.verdict ≡ fail
  unfolding observe_loop
  Violated-fails m [] v h = cc
  Violated-fails m (poll ∷ polls) v h = elim (loop_cases o p deadline m poll polls h) [
    | inl ended ↦ absurd (no_early_end m poll ended)
    | inr (inl (next, last, goes, over, concluded)) ↦
        let (s, rs, _, _, marked) = round_goes o p m poll goes in
        conclude_fails o p next last (subst Violated (sym marked) (mark_keeps o p s rs m v))
          concluded
    | inr (inr (next, last, goes, early, later)) ↦
        let (s, rs, _, _, marked) = round_goes o p m poll goes in
        Violated-fails next polls (subst Violated (sym marked) (mark_keeps o p s rs m v)) later
  ]

  some_snapshot : {x y : Snapshot} → ◌≡◌ {A = Option Snapshot} (some x) (some y) → x ≡ y
  some_snapshot e = cc

  marks_it :
      (n : Marks) (x : Poll) (z : Snapshot) (zs : List AssertionResult) {next : Marks}
      {last : Snapshot}
      → x.reading ≡ some z
      → evaluate_assertions p.assertions z (shadow_of o) ≡ ok zs
      → any (is_violation o.checkpoint) zs ≡ true
      → round o p n x ≡ go next last
      → Violated next
  marks_it n x z zs read_it evaluated_it found_it goes =
      let (y, ys, got', evaluated', marked) = round_goes o p n x goes in
      let same : z ≡ y = some_snapshot (sym read_it ∙ got') in
      let results : zs ≡ ys = ok-injective (
        sym evaluated_it
        ∙ ap (λ w. evaluate_assertions p.assertions w (shadow_of o)) same
        ∙ evaluated') in
      subst Violated (sym marked) (
        mark_sees o p y ys n whole
          (subst (λ w. any (is_violation o.checkpoint) w ≡ true) results found_it))

  seen_fails :
      (m : Marks) (before : List Poll) (poll : Poll) (after : List Poll) (s : Snapshot)
      (rs : List AssertionResult) {result : CaseResult}
      → any (at_deadline deadline) before ≡ false
      → poll.reading ≡ some s
      → evaluate_assertions p.assertions s (shadow_of o) ≡ ok rs
      → any (is_violation o.checkpoint) rs ≡ true
      → observe_loop o p deadline m (before ++ poll ∷ after) ≡ some (ok result)
      → result.verdict ≡ fail
  seen_fails m [] poll after s rs open_yet got evaluated found h =
      elim (loop_cases o p deadline m poll after h) [
        | inl ended ↦ absurd (no_early_end m poll ended)
        | inr (inl (next, last, goes, over, concluded)) ↦
            conclude_fails o p next last (marks_it m poll s rs got evaluated found goes) concluded
        | inr (inr (next, last, goes, early, later)) ↦
            Violated-fails next after (marks_it m poll s rs got evaluated found goes) later
      ]
  seen_fails m (first ∷ before) poll after s rs open_yet got evaluated found h =
      elim (loop_cases o p deadline m first (before ++ poll ∷ after) h) [
        | inl ended ↦ absurd (no_early_end m first ended)
        | inr (inl (next, last, goes, over, concluded)) ↦ absurd (ground arith)
        | inr (inr (next, last, goes, early, later)) ↦
            seen_fails next before poll after s rs (rw early at open_yet) got evaluated found later
      ]

-- In a checkpoint, a reading that violates an assertion of a zero count, before the clock has reached
-- the deadline in an earlier poll, fails the case whatever is read later, where there is a result.
pub checkpoint_violation_fails :
    (o : Options) (p : Plan) (injected : Option ℕ) (start : ℕ) (before : List Poll) (poll : Poll)
    (after : List Poll) (s : Snapshot) (rs : List AssertionResult) {result : CaseResult}
    → o.checkpoint ≡ true
    → any (at_deadline (deadline_of o p injected start)) before ≡ false
    → poll.reading ≡ some s
    → evaluate_assertions p.assertions s (shadow_of o) ≡ ok rs
    → any (is_violation true) rs ≡ true
    → observe o p injected start (before ++ poll ∷ after) ≡ some (ok result)
    → result.verdict ≡ fail
unfolding observe
checkpoint_violation_fails o p injected start before poll after s rs check early got evaluated found
      h =
    seen_fails o p (deadline_of o p injected start) (ground arith) no_marks before poll after s rs
      early got evaluated (subst (λ c. any (is_violation c) rs ≡ true) (sym check) found) h

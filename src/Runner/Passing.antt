-- ===== src/Runner/Passing.antt =====
-- internal/runner/observation.go: what a pass of `observe` rests on.
use oscar_corrtest.Base.{
  ℕ, ◌≡◌, ap, true, ◌&&◌, ◌||◌, not, List, [], ◌∷◌, Option, none, some, ltb, refuse_if-eq-ok, any,
  all, ok, >>=-eq-ok, Bool-cases, inl, inr, ok-injective, Option-cases, Result-cases, Result, err,
  ◌∙◌, ◌⊎◌,
}
use mathlib.Core.Path.{subst}
use oscar_corrtest.Run.{pass, fail, inconclusive, skipped}
use oscar_corrtest.Runner.{
  Snapshot, AssertionResult, RunnerError, evaluate_assertions, assertions_pass, verdict_is,
}
use oscar_corrtest.Runner.Observe.{
  Plan, Options, Poll, CaseResult, Marks, no_marks, shadow_of, read, conclude, stabilize,
  observe_loop, observe, deadline_of, settled, with_verdict, stop, go, round, after_attempt,
  attempt, mark, ready_to_stop,
}
use oscar_corrtest.Runner.Scoring.{is_fine, assertions_pass_iff}
use oscar_corrtest.Runner.Window.{round_stops, attempt_stops, loop_cases}

-- The snapshot is what a poll has read, at first or after the stabilization.
abbrev pub IsReading : Snapshot → Poll → Type 0
IsReading s poll = (poll.reading ≡ some s) ⊎ (poll.stable ≡ some s)

abbrev pub WasRead : Snapshot → List Poll → Type 0
WasRead s [] = ⊥
WasRead s (poll ∷ polls) = IsReading s poll ⊎ WasRead s polls

-- A pass rests on a snapshot that was read and whose assertions pass.
Sound : Options → Plan → List Poll → CaseResult → Type 0
Sound o p polls result =
    result.verdict ≡ pass
    → WasRead result.snapshot polls
      × (evaluate_assertions p.assertions result.snapshot (shadow_of o) ≡ ok result.results)
      × (assertions_pass result.results ≡ true)

read_some : (x : Option Snapshot) {s : Snapshot} → read x ≡ ok s → x ≡ some s
read_some none h = cc
read_some (some s) h = ap some (ok-injective h)

after_attempt_goes :
    (m : Marks) (x : Result RunnerError (Option CaseResult × Snapshot)) {next : Marks}
    {last : Snapshot}
    → after_attempt m x ≡ go next last
    → x ≡ ok (none, last)
after_attempt_goes m (err e) h = cc
after_attempt_goes m (ok (some r, last)) h = cc
after_attempt_goes m (ok (none, last)) h = cc

-- The snapshot that an early attempt goes on with.
attempt_goes :
    (o : Options) (p : Plan) (poll : Poll) (s : Snapshot) (rs : List AssertionResult)
    {last : Snapshot}
    → poll.reading ≡ some s
    → attempt o p poll s rs ≡ ok (none, last)
    → IsReading last poll
unfolding stabilize
attempt_goes o p poll s rs {last} got h =
    elim (Bool-cases (ready_to_stop o p s rs && ltb 0 o.stabilization)) [
      | inr not_done ↦
          let same : s ≡ last =
            ap (λ (x : Option CaseResult × Snapshot). x.1) (ok-injective (rw not_done at h)) in
          inl (got ∙ ap some same)
      | inl done ↦
          let (_, h1) = refuse_if-eq-ok poll.stabilization_cut _ _ (rw done at h) in
          let (again, reread, h2) = >>=-eq-ok (read poll.stable) _ h1 in
          let (_, _, h3) = >>=-eq-ok (evaluate_assertions p.assertions again (shadow_of o)) _ h2 in
          let same : again ≡ last =
            ap (λ (x : Option CaseResult × Snapshot). x.1) (ok-injective h3) in
          inr (read_some poll.stable reread ∙ ap some same)
    ]

round_reads :
    (o : Options) (p : Plan) (m : Marks) (poll : Poll) {next : Marks} {last : Snapshot}
    → round o p m poll ≡ go next last
    → IsReading last poll
unfolding round
round_reads o p m poll h = elim (Option-cases poll.reading) [
  | inl unread ↦ let clash = rw unread at h in cc
  | inr (s, got) ↦ elim (Result-cases (evaluate_assertions p.assertions s (shadow_of o))) [
    | inr (e, failed) ↦ let clash = rw (got, failed) at h in cc
    | inl (rs, evaluated) ↦
        attempt_goes o p poll s rs got
          (after_attempt_goes (mark o p s rs m) (attempt o p poll s rs) (rw (got, evaluated) at h))
  ]
]

doubt-Sound :
    (o : Options) (p : Plan) (polls : List Poll) (s : Snapshot) (rs : List AssertionResult)
    → Sound o p polls (with_verdict inconclusive s rs)
unfolding Sound
doubt-Sound o p polls s rs h = cc

fail-Sound :
    (o : Options) (p : Plan) (polls : List Poll) (s : Snapshot) (rs : List AssertionResult)
    → Sound o p polls (with_verdict fail s rs)
unfolding Sound
fail-Sound o p polls s rs h = cc

pass-Sound :
    (o : Options) (p : Plan) (polls : List Poll) (s : Snapshot) (rs : List AssertionResult)
    → WasRead s polls
    → evaluate_assertions p.assertions s (shadow_of o) ≡ ok rs
    → assertions_pass rs ≡ true
    → Sound o p polls (with_verdict pass s rs)
unfolding Sound
pass-Sound o p polls s rs was_read evaluated passes h = (was_read, evaluated, passes)

settled-Sound :
    (o : Options) (p : Plan) (polls : List Poll) (last : Snapshot) (rs : List AssertionResult)
    → WasRead last polls
    → evaluate_assertions p.assertions last (shadow_of o) ≡ ok rs
    → Sound o p polls (settled o last rs)
settled-Sound o p polls last rs was_read evaluated =
    elim (Bool-cases (not last.source_ready || not last.audit_ready)) [
      | inl unready ↦ rw unready (doubt-Sound o p polls last rs)
      | inr ready ↦ elim (Bool-cases (any (verdict_is inconclusive) rs)) [
        | inl unproven ↦ rw (ready, unproven) (doubt-Sound o p polls last rs)
        | inr proven ↦ elim (Bool-cases (o.checkpoint && any (verdict_is skipped) rs)) [
          | inl skips ↦ rw (ready, proven, skips) (doubt-Sound o p polls last rs)
          | inr whole ↦ elim (Bool-cases (assertions_pass rs)) [
            | inl passes ↦
                rw (ready, proven, whole, passes)
                  (pass-Sound o p polls last rs was_read evaluated passes)
            | inr fails ↦ rw (ready, proven, whole, fails) (fail-Sound o p polls last rs)
          ]
        ]
      ]
    ]

conclude-Sound :
    (o : Options) (p : Plan) (polls : List Poll) (m : Marks) (last : Snapshot) {result : CaseResult}
    → WasRead last polls
    → conclude o p m last ≡ ok result
    → Sound o p polls result
unfolding conclude
conclude-Sound o p polls m last was_read h =
    let (results, evaluated, k) =
      >>=-eq-ok (evaluate_assertions p.assertions last (shadow_of o)) _ h in
    elim (Option-cases m.violation) [
      | inl none_seen ↦ elim (Option-cases m.gap) [
        | inl no_gap ↦
            subst (Sound o p polls) (ok-injective (rw (none_seen, no_gap) at k))
              (settled-Sound o p polls last results was_read evaluated)
        | inr (s, gap) ↦
            subst (Sound o p polls) (ok-injective (rw (none_seen, gap) at k))
              (doubt-Sound o p polls s _)
      ]
      | inr (s, seen) ↦
          subst (Sound o p polls) (ok-injective (rw seen at k)) (fail-Sound o p polls s _)
    ]

stabilize-Sound :
    (o : Options) (p : Plan) (poll : Poll) (polls : List Poll) {result : CaseResult}
    {last : Snapshot}
    → stabilize o p poll ≡ ok (some result, last)
    → Sound o p (poll ∷ polls) result
unfolding stabilize
stabilize-Sound o p poll polls {result} h =
    let (_, h1) = refuse_if-eq-ok poll.stabilization_cut _ _ h in
    let (s, got, h2) = >>=-eq-ok (read poll.stable) _ h1 in
    let (rs, evaluated, h3) = >>=-eq-ok (evaluate_assertions p.assertions s (shadow_of o)) _ h2 in
    elim (Bool-cases (assertions_pass rs)) [
      | inl passes ↦
          let same : ◌≡◌ {A = Option CaseResult} (some (with_verdict pass s rs)) (some result) =
            ap (λ x. x.0) (ok-injective (rw passes at h3)) in
          subst (Sound o p (poll ∷ polls)) (some_same same) (
            pass-Sound o p (poll ∷ polls) s rs (inl (inr (read_some poll.stable got))) evaluated
              passes)
      | inr fails ↦
          let same : ◌≡◌ {A = Option CaseResult} none (some result) =
            ap (λ x. x.0) (ok-injective (rw fails at h3)) in
          absurd cc
    ]
  where
    some_same : {x y : CaseResult} → ◌≡◌ {A = Option CaseResult} (some x) (some y) → x ≡ y
    some_same e = cc

round-Sound :
    (o : Options) (p : Plan) (m : Marks) (poll : Poll) (polls : List Poll) {result : CaseResult}
    → round o p m poll ≡ stop (ok result)
    → Sound o p (poll ∷ polls) result
round-Sound o p m poll polls h =
    let (s, rs, last, tried) = round_stops o p m poll h in
    let (_, again) = attempt_stops o p poll s rs tried in stabilize-Sound o p poll polls again

loop-Sound :
    (o : Options) (p : Plan) (deadline : ℕ) (m : Marks) (polls : List Poll) {result : CaseResult}
    → observe_loop o p deadline m polls ≡ some (ok result)
    → Sound o p polls result
unfolding observe_loop Sound
loop-Sound o p deadline m [] h = absurd cc
loop-Sound o p deadline m (poll ∷ polls) {result} h =
    elim (loop_cases o p deadline m poll polls h) [
      | inl ended ↦ round-Sound o p m poll polls ended
      | inr (inl (next, last, goes, over, concluded)) ↦
          conclude-Sound o p (poll ∷ polls) next last (inl (round_reads o p m poll goes)) concluded
      | inr (inr (next, last, goes, early, later)) ↦ λ passed.
          let (was_read, evaluated, passes) = loop-Sound o p deadline next polls later passed in
          (inr was_read, evaluated, passes)
    ]

-- A pass of `observe` rests on a snapshot that one of the polls has read from the server, and whose assertions
-- were evaluated to the results that it reports; every one of them passes or is skipped, and one passes.
pub observe_pass :
    (o : Options) (p : Plan) (injected : Option ℕ) (start : ℕ) (polls : List Poll)
    {result : CaseResult}
    → observe o p injected start polls ≡ some (ok result)
    → result.verdict ≡ pass
    → WasRead result.snapshot polls
      × (evaluate_assertions p.assertions result.snapshot (shadow_of o) ≡ ok result.results)
      × (all is_fine result.results ≡ true)
      × (any (verdict_is pass) result.results ≡ true)
unfolding observe Sound
observe_pass o p injected start polls {result} h passed =
    let (was_read, evaluated, passes) =
      loop-Sound o p (deadline_of o p injected start) no_marks polls h passed in
    let (fine, scored) = (assertions_pass_iff result.results).0 passes in
    (was_read, evaluated, fine, scored)

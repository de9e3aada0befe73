-- ===== src/Runner/Observe.antt =====
-- internal/runner/observation.go: the loop of `observe`. What a round reads from the server and the
-- clock is a `Poll`; a case result keeps its verdict, its snapshot and its assertion results.
use oscar_corrtest.Base.{
  ℕ, ◌+◌, String, Bool, ◌&&◌, ◌||◌, not, List, [], ◌∷◌, Option, none, some, ◌==◌, ltb, leb, str_eq,
  if◌then◌else◌, any, Result, ok, err, ◌>>=◌, ◌>>◌, refuse_if,
}
use oscar_corrtest.Run.{Verdict, pass, fail, inconclusive, skipped}
use oscar_corrtest.Scenario.{Assertion}
use oscar_corrtest.Runner.{
  Snapshot, AssertionResult, RunnerError, read_failed, sleep_failed, verdict_is,
  evaluate_assertions, assertions_pass, requires_full_window,
}

pub record Plan : Type 0 where
  pub control : String
  pub window : ℕ
  pub assertions : List Assertion

pub record Options : Type 0 where
  pub observation_window : ℕ
  pub stabilization : ℕ
  pub pipeline_mode : String
  pub checkpoint : Bool

-- One round: the reading, the clock after it, the second reading after the stabilization, and whether the
-- two sleeps are cut off by the context. A reading that fails is `none`.
pub record Poll : Type 0 where
  pub reading : Option Snapshot
  pub now : ℕ
  pub stable : Option Snapshot
  pub stabilization_cut : Bool
  pub sleep_cut : Bool

pub record CaseResult : Type 0 where
  pub verdict : Verdict
  pub snapshot : Snapshot
  pub results : List AssertionResult

-- `violation` and `episodeGap`.
pub record Marks : Type 0 where
  pub violation : Option Snapshot
  pub gap : Option Snapshot

abbrev pub no_marks : Marks
no_marks = record { violation = none; gap = none }

abbrev pub Outcome : Type 0
Outcome = Result RunnerError CaseResult

abbrev pub window_of : Options → Plan → ℕ
window_of o p =
    let window =
      if not o.checkpoint && ltb 0 o.observation_window then o.observation_window else p.window in
    if window == 0 then 35000000000 else window

abbrev pub shadow_of : Options → Bool
shadow_of o = not (str_eq o.pipeline_mode "phase_b_dispatch")

abbrev pub full_window : Options → Plan → Bool
full_window o p =
    o.checkpoint || str_eq p.control "downstream-unmatched" || requires_full_window p.assertions

abbrev pub is_gap : AssertionResult → Bool
is_gap r =
    str_eq r.kind "source-episode-state-count" && (r.expected == 0) && verdict_is inconclusive r

abbrev pub is_violation : Bool → AssertionResult → Bool
is_violation checkpoint r =
    (checkpoint || str_eq r.kind "source-episode-state-count")
    && (r.expected == 0)
    && verdict_is fail r

abbrev pub keep_first : Option Snapshot → Bool → Snapshot → Option Snapshot
keep_first (some s) found new = some s
keep_first none found new = if found then some new else none

unfoldable pub mark : Options → Plan → Snapshot → List AssertionResult → Marks → Marks
mark o p s results m =
    if full_window o p
    then record {
      violation = keep_first m.violation (any (is_violation o.checkpoint) results) s;
      gap = keep_first m.gap (any is_gap results) s;
    }
    else m

abbrev pub read : Option Snapshot → Result RunnerError Snapshot
read none = err read_failed
read (some s) = ok s

abbrev pub with_verdict : Verdict → Snapshot → List AssertionResult → CaseResult
with_verdict v s results = record { verdict = v; snapshot = s; results = results }

-- What `evaluateAssertions` gives where its error is ignored.
abbrev pub results_or : Result RunnerError (List AssertionResult) → List AssertionResult
results_or (ok rs) = rs
results_or (err e) = []

abbrev pub settled : Options → Snapshot → List AssertionResult → CaseResult
settled o last results =
    if not last.source_ready || not last.audit_ready
    then with_verdict inconclusive last results
    else if any (verdict_is inconclusive) results
    then with_verdict inconclusive last results
    else if o.checkpoint && any (verdict_is skipped) results
    then with_verdict inconclusive last results
    else if assertions_pass results
    then with_verdict pass last results
    else with_verdict fail last results

-- After the deadline.
unfoldable pub conclude : Options → Plan → Marks → Snapshot → Outcome
unfolding evaluate_assertions assertions_pass
conclude o p m last = do
  results ← evaluate_assertions p.assertions last (shadow_of o)
  ok (elim m.violation [
    | some s ↦ with_verdict fail s (results_or (evaluate_assertions p.assertions s (shadow_of o)))
    | none ↦ elim m.gap [
      | some s ↦
          with_verdict inconclusive s
            (results_or (evaluate_assertions p.assertions s (shadow_of o)))
      | none ↦ settled o last results
    ]
  ])

-- The reading after the stabilization: a result, or the snapshot to go on with.
unfoldable pub stabilize : Options → Plan → Poll → Result RunnerError (Option CaseResult × Snapshot)
unfolding evaluate_assertions assertions_pass
stabilize o p poll = do
  refuse_if poll.stabilization_cut sleep_failed
  s ← read poll.stable
  results ← evaluate_assertions p.assertions s (shadow_of o)
  ok (if assertions_pass results then some (with_verdict pass s results) else none, s)

abbrev pub ready_to_stop : Options → Plan → Snapshot → List AssertionResult → Bool
ready_to_stop o p s results =
    not (full_window o p) && s.source_ready && s.audit_ready && assertions_pass results

-- The early part of a round: a result, or the last snapshot. Without a stabilization there is none.
abbrev pub attempt :
    Options
    → Plan
    → Poll
    → Snapshot
    → List AssertionResult
    → Result RunnerError (Option CaseResult × Snapshot)
attempt o p poll s results =
    if ready_to_stop o p s results && ltb 0 o.stabilization
    then stabilize o p poll
    else ok (none, s)

-- A round up to the test of the deadline: it ends the observation, or goes on with its marks and the last
-- snapshot.
pub data Step : Type 0 where
  stop : Outcome → Step
  go : Marks → Snapshot → Step

abbrev pub after_attempt : Marks → Result RunnerError (Option CaseResult × Snapshot) → Step
after_attempt m (err e) = stop (err e)
after_attempt m (ok (some result, last)) = stop (ok result)
after_attempt m (ok (none, last)) = go m last

abbrev pub after_results :
    Options → Plan → Marks → Poll → Snapshot → Result RunnerError (List AssertionResult) → Step
after_results o p m poll s (err e) = stop (err e)
after_results o p m poll s (ok results) =
    after_attempt (mark o p s results m) (attempt o p poll s results)

abbrev pub after_reading : Options → Plan → Marks → Poll → Option Snapshot → Step
after_reading o p m poll none = stop (err read_failed)
after_reading o p m poll (some s) =
    after_results o p m poll s (evaluate_assertions p.assertions s (shadow_of o))

unfoldable pub round : Options → Plan → Marks → Poll → Step
unfolding mark stabilize evaluate_assertions
round o p m poll = after_reading o p m poll poll.reading

-- The loop over the polls that the world gives; it has no result where they end before the deadline.
unfoldable pub observe_loop : Options → Plan → ℕ → Marks → List Poll → Option Outcome
unfolding round conclude
observe_loop o p deadline m [] = none
observe_loop o p deadline m (poll ∷ polls) = elim (round o p m poll) [
  | stop r ↦ some r
  | go next last ↦
      let later = observe_loop o p deadline next polls in
      if leb deadline poll.now
      then some (conclude o p next last)
      else if poll.sleep_cut
      then some (err sleep_failed)
      else later
]

-- `injectedAt`, or the time of the start where it is zero.
abbrev pub deadline_of : Options → Plan → Option ℕ → ℕ → ℕ
deadline_of o p none start = start + window_of o p
deadline_of o p (some injected) start = injected + window_of o p

unfoldable pub observe : Options → Plan → Option ℕ → ℕ → List Poll → Option Outcome
unfolding observe_loop
observe o p injected start polls = observe_loop o p (deadline_of o p injected start) no_marks polls

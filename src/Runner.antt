-- ===== src/Runner.antt =====
-- internal/runner/assertions.go: the assertions of a case against what was observed. The texts of
-- explanations are left out.
pub mod Scoring
pub mod Observe
pub mod Cleanup
pub mod Window
pub mod Violations
pub mod Passing
use oscar_corrtest.Base.{
  ℕ, zero, suc, ◌+◌, String, Bool, true, false, ◌&&◌, ◌||◌, not, List, [], ◌∷◌, ◌==◌, str_eq,
  if◌then◌else◌, any, length, tally, Result, ok, err, ◌>>=◌,
}
use oscar_corrtest.Run.{
  same_verdict, Verdict, pass, fail, inconclusive, error, skipped, unset, other_verdict,
}
use oscar_corrtest.Scenario.{Assertion}

-- What the code reads of the records: the status of a source episode, the outcome of an audit, and the
-- fingerprints of the synthetic alerts.
pub record Snapshot : Type 0 where
  pub no_match_count : ℕ
  pub no_match_ready : Bool
  pub source_episodes : List String
  pub source_episodes_ready : Bool
  pub parents : List String
  pub audits : List String
  pub source_ready : Bool
  pub audit_ready : Bool

pub record AssertionResult : Type 0 where
  pub kind : String
  pub outcome : String
  pub expected : ℕ
  pub observed : ℕ
  pub verdict : Verdict

pub data RunnerError : Type 0 where
  unsupported_kind : String → RunnerError
  read_failed sleep_failed : RunnerError

abbrev pub verdict_is : Verdict → AssertionResult → Bool
verdict_is v r = same_verdict v r.verdict

unfoldable pub scored_result : Assertion → ℕ → AssertionResult
scored_result a observed = record {
  kind = a.kind;
  outcome = a.outcome;
  expected = a.equals;
  observed = observed;
  verdict = if observed == a.equals then pass else fail;
}

abbrev unproven_result : Assertion → String → AssertionResult
unproven_result a outcome = record {
  kind = a.kind;
  outcome = outcome;
  expected = a.equals;
  observed = 0;
  verdict = inconclusive;
}

abbrev skipped_result : Assertion → Snapshot → AssertionResult
skipped_result a s = record {
  kind = a.kind;
  outcome = "";
  expected = a.equals;
  observed = length s.parents;
  verdict = skipped;
}

-- One round of the loop, for an assertion that is not skipped.
unfoldable pub evaluate_scored : Snapshot → Assertion → Result RunnerError AssertionResult
unfolding scored_result
evaluate_scored s a =
    if str_eq a.kind "downstream-no-match-count"
    then ok (if s.no_match_ready then scored_result a s.no_match_count else unproven_result a "")
    else if str_eq a.kind "source-episode-state-count"
    then ok (
        if s.source_episodes_ready
        then scored_result a (tally (λ e. str_eq e a.outcome) s.source_episodes)
        else unproven_result a a.outcome)
    else if str_eq a.kind "synthetic-alert-count"
    then ok (scored_result a (length s.parents))
    else if str_eq a.kind "audit-count" || str_eq a.kind "parent-link-count"
    then ok (scored_result a (tally (λ o. str_eq o a.outcome) s.audits))
    else err (unsupported_kind a.kind)

unfoldable pub evaluate : Snapshot → Bool → Assertion → Result RunnerError AssertionResult
unfolding evaluate_scored
evaluate s shadow a =
    if shadow && str_eq a.kind "synthetic-alert-count"
    then ok (skipped_result a s)
    else evaluate_scored s a

unfoldable pub evaluate_assertions :
    List Assertion → Snapshot → Bool → Result RunnerError (List AssertionResult)
unfolding evaluate
evaluate_assertions [] s shadow = ok []
evaluate_assertions (a ∷ more) s shadow = do
  r ← evaluate s shadow a
  rs ← evaluate_assertions more s shadow
  ok (r ∷ rs)

-- The loop of `assertionsPass`, with the number of results that it has scored.
unfoldable pub pass_loop : ℕ → List AssertionResult → Bool
pass_loop n [] = not (n == 0)
pass_loop n (r ∷ rs) =
    let skips = pass_loop n rs in
    let counts = pass_loop (suc n) rs in
    if verdict_is skipped r then skips else if not (verdict_is pass r) then false else counts

unfoldable pub assertions_pass : List AssertionResult → Bool
unfolding pass_loop
assertions_pass [] = false
assertions_pass (r ∷ rs) = pass_loop 0 (r ∷ rs)

unfoldable pub requires_full_window : List Assertion → Bool
requires_full_window more = any (λ a. a.equals == 0) more

-- The verdict over the cases, in `Execute`: a failure or an error decides it, and ends the loop.
unfoldable pub overall : Verdict → List Verdict → Verdict
overall so_far [] = so_far
overall so_far (v ∷ vs) =
    let same = overall so_far vs in
    let doubtful = overall inconclusive vs in
    if same_verdict fail v || same_verdict error v
    then fail
    else if same_verdict inconclusive v || same_verdict skipped v
    then doubtful
    else same

abbrev pub run_verdict : List Verdict → Verdict
run_verdict vs = overall pass vs

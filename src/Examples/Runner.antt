-- ===== src/Examples/Runner.antt =====
-- internal/runner: observations of a case that expects no audit of an outcome, and of one that expects one.
use oscar_corrtest.Base.{ℕ, ◌≡◌, refl, List, [], ◌∷◌, some, true, false, ok, any, all}
use oscar_corrtest.Run.{pass, fail}
use oscar_corrtest.Scenario.{Assertion}
use oscar_corrtest.Run.{same_verdict}
use oscar_corrtest.Runner.{
  Snapshot, AssertionResult, scored_result, evaluate, evaluate_scored, evaluate_assertions,
  pass_loop, assertions_pass, requires_full_window, verdict_is,
}
use oscar_corrtest.Runner.Scoring.{is_fine}
use oscar_corrtest.Runner.Observe.{
  Plan, Options, Poll, Outcome, observe, observe_loop, round, mark, conclude, stabilize, shadow_of,
  deadline_of, with_verdict,
}
use oscar_corrtest.Runner.Window.{at_deadline, observe_ends, observe-full_window}
use oscar_corrtest.Runner.Passing.{WasRead, observe_pass}
use oscar_corrtest.Runner.Violations.{checkpoint_violation_fails}

abbrev quiet : Snapshot
quiet = record {
  no_match_count = 0;
  no_match_ready = false;
  source_episodes = [];
  source_episodes_ready = false;
  parents = [];
  audits = [];
  source_ready = true;
  audit_ready = true;
}

abbrev loud : Snapshot
loud = record quiet { audits = "emitted" ∷ [] }

abbrev none_emitted : Assertion
none_emitted = record { kind = "audit-count"; outcome = "emitted"; equals = 0 }

abbrev one_emitted : Assertion
one_emitted = record { kind = "audit-count"; outcome = "emitted"; equals = 1 }

abbrev at_checkpoint : Options
at_checkpoint = record {
  observation_window = 0;
  stabilization = 0;
  pipeline_mode = "phase_b_dispatch";
  checkpoint = true;
}

abbrev in_case : Options
in_case = record {
  observation_window = 0;
  stabilization = 5;
  pipeline_mode = "phase_b_dispatch";
  checkpoint = false;
}

abbrev silent : Plan
silent = record { control = ""; window = 10; assertions = none_emitted ∷ [] }

abbrev emitting : Plan
emitting = record { control = ""; window = 10; assertions = one_emitted ∷ [] }

abbrev poll : Snapshot → ℕ → Poll
poll s now = record {
  reading = some s;
  now = now;
  stable = some s;
  stabilization_cut = false;
  sleep_cut = false;
}

abbrev polls : List Poll
polls = poll quiet 3 ∷ poll loud 6 ∷ poll quiet 12 ∷ []

abbrev loud_results : List AssertionResult
loud_results =
    record { kind = "audit-count"; outcome = "emitted"; expected = 0; observed = 1; verdict = fail }
    ∷ []

abbrev emitted_results : List AssertionResult
emitted_results =
    record { kind = "audit-count"; outcome = "emitted"; expected = 1; observed = 1; verdict = pass }
    ∷ []

loud_evaluated :
    evaluate_assertions silent.assertions loud (shadow_of at_checkpoint) ≡ ok loud_results
unfolding evaluate_assertions evaluate evaluate_scored scored_result
loud_evaluated = refl

checked :
    observe at_checkpoint silent (some 0) 0 polls ≡ some (ok (with_verdict fail loud loud_results))
unfolding observe observe_loop round mark conclude evaluate_assertions evaluate evaluate_scored
    scored_result same_verdict requires_full_window
checked = refl

checkpoint_violation_fails_example : fail ≡ fail
checkpoint_violation_fails_example =
    checkpoint_violation_fails at_checkpoint silent (some 0) 0 (poll quiet 3 ∷ []) (poll loud 6)
      (poll quiet 12 ∷ []) loud loud_results refl refl refl loud_evaluated
      (unfold same_verdict in refl) checked

observe-full_window_example :
    any (at_deadline (deadline_of at_checkpoint silent (some 0) 0)) polls ≡ true
observe-full_window_example = observe-full_window at_checkpoint silent (some 0) 0 polls refl checked

observe_ends_example : (r : Outcome) × (observe at_checkpoint silent (some 0) 0 polls ≡ some r)
observe_ends_example = observe_ends at_checkpoint silent (some 0) 0 polls refl

passed :
    observe in_case emitting (some 0) 0 (poll quiet 3 ∷ poll loud 6 ∷ [])
    ≡ some (ok (with_verdict pass loud emitted_results))
unfolding observe observe_loop round mark conclude stabilize evaluate_assertions evaluate
    evaluate_scored scored_result same_verdict requires_full_window assertions_pass pass_loop
passed = refl

observe_pass_example :
    WasRead loud (poll quiet 3 ∷ poll loud 6 ∷ [])
    × (evaluate_assertions emitting.assertions loud (shadow_of in_case) ≡ ok emitted_results)
    × (all is_fine emitted_results ≡ true)
    × (any (verdict_is pass) emitted_results ≡ true)
observe_pass_example =
    observe_pass in_case emitting (some 0) 0 (poll quiet 3 ∷ poll loud 6 ∷ []) passed refl

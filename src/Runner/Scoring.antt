-- ===== src/Runner/Scoring.antt =====
-- internal/runner/assertions.go, runner.go: what a pass means, for assertions and for the cases of a run.
use oscar_corrtest.Base.{
  ℕ, suc, ◌≡◌, refl, ◌↔◌, Bool, true, false, ◌&&◌, ◌||◌, not, List, [], ◌∷◌, ◌==◌, str_eq,
  if◌then◌else◌, any, all, ok, >>=-eq-ok, arith, Bool-cases, inl, inr, ok-injective, and-eq-true,
}
use mathlib.Core.Path.{subst}
use oscar_corrtest.Run.{Verdict, pass, fail, inconclusive, error, skipped}
use oscar_corrtest.Scenario.{Assertion}
use oscar_corrtest.Run.{same_verdict}
use oscar_corrtest.Runner.{
  Snapshot, AssertionResult, verdict_is, evaluate, evaluate_assertions, pass_loop, assertions_pass,
  overall, run_verdict,
}

abbrev pub is_fine : AssertionResult → Bool
is_fine r = verdict_is skipped r || verdict_is pass r

pass_loop_lem :
    (n : ℕ) (rs : List AssertionResult)
    → pass_loop n rs ≡ (all is_fine rs && (not (n == 0) || any (verdict_is pass) rs))
unfolding pass_loop same_verdict
pass_loop_lem n [] = ground arith
pass_loop_lem n (r ∷ rs) = ground (arith, pass_loop_lem n rs, pass_loop_lem (suc n) rs)

assertions_pass_parts :
    (rs : List AssertionResult) → assertions_pass rs ≡ (all is_fine rs && any (verdict_is pass) rs)
unfolding assertions_pass
assertions_pass_parts [] = refl
assertions_pass_parts (r ∷ rs) = pass_loop_lem 0 (r ∷ rs)

-- Assertion results pass exactly if every one of them passes or is skipped, and one passes.
pub assertions_pass_iff :
    (rs : List AssertionResult)
    → (assertions_pass rs ≡ true) ↔ ((all is_fine rs ≡ true) × (any (verdict_is pass) rs ≡ true))
assertions_pass_iff rs = (
  λ h. and-eq-true (all is_fine rs) (any (verdict_is pass) rs) (rw (assertions_pass_parts rs) at h),
  λ (p, q). rw (assertions_pass_parts rs, p, q) refl,
)

abbrev pub is_synthetic : Assertion → Bool
is_synthetic a = str_eq a.kind "synthetic-alert-count"

nothing_scored :
    (more : List Assertion) (s : Snapshot) {rs : List AssertionResult}
    → all is_synthetic more ≡ true
    → evaluate_assertions more s true ≡ ok rs
    → any (verdict_is pass) rs ≡ false
unfolding evaluate_assertions evaluate same_verdict
nothing_scored [] s h k = subst (λ x. any (verdict_is pass) x ≡ false) (ok-injective k) refl
nothing_scored (a ∷ more) s h k =
    let (synthetic, h1) = and-eq-true (is_synthetic a) (all is_synthetic more) h in
    let (rest, done, k1) = >>=-eq-ok (evaluate_assertions more s true) _ (rw synthetic at k) in
    subst (λ x. any (verdict_is pass) x ≡ false) (ok-injective k1) (nothing_scored more s h1 done)

-- In shadow, assertions that only count synthetic alerts never pass.
pub shadow_never_passes :
    (more : List Assertion) (s : Snapshot) {rs : List AssertionResult}
    → all is_synthetic more ≡ true
    → evaluate_assertions more s true ≡ ok rs
    → assertions_pass rs ≡ false
shadow_never_passes more s {rs} h k =
    rw assertions_pass_parts (ground (arith, nothing_scored more s h k))

abbrev pub sinks : Verdict → Bool
sinks v = same_verdict fail v || same_verdict error v

abbrev pub doubts : Verdict → Bool
doubts v = same_verdict inconclusive v || same_verdict skipped v

overall_fail :
    (so_far : Verdict) (vs : List Verdict) → any sinks vs ≡ true → overall so_far vs ≡ fail
unfolding overall
overall_fail so_far [] h = cc
overall_fail so_far (v ∷ vs) h =
    ground (arith, overall_fail so_far vs, overall_fail inconclusive vs)

overall_doubtful :
    (vs : List Verdict) → any sinks vs ≡ false → overall inconclusive vs ≡ inconclusive
unfolding overall
overall_doubtful [] h = refl
overall_doubtful (v ∷ vs) h = ground (arith, overall_doubtful vs)

overall_else :
    (vs : List Verdict)
    → any sinks vs ≡ false
    → overall pass vs ≡ (if any doubts vs then inconclusive else pass)
unfolding overall
overall_else [] h = refl
overall_else (v ∷ vs) h = ground (arith, overall_else vs, overall_doubtful vs)

-- The verdict of a run: fail if a case failed or had an error, wherever it stands; else inconclusive if
-- a case was inconclusive or skipped; else pass.
pub run_verdict_lem :
    (vs : List Verdict)
    → run_verdict vs ≡ (if any sinks vs then fail else if any doubts vs then inconclusive else pass)
run_verdict_lem vs = elim (Bool-cases (any sinks vs)) [
  | inl sunk ↦ rw sunk (overall_fail pass vs sunk)
  | inr afloat ↦ rw afloat (overall_else vs afloat)
]

-- ===== src/Scenario/Validate/Meaning.antt =====
-- internal/scenario/decode.go, semantics.go: what the acceptance of a scenario says of its cases.
use oscar_corrtest.Base.{
  ℕ, ◌≤◌, ◌≡◌, String, Bool, false, not, List, map, str_eq, length, ok, arith, eq_iff,
}
use mathlib.Core.List.{Memᴰ}
use mathlib.Core.Path.{subst}
use oscar_corrtest.Base.Assoc.{set_of}
use oscar_corrtest.Scenario.{Case, Scenario}
use oscar_corrtest.Scenario.Semantics.Expand.{SemanticEvent, expand}
use oscar_corrtest.Scenario.Semantics.Check.{
  required_roles, validate_case, check_flood, expect, scored,
}
use oscar_corrtest.Scenario.Semantics.Windows.{flood_reaches, threshold_reaches}
use oscar_corrtest.Scenario.Semantics.Ordered.{has_gap}
use oscar_corrtest.Scenario.Semantics.Silence.{Silence, times, absence_iff}
use oscar_corrtest.Scenario.Semantics.Spec.{IsSorted, fired}
use oscar_corrtest.Scenario.Semantics.Reach.{flood_iff, threshold_iff, devices}
use oscar_corrtest.Scenario.Validate.{validate}
use oscar_corrtest.Scenario.Validate.Accepted.{accepted_case}
use oscar_corrtest.Scenario.Validate.Order.{expand-IsSorted}

-- Five distinct identities fire in one group within the case's window.
abbrev pub Floods : Case → Type 0
Floods c =
    (k : String) × (t : ℕ) × (5
      ≤ length (set_of (map (λ e. e.identity) (fired k t c.window (expand c)))))

-- Three distinct devices fire in one group within the case's window.
abbrev pub CrossesThreshold : Case → Type 0
CrossesThreshold c =
    (k : String) × (t : ℕ) × (3 ≤ length (set_of (devices (fired k t c.window (expand c)))))

-- Some group is silent for thirty seconds after a firing, in the case's time.
abbrev pub FallsSilent : Case → Type 0
FallsSilent c = (k : String) × Silence (times k (expand c))

expect_positive :
    (c : Case) (missed hit : Bool) → expect c missed hit ≡ ok tt → c.code ≡ "P01" → missed ≡ false
unfolding expect
expect_positive c missed hit h e = ground (arith, eq_iff c.code "P01")

expect_negative :
    (c : Case) (missed hit : Bool) → expect c missed hit ≡ ok tt → c.code ≡ "N01" → hit ≡ false
unfolding expect
expect_negative c missed hit h e = ground (arith, eq_iff c.code "N01")

flood_check :
    (required : List String) (c : Case) (es : List SemanticEvent)
    → validate_case "flood" required c es ≡ ok tt
    → check_flood c es ≡ ok tt
unfolding validate_case
flood_check required c es h = ground arith

threshold_check :
    (required : List String) (c : Case) (es : List SemanticEvent)
    → validate_case "threshold" required c es ≡ ok tt
    → scored c (threshold_reaches c.window es) ≡ ok tt
unfolding validate_case
threshold_check required c es h = ground arith

absence_check :
    (required : List String) (c : Case) (es : List SemanticEvent)
    → validate_case "absence" required c es ≡ ok tt
    → scored c (has_gap es) ≡ ok tt
unfolding validate_case
absence_check required c es h = ground arith

flood_flag :
    (c : Case) (es : List SemanticEvent)
    → check_flood c es ≡ ok tt
    → str_eq c.control "downstream-unmatched" ≡ false
    → expect c (not (flood_reaches c.window es)) (flood_reaches c.window es) ≡ ok tt
unfolding check_flood
flood_flag c es h e = ground arith

module _ (d : Scenario) (c : Case) (accepted : validate d ≡ ok tt) (among : Memᴰ c d.cases) where
  sorted : IsSorted (expand c)
  sorted = expand-IsSorted d.max_duration c (accepted_case d c accepted among).0

  checked_as :
      {pattern : String}
      → d.pattern ≡ pattern
      → validate_case pattern (required_roles d) c (expand c) ≡ ok tt
  checked_as same =
      subst (λ p. validate_case p (required_roles d) c (expand c) ≡ ok tt) same
        (accepted_case d c accepted among).1

  -- The positive case of an accepted flood scenario fires at least five distinct identities in one
  -- group within its window, unless it is a downstream control.
  pub flood_positive :
      d.pattern ≡ "flood"
      → str_eq c.control "downstream-unmatched" ≡ false
      → c.code ≡ "P01"
      → Floods c
  flood_positive pattern plain code =
      let checked = checked_as pattern in
      let flag =
        flood_flag c (expand c) (flood_check (required_roles d) c (expand c) checked) plain in
      let missed =
        expect_positive c (not (flood_reaches c.window (expand c)))
          (flood_reaches c.window (expand c)) flag code in
      (flood_iff c.window (expand c) sorted).0 (ground arith)

  -- The negative case of an accepted flood scenario that is no downstream control nowhere fires five
  -- distinct identities in one group within its window.
  pub flood_negative :
      d.pattern ≡ "flood"
      → str_eq c.control "downstream-unmatched" ≡ false
      → c.code ≡ "N01"
      → ¬ Floods c
  flood_negative pattern plain code floods =
      let checked = checked_as pattern in
      let flag =
        flood_flag c (expand c) (flood_check (required_roles d) c (expand c) checked) plain in
      let hit =
        expect_negative c (not (flood_reaches c.window (expand c)))
          (flood_reaches c.window (expand c)) flag code in
      let reached = (flood_iff c.window (expand c) sorted).1 floods in absurd (ground arith)

  -- The positive case of an accepted threshold scenario fires for three distinct devices in one group
  -- within its window.
  pub threshold_positive : d.pattern ≡ "threshold" → c.code ≡ "P01" → CrossesThreshold c
  threshold_positive pattern code =
      let checked = checked_as pattern in
      let flag = threshold_check (required_roles d) c (expand c) checked in
      let missed =
        expect_positive c (not (threshold_reaches c.window (expand c)))
          (threshold_reaches c.window (expand c)) flag code in
      (threshold_iff c.window (expand c) sorted).0 (ground arith)

  -- The positive case of an accepted absence scenario has a group that fires and is then silent for
  -- thirty seconds, before the horizon or before its next firing.
  pub absence_positive : d.pattern ≡ "absence" → c.code ≡ "P01" → FallsSilent c
  absence_positive pattern code =
      let checked = checked_as pattern in
      let flag = absence_check (required_roles d) c (expand c) checked in
      let missed = expect_positive c (not (has_gap (expand c))) (has_gap (expand c)) flag code in
      (absence_iff (expand c) sorted).0 (ground arith)

  -- The negative case of an accepted absence scenario has no such group.
  pub absence_negative : d.pattern ≡ "absence" → c.code ≡ "N01" → ¬ FallsSilent c
  absence_negative pattern code silent =
      let checked = checked_as pattern in
      let flag = absence_check (required_roles d) c (expand c) checked in
      let hit = expect_negative c (not (has_gap (expand c))) (has_gap (expand c)) flag code in
      let found = (absence_iff (expand c) sorted).1 silent in absurd (ground arith)

-- ===== src/Scenario/Semantics/Silence.antt =====
-- internal/scenario/semantics.go: the absence pattern, a group that is silent for thirty seconds.
use oscar_corrtest.Base.{
  ℕ, ◌+◌, ◌-◌, ◌*◌, ◌≤◌, ◌≡◌, refl, sym, ap, ◌∙◌, ◌↔◌, inl, inr, String, Bool, true, false, ◌&&◌,
  ◌||◌, List, [], ◌∷◌, ◌==◌, leb, any, all, keep, map, All, arith, or-eq-true,
}
use oscar_corrtest.Scenario.{second}
use oscar_corrtest.Scenario.Semantics.Expand.{SemanticEvent, chronological}
use oscar_corrtest.Scenario.Semantics.Groups.{any_group_iff, group_at-collect}
use oscar_corrtest.Scenario.Semantics.Ordered.{gap_in, has_gap}
use oscar_corrtest.Scenario.Semantics.Spec.{
  IsSorted, in_group, keep-IsSorted, chronological_of_IsSorted,
}
use oscar_corrtest.Scenario.Semantics.Windows.{any_group, collect, group_at}

-- A time of the list after which nothing happens for thirty seconds, though the list or the horizon of
-- 55 seconds goes on that long.
abbrev pub is_time : ℕ → List ℕ → Bool
is_time t ts = any (λ u. u == t) ts

abbrev pub silent_after : ℕ → List ℕ → Bool
silent_after t ts = all (λ u. leb u t || leb (t + 30 * second) u) ts

abbrev pub watched_after : ℕ → List ℕ → Bool
watched_after t ts = leb (t + 30 * second) (55 * second) || any (λ u. leb (t + 30 * second) u) ts

abbrev pub Silence : List ℕ → Type 0
Silence ts =
    (t : ℕ) × (is_time t ts ≡ true) × (silent_after t ts ≡ true) × (watched_after t ts ≡ true)

abbrev pub from_on : ℕ → List ℕ → Bool
from_on t ts = all (λ u. leb t u) ts

abbrev pub is_ascending : List ℕ → Bool
is_ascending [] = true
is_ascending (t ∷ ts) = from_on t ts && is_ascending ts

member_from : (t u : ℕ) (ts : List ℕ) → from_on t ts ≡ true → is_time u ts ≡ true → leb t u ≡ true
member_from t u [] h k = cc
member_from t u (x ∷ ts) h k = ground (arith, member_from t u ts)

silent_from :
    (t u : ℕ) (ts : List ℕ)
    → from_on u ts ≡ true
    → leb (t + 30 * second) u ≡ true
    → silent_after t ts ≡ true
silent_from t u [] h k = refl
silent_from t u (x ∷ ts) h k = ground (arith, silent_from t u ts)

gap_in-Silence : (ts : List ℕ) → is_ascending ts ≡ true → gap_in ts ≡ true → Silence ts
unfolding gap_in
gap_in-Silence [] h k = cc
gap_in-Silence (t ∷ []) h k = (t, ground arith, ground arith, ground arith)
gap_in-Silence (t ∷ u ∷ ts) h k =
    elim (or-eq-true (leb (30 * second) (u - t)) (gap_in (u ∷ ts)) k) [
      | inl now ↦ (t, ground arith, ground (arith, silent_from t u ts), ground arith)
      | inr later ↦
          let (x, here, quiet, watched) = gap_in-Silence (u ∷ ts) (ground arith) later in
          let after : leb t x ≡ true = member_from t x (u ∷ ts) (ground arith) here in
          (x, ground arith, ground arith, ground arith)
    ]

Silence-gap_in :
    (ts : List ℕ) (t : ℕ)
    → is_ascending ts ≡ true
    → is_time t ts ≡ true
    → silent_after t ts ≡ true
    → watched_after t ts ≡ true
    → gap_in ts ≡ true
unfolding gap_in
Silence-gap_in [] t h here quiet watched = cc
Silence-gap_in (x ∷ []) t h here quiet watched = ground arith
Silence-gap_in (x ∷ u ∷ ts) t h here quiet watched =
    ground (arith, Silence-gap_in (u ∷ ts) t, member_from x t (u ∷ ts))

from_on_of_Later :
    (t : ℕ) (es : List SemanticEvent)
    → All (λ x. t ≤ x.at) es
    → from_on t (map (λ e. e.at) es) ≡ true
from_on_of_Later t [] h = refl
from_on_of_Later t (e ∷ es) (p, h) = ground (arith, from_on_of_Later t es h)

ascending_of_IsSorted :
    (es : List SemanticEvent) → IsSorted es → is_ascending (map (λ e. e.at) es) ≡ true
ascending_of_IsSorted [] h = refl
ascending_of_IsSorted (e ∷ es) (l, h) =
    ground (arith, from_on_of_Later e.at es l, ascending_of_IsSorted es h)

-- When a group fires.
abbrev pub times : String → List SemanticEvent → List ℕ
times k es = map (λ e. e.at) (keep (in_group k) es)

-- Where the events are in order of time, the absence scan finds a gap exactly if some group fires at a
-- time after which it does not fire for thirty seconds, and these end by the horizon of 55 seconds or
-- are followed by another firing of the group.
pub absence_iff :
    (es : List SemanticEvent)
    → IsSorted es
    → (has_gap es ≡ true) ↔ ((k : String) × Silence (times k es))
unfolding has_gap gap_in chronological
absence_iff es h = (there, back)
  where
    scan : List SemanticEvent → Bool
    scan g = gap_in (map (λ e. e.at) (chronological g))

    nothing : scan [] ≡ false
    nothing = refl

    ordered : (k : String) → IsSorted (keep (in_group k) es)
    ordered k = keep-IsSorted (in_group k) es h

    scan_group : (k : String) → scan (group_at (collect [] es) k) ≡ gap_in (times k es)
    scan_group k =
        ap scan (group_at-collect [] es k)
        ∙ ap (λ g. gap_in (map (λ e. e.at) g))
            (chronological_of_IsSorted (keep (in_group k) es) (ordered k))

    there : any_group scan (collect [] es) ≡ true → (k : String) × Silence (times k es)
    there p =
        let (k, q) = (any_group_iff scan (collect [] es) nothing).0 p in
        (
          k,
          gap_in-Silence (times k es) (ascending_of_IsSorted (keep (in_group k) es) (ordered k))
              (sym (scan_group k) ∙ q),
        )

    back : ((k : String) × Silence (times k es)) → any_group scan (collect [] es) ≡ true
    back (k, (t, here, quiet, watched)) = (any_group_iff scan (collect [] es) nothing).1 (
      k,
      scan_group k
          ∙ Silence-gap_in (times k es) t (ascending_of_IsSorted (keep (in_group k) es) (ordered k))
              here quiet watched,
    )

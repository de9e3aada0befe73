-- ===== src/Scenario/Semantics/Groups.antt =====
-- internal/scenario/semantics.go: the groups that the window patterns collect, and the scan of all
-- of them.
use oscar_corrtest.Base.{
  ℕ, ◌≡◌, refl, sym, ap, ◌∙◌, ◌↔◌, inl, inr, String, Bool, true, false, List, [], ◌∷◌, ◌++◌, str_eq,
  if◌then◌else◌, any, keep, Bool-cases, or-eq-true, arith, eq_iff,
}
use mathlib.Core.List.{append-nil, append_assoc}
use oscar_corrtest.Base.Assoc.{contains}
use oscar_corrtest.Scenario.Semantics.Expand.{SemanticEvent, is_firing, chronological}
use oscar_corrtest.Scenario.Semantics.Windows.{
  Groups, group_at, insert_group, collect, group_keys, any_group, any_start, any_window,
}
use oscar_corrtest.Scenario.Semantics.Spec.{
  IsSorted, in_range, in_group, fired, keep-IsSorted, chronological_of_IsSorted, any_start_sound,
  any_start_complete,
}

group_at-insert_group :
    (e : SemanticEvent) (gs : Groups) (k : String)
    → group_at (insert_group e gs) k
      ≡ group_at gs k ++ (if str_eq e.group_key k then e ∷ [] else [])
unfolding insert_group
group_at-insert_group e [] k = ground arith
group_at-insert_group e ((j, g) ∷ gs) k = elim (Bool-cases (str_eq j e.group_key)) [
  | inl same ↦ elim (Bool-cases (str_eq j k)) [
    | inl here ↦
        let asked : str_eq e.group_key k ≡ true = rw (← ((eq_iff j e.group_key).0 same)) here in
        rw (same, here, asked) refl
    | inr other ↦
        let unasked : str_eq e.group_key k ≡ false = rw (← ((eq_iff j e.group_key).0 same)) other in
        rw (same, other, unasked) (sym (append-nil (group_at gs k)))
  ]
  | inr new ↦ elim (Bool-cases (str_eq j k)) [
    | inl here ↦
        let unasked : str_eq e.group_key k ≡ false =
          ground (arith, eq_iff j k, eq_iff e.group_key k, eq_iff j e.group_key) in
        rw (new, here, unasked) (sym (append-nil g))
    | inr other ↦ rw (new, other) (group_at-insert_group e gs k)
  ]
]

pub group_at-collect :
    (gs : Groups) (es : List SemanticEvent) (k : String)
    → group_at (collect gs es) k ≡ group_at gs k ++ keep (in_group k) es
unfolding collect
group_at-collect gs [] k = sym (append-nil (group_at gs k))
group_at-collect gs (e ∷ es) k = elim (Bool-cases (is_firing e)) [
  | inl fires ↦ rw fires (
      group_at-collect (insert_group e gs) es k
      ∙ rw (group_at-insert_group e gs k, append_assoc)
          (ap (λ r. group_at gs k ++ r) (ground (arith))))
  | inr quiet ↦ rw quiet (group_at-collect gs es k)
]

group_at_absent :
    (gs : Groups) (k : String) → contains k (group_keys gs) ≡ false → group_at gs k ≡ []
group_at_absent [] k h = refl
group_at_absent ((j, g) ∷ gs) k h = ground (arith, eq_iff j k, eq_iff k j, group_at_absent gs k)

any_contained :
    (f : String → Bool) (ks : List String) (k : String)
    → contains k ks ≡ true
    → f k ≡ true
    → any f ks ≡ true
any_contained f [] k h t = cc
any_contained f (j ∷ ks) k h t = elim (or-eq-true (str_eq k j) (contains k ks) h) [
  | inl same ↦ rw (← ((eq_iff k j).0 same), t)
  | inr more ↦ ground (arith, any_contained f ks k more t)
]

any_found : (f : String → Bool) (ks : List String) → any f ks ≡ true → (k : String) × (f k ≡ true)
any_found f [] h = cc
any_found f (k ∷ ks) h = elim (or-eq-true (f k) (any f ks) h) [
  | inl here ↦ (k, here)
  | inr more ↦ any_found f ks more
]

pub any_group_iff :
    (test : List SemanticEvent → Bool) (gs : Groups)
    → test [] ≡ false
    → (any_group test gs ≡ true) ↔ ((k : String) × (test (group_at gs k) ≡ true))
any_group_iff test gs empty = (any_found (λ k. test (group_at gs k)) (group_keys gs), back)
  where
    back : ((k : String) × (test (group_at gs k) ≡ true)) → any_group test gs ≡ true
    back (k, h) = elim (Bool-cases (contains k (group_keys gs))) [
      | inl there ↦ any_contained (λ j. test (group_at gs j)) (group_keys gs) k there h
      | inr absent ↦ absurd (ground (arith, ap test (group_at_absent gs k absent)))
    ]

module _ (window : ℕ) (test : List SemanticEvent → Bool)
    (front : (x : SemanticEvent) (xs : List SemanticEvent) → test xs ≡ true → test (x ∷ xs) ≡ true)
    (back : (xs : List SemanticEvent) (x : SemanticEvent)
      → test xs ≡ true
      → test (xs ++ x ∷ []) ≡ true)
    (empty : test [] ≡ false) where
  any_start_iff :
      (es : List SemanticEvent)
      → IsSorted es
      → (any_start window test (chronological es) ≡ true)
        ↔ ((t : ℕ) × (test (keep (in_range t window) es) ≡ true))
  any_start_iff es h = rw (chronological_of_IsSorted es h) (
    any_start_sound window test front back es h,
    λ (t, k). any_start_complete window test front back es t empty h k,
  )

  -- The scan of all the windows of all the groups.
  pub any_window_iff :
      (es : List SemanticEvent)
      → IsSorted es
      → (any_window window test es ≡ true)
        ↔ ((k : String) × (t : ℕ) × (test (fired k t window es) ≡ true))
  unfolding any_window
  any_window_iff es h = (there, here)
    where
      scan : List SemanticEvent → Bool
      scan g = any_start window test (chronological g)

      nothing : scan [] ≡ false
      nothing = refl

      group : (k : String) → group_at (collect [] es) k ≡ keep (in_group k) es
      group k = group_at-collect [] es k

      sorted : (k : String) → IsSorted (keep (in_group k) es)
      sorted k = keep-IsSorted (in_group k) es h

      there :
          any_group scan (collect [] es) ≡ true
          → (k : String) × (t : ℕ) × (test (fired k t window es) ≡ true)
      there p =
          let (k, q) = (any_group_iff scan (collect [] es) nothing).0 p in
          let (t, r) = (any_start_iff (keep (in_group k) es) (sorted k)).0 (rw (group k) at q) in
          (k, t, r)

      here :
          ((k : String) × (t : ℕ) × (test (fired k t window es) ≡ true))
          → any_group scan (collect [] es) ≡ true
      here (k, t, r) =
          (any_group_iff scan (collect [] es) nothing).1
            (k, rw (group k) ((any_start_iff (keep (in_group k) es) (sorted k)).1 (t, r)))

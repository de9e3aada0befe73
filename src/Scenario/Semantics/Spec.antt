-- ===== src/Scenario/Semantics/Spec.antt =====
-- internal/scenario/semantics.go: the window scan against an interval of time. A test that more
-- events cannot break passes on a scanned window exactly if it passes on what one group fires in
-- some interval of the window's length.
use oscar_corrtest.Base.{
  ℕ, ◌+◌, ◌-◌, ◌≤◌, ◌≡◌, refl, ap, inl, inr, String, Bool, true, false, ◌&&◌, List, [], ◌∷◌, ◌++◌,
  ltb, leb, str_eq, keep, All, All-map, Bool-cases, or-eq-true, arith,
}
use mathlib.Core.List.{append-nil, append_assoc}
use oscar_corrtest.Scenario.Semantics.Expand.{SemanticEvent, is_firing, insert_at, chronological}
use oscar_corrtest.Scenario.Semantics.Windows.{within, any_start}

abbrev pub Later : SemanticEvent → List SemanticEvent → Type 0
Later e es = All (λ x. e.at ≤ x.at) es

abbrev pub IsSorted : List SemanticEvent → Type 0
IsSorted [] = Unit
IsSorted (e ∷ es) = Later e es × IsSorted es

abbrev pub in_range : ℕ → ℕ → SemanticEvent → Bool
in_range start window e = leb start e.at && leb e.at (start + window)

abbrev pub in_group : String → SemanticEvent → Bool
in_group k e = is_firing e && str_eq e.group_key k

-- What one group fires from a time on for the length of a window.
abbrev pub fired : String → ℕ → ℕ → List SemanticEvent → List SemanticEvent
fired k start window es = keep (in_range start window) (keep (in_group k) es)

All-keep {ℓ κ} :
    {A : Type ℓ} (P : A → Type κ) (p : A → Bool) (xs : List A) → All P xs → All P (keep p xs)
All-keep P p [] h = tt
All-keep P p (x ∷ xs) (q, h) = elim (Bool-cases (p x)) [
  | inl yes_kept ↦ rw yes_kept (q, All-keep P p xs h)
  | inr dropped ↦ rw dropped (All-keep P p xs h)
]

pub keep-IsSorted :
    (p : SemanticEvent → Bool) (es : List SemanticEvent) → IsSorted es → IsSorted (keep p es)
keep-IsSorted p [] h = tt
keep-IsSorted p (e ∷ es) (l, h) = elim (Bool-cases (p e)) [
  | inl kept ↦ rw kept (All-keep (λ x. e.at ≤ x.at) p es l, keep-IsSorted p es h)
  | inr dropped ↦ rw dropped (keep-IsSorted p es h)
]

pub chronological_of_IsSorted : (es : List SemanticEvent) → IsSorted es → chronological es ≡ es
unfolding chronological insert_at
chronological_of_IsSorted [] h = refl
chronological_of_IsSorted (e ∷ []) h = refl
chronological_of_IsSorted (e ∷ x ∷ es) (l, h) =
    rw (chronological_of_IsSorted (x ∷ es) h) (ground arith)

keep_none {ℓ} :
    {A : Type ℓ} (p : A → Bool) (xs : List A) → All (λ x. p x ≡ false) xs → keep p xs ≡ []
keep_none p [] h = refl
keep_none p (x ∷ xs) (q, h) = rw q (keep_none p xs h)

within-keep :
    (window start : ℕ) (es : List SemanticEvent)
    → IsSorted es
    → All (λ x. start ≤ x.at) es
    → within window start es ≡ keep (in_range start window) es
unfolding within
within-keep window start [] h k = refl
within-keep window start (e ∷ es) (l, h) (here, k) = elim (Bool-cases (ltb window (e.at - start))) [
  | inl past ↦
      let gone : keep (in_range start window) es ≡ [] =
        keep_none (in_range start window) es (All-map (λ x le. ground arith) es l) in
      rw (past, gone) (ground arith)
  | inr near ↦
      let inside : in_range start window e ≡ true = ground arith in
      rw (near, inside) (ap (λ r. e ∷ r) (within-keep window start es h k))
]

-- A later start keeps what an earlier one keeps, and then perhaps more.
keep-later :
    (window t u : ℕ) (es : List SemanticEvent)
    → t ≤ u
    → IsSorted es
    → All (λ x. u ≤ x.at) es
    → (zs : List SemanticEvent) × (keep (in_range u window) es ≡ keep (in_range t window) es ++ zs)
keep-later window t u [] le h k = ([], refl)
keep-later window t u (e ∷ es) le (l, h) (here, k) = elim (Bool-cases (in_range t window e)) [
  | inl inside ↦
      let (zs, same) = keep-later window t u es le h k in
      let also : in_range u window e ≡ true = ground arith in
      (zs, rw (also, inside) (ap (λ r. e ∷ r) same))
  | inr outside ↦
      let gone : keep (in_range t window) es ≡ [] =
        keep_none (in_range t window) es (All-map (λ x m. ground arith) es l) in
      (keep (in_range u window) (e ∷ es), rw (outside, gone))
]

module _ (window : ℕ) (test : List SemanticEvent → Bool)
    (front : (x : SemanticEvent) (xs : List SemanticEvent) → test xs ≡ true → test (x ∷ xs) ≡ true)
    (back : (xs : List SemanticEvent) (x : SemanticEvent)
      → test xs ≡ true
      → test (xs ++ x ∷ []) ≡ true) where
  test-append : (xs zs : List SemanticEvent) → test xs ≡ true → test (xs ++ zs) ≡ true
  test-append xs [] h = rw append-nil h
  test-append xs (z ∷ zs) h =
      rw (← append_assoc xs (z ∷ []) zs) (test-append (xs ++ z ∷ []) zs (back xs z h))

  test-keep_cons :
      (p : SemanticEvent → Bool) (e : SemanticEvent) (es : List SemanticEvent)
      → test (keep p es) ≡ true
      → test (keep p (e ∷ es)) ≡ true
  test-keep_cons p e es h = elim (Bool-cases (p e)) [
    | inl kept ↦ rw kept (front e (keep p es) h)
    | inr dropped ↦ rw dropped h
  ]

  pub any_start_sound :
      (es : List SemanticEvent)
      → IsSorted es
      → any_start window test es ≡ true
      → (t : ℕ) × (test (keep (in_range t window) es) ≡ true)
  unfolding any_start
  any_start_sound [] h k = cc
  any_start_sound (e ∷ es) (l, h) k =
      elim (or-eq-true (test (within window e.at (e ∷ es))) (any_start window test es) k) [
        | inl now ↦ (e.at, rw (within-keep window e.at (e ∷ es) (l, h) (omega arith, l)) at now)
        | inr later ↦
            let (t, found) = any_start_sound es h later in
            (t, test-keep_cons (in_range t window) e es found)
      ]

  pub any_start_complete :
      (es : List SemanticEvent) (t : ℕ)
      → test [] ≡ false
      → IsSorted es
      → test (keep (in_range t window) es) ≡ true
      → any_start window test es ≡ true
  unfolding any_start
  any_start_complete [] t none_empty h k = absurd (ground arith)
  any_start_complete (e ∷ es) t none_empty (l, h) k = elim (Bool-cases (leb t e.at)) [
    | inl reached ↦
        let (zs, same) = keep-later window t e.at (e ∷ es) (ground arith) (l, h) (omega arith, l) in
        let scanned : test (within window e.at (e ∷ es)) ≡ true =
          rw (within-keep window e.at (e ∷ es) (l, h) (omega arith, l), same)
            (test-append _ zs k) in
        rw scanned
    | inr early ↦
        let outside : in_range t window e ≡ false = ground arith in
        let found = any_start_complete es t none_empty h (rw outside at k) in ground arith
  ]

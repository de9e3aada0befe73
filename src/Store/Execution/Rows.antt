-- ===== src/Store/Execution/Rows.antt =====
-- internal/persistence/sqlite/execution_repository.go: what an UPDATE does to the rows that tests find.
use oscar_corrtest.Base.{
  ◌≡◌, refl, ap, Bool, true, false, List, [], ◌∷◌, any, keep, tally, Bool-cases, inl, inr, arith,
  ◌||◌, ◌==◌,
}
use oscar_corrtest.Store.Execution.{set_where}

module _ {ℓ} {A : Type ℓ} (p : A → Bool) (f : A → A) where
  -- No row passes the test any more where the update makes each fail it.
  pub none_left :
      ((x : A) → p x ≡ true → p (f x) ≡ false) → (xs : List A) → any p (set_where p f xs) ≡ false
  none_left settles [] = refl
  none_left settles (x ∷ xs) = elim (Bool-cases (p x)) [
    | inl hit ↦ rw (hit, settles x hit) (none_left settles xs)
    | inr miss ↦ rw (miss, miss) (none_left settles xs)
  ]

  module _ (q : A → Bool) where
    -- A test that the update does not change.
    pub any_same : ((x : A) → q (f x) ≡ q x) → (xs : List A) → any q (set_where p f xs) ≡ any q xs
    any_same blind [] = refl
    any_same blind (x ∷ xs) = elim (Bool-cases (p x)) [
      | inl hit ↦ rw (hit, blind x) (ap (λ b. q x || b) (any_same blind xs))
      | inr miss ↦ rw miss (ap (λ b. q x || b) (any_same blind xs))
    ]

    -- No row passes a test that none passed and none passes once it is updated.
    pub none_more :
        ((x : A) → q (f x) ≡ false)
        → (xs : List A) → any q xs ≡ false
        → any q (set_where p f xs) ≡ false
    none_more settles [] h = refl
    none_more settles (x ∷ xs) h =
        let rest = none_more settles xs (ground arith) in
        elim (Bool-cases (p x)) [
          | inl hit ↦ rw (hit, settles x) rest
          | inr miss ↦ rw miss (ground arith)
        ]

    -- A row that the update does not reach stays.
    pub any_stays :
        ((x : A) → q x ≡ true → p x ≡ false)
        → (xs : List A) → any q xs ≡ true
        → any q (set_where p f xs) ≡ true
    any_stays apart [] h = h
    any_stays apart (x ∷ xs) h = elim (Bool-cases (q x)) [
      | inl own ↦ rw (apart x own, own) refl
      | inr other ↦ let rest = any_stays apart xs (rw other at h) in rw rest (ground arith)
    ]

    -- A row that the update reaches passes the test.
    pub any_reached :
        ((x : A) → p x ≡ true → q (f x) ≡ true)
        → (xs : List A) → any p xs ≡ true
        → any q (set_where p f xs) ≡ true
    any_reached hits [] h = h
    any_reached hits (x ∷ xs) h = elim (Bool-cases (p x)) [
      | inl own ↦ rw (own, hits x own) refl
      | inr other ↦ let rest = any_reached hits xs (rw other at h) in rw rest (ground arith)
    ]

    pub keep_same :
        ((x : A) → q x ≡ true → p x ≡ false)
        → ((x : A) → q (f x) ≡ q x)
        → (xs : List A) → keep q (set_where p f xs) ≡ keep q xs
    keep_same apart blind [] = refl
    keep_same apart blind (x ∷ xs) = elim (Bool-cases (q x)) [
      | inl own ↦ rw (apart x own, own) (ap (λ r. x ∷ r) (keep_same apart blind xs))
      | inr other ↦ elim (Bool-cases (p x)) [
        | inl hit ↦ rw (hit, blind x, other) (keep_same apart blind xs)
        | inr miss ↦ rw (miss, other) (keep_same apart blind xs)
      ]
    ]

pub any_of_tally {ℓ} :
    {A : Type ℓ} (p : A → Bool) (xs : List A) → (tally p xs == 1) ≡ true → any p xs ≡ true
any_of_tally p [] h = ground arith
any_of_tally p (x ∷ xs) h = elim (Bool-cases (p x)) [
  | inl own ↦ rw own refl
  | inr other ↦ rw other (any_of_tally p xs (ground arith))
]

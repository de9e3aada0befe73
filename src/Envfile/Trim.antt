-- ===== src/Envfile/Trim.antt =====
-- internal/envfile/store.go: what trimming does to a text, `strings.TrimSpace`.
use oscar_corrtest.Base.{
  ℕ, ◌≡◌, refl, ◌∙◌, Bool, true, false, not, [], ◌∷◌, ◌++◌, all, Bool-cases, inl, inr, arith,
}
use oscar_corrtest.Envfile.Text.{Chars, is_space, trim_left, trim_right, put_back, trim}

-- Behind a character that is no space nothing in front is trimmed.
pub trim_right-append :
    (s : Chars) (c : ℕ) (t : Chars)
    → is_space c ≡ false
    → trim_right (s ++ c ∷ t) ≡ s ++ c ∷ trim_right t
unfolding trim_right
trim_right-append [] c t h = put_back_kept (trim_right t)
  where
    put_back_kept : (u : Chars) → put_back c u ≡ c ∷ u
    put_back_kept [] = rw h refl
    put_back_kept (d ∷ u) = refl
trim_right-append (d ∷ s) c t h = rw (trim_right-append s c t h) (put_back_long s)
  where
    put_back_long : (u : Chars) → put_back d (u ++ c ∷ trim_right t) ≡ d ∷ (u ++ c ∷ trim_right t)
    put_back_long [] = refl
    put_back_long (e ∷ u) = refl

pub trim_left-cons : (c : ℕ) (s : Chars) → is_space c ≡ false → trim_left (c ∷ s) ≡ c ∷ s
unfolding trim_left
trim_left-cons c s h = rw h refl

trim_right_idem : (s : Chars) → trim_right (trim_right s) ≡ trim_right s
unfolding trim_right
trim_right_idem [] = refl
trim_right_idem (c ∷ s) = put_back_idem (trim_right s) (trim_right_idem s)
  where
    put_back_idem : (u : Chars) → trim_right u ≡ u → trim_right (put_back c u) ≡ put_back c u
    put_back_idem [] h = elim (Bool-cases (is_space c)) [
      | inl space ↦ rw space refl
      | inr mark ↦ rw mark (rw mark refl)
    ]
    put_back_idem (d ∷ u) h = rw h refl

trim_left-trim_right : (s : Chars) → trim_left (trim_right s) ≡ trim_right (trim_left s)
unfolding trim_left trim_right
trim_left-trim_right [] = refl
trim_left-trim_right (c ∷ s) = elim (Bool-cases (is_space c)) [
  | inl space ↦ rw space (leading (trim_right s) space ∙ trim_left-trim_right s)
  | inr mark ↦ rw mark (kept (trim_right s) mark)
]
  where
    leading : (u : Chars) → is_space c ≡ true → trim_left (put_back c u) ≡ trim_left u
    leading [] h = rw h refl
    leading (d ∷ u) h = rw h refl

    kept : (u : Chars) → is_space c ≡ false → trim_left (put_back c u) ≡ put_back c u
    kept [] h = rw h (rw h refl)
    kept (d ∷ u) h = rw h refl

-- Trimming the end first changes nothing.
pub trim-trim_right : (s : Chars) → trim (trim_right s) ≡ trim s
unfolding trim
trim-trim_right s = rw (trim_left-trim_right s) (trim_right_idem (trim_left s))

-- What holds of all characters of a text holds of those that trimming leaves.
pub all-trim : (p : ℕ → Bool) (s : Chars) → all p s ≡ true → all p (trim s) ≡ true
unfolding trim
all-trim p s h = all-trim_right p (trim_left s) (all-trim_left p s h)
  where
    put_back_all :
        (q : ℕ → Bool) (c : ℕ) (u : Chars)
        → q c ≡ true
        → all q u ≡ true
        → all q (put_back c u) ≡ true
    put_back_all q c [] h k = ground arith
    put_back_all q c (d ∷ u) h k = ground arith

    all-trim_left : (q : ℕ → Bool) (u : Chars) → all q u ≡ true → all q (trim_left u) ≡ true
    all-trim_left q [] h = refl
    all-trim_left q (c ∷ u) h = ground (arith, all-trim_left q u)

    all-trim_right : (q : ℕ → Bool) (u : Chars) → all q u ≡ true → all q (trim_right u) ≡ true
    all-trim_right q [] h = refl
    all-trim_right q (c ∷ u) h = ground (arith, put_back_all q c (trim_right u), all-trim_right q u)

trim_right_solid : (s : Chars) → all (λ c. not (is_space c)) s ≡ true → trim_right s ≡ s
unfolding trim_right
trim_right_solid [] h = refl
trim_right_solid (c ∷ s) h = rw (trim_right_solid s (ground arith)) (put_back_kept s (ground arith))
  where
    put_back_kept : (u : Chars) → is_space c ≡ false → put_back c u ≡ c ∷ u
    put_back_kept [] k = rw k refl
    put_back_kept (d ∷ u) k = refl

-- A text with no space in it is left as it is.
pub trim_solid : (s : Chars) → all (λ c. not (is_space c)) s ≡ true → trim s ≡ s
unfolding trim trim_left
trim_solid [] h = trim_right_solid [] refl
trim_solid (c ∷ s) h =
    let mark : is_space c ≡ false = ground arith in rw mark (trim_right_solid (c ∷ s) h)

-- ===== src/Rotation/Fits.antt =====
-- internal/applog/rotate.go: the size of the files when the backups are renamed.
use oscar_corrtest.Base.{
  ℕ, zero, suc, ◌≤◌, ◌≡◌, refl, sym, ap, ◌∙◌, Bool, true, false, [], Option, none, length, ltb,
  ◌==◌, inl, inr, Bool-cases, arith,
}
use oscar_corrtest.Rotation.{Bytes, Files, Call, put, content, shift}
use oscar_corrtest.Rotation.Kept.{rename_cases}
use oscar_corrtest.Rotation.History.{put_same}

-- No file is larger than the bound, and beyond the backups the files are those of before.
pub record Fits (b n : ℕ) (before after : Files) : Type 0 where
  pub small : (k : ℕ) → length (content (after k)) ≤ b
  pub beyond : (k : ℕ) → ltb n k ≡ true → after k ≡ before k

module _ (b n : ℕ) (before : Files) where
  pub put-Fits :
      (k : ℕ) (x : Option Bytes) (fs : Files)
      → k ≤ n
      → length (content x) ≤ b
      → Fits b n before fs
      → Fits b n before (put k x fs)
  put-Fits k x fs low short fit = record {
    small = λ m. elim (Bool-cases (m == k)) [
      | inl here ↦ rw here short
      | inr there ↦ rw there (fit.small m)
    ];
    beyond = λ m high.
        let other : (m == k) ≡ false = ground (arith, high, low) in rw other (fit.beyond m high);
  }

  module _ (broken : Call → Bool) where
    pub shift-Fits :
        (k : ℕ) (fs : Files)
        → k ≤ n
        → Fits b n before fs
        → Fits b n before (shift broken k fs).files
    unfolding shift
    shift-Fits zero fs low fit = fit
    shift-Fits (suc k) fs low fit = elim (rename_cases broken k fs) [
      | inl r ↦ rw r fit
      | inr (inl r) ↦ rw r (put-Fits (suc k) none fs low (omega arith) fit)
      | inr (inr (inl (r, _))) ↦ rw r (shift-Fits k fs (omega (arith, low)) fit)
      | inr (inr (inr r)) ↦ rw r (
          shift-Fits k (put k none (put (suc k) (fs k) fs)) (omega (arith, low)) (
            put-Fits k none (put (suc k) (fs k) fs) (omega (arith, low)) (omega arith)
              (put-Fits (suc k) (fs k) fs low (fit.small k) fit)))
    ]

module _ (broken : Call → Bool) where
  pub shift_empties :
      (k : ℕ) (fs : Files)
      → (k ≡ 0 → fs 0 ≡ none)
      → (shift broken k fs).failed ≡ false
      → content ((shift broken k fs).files 0) ≡ []
  unfolding shift
  shift_empties zero fs gone h = ap content (gone refl)
  shift_empties (suc k) fs _ h = elim (rename_cases broken k fs) [
    | inl r ↦ cc (rw r at h)
    | inr (inl r) ↦ cc (rw r at h)
    | inr (inr (inl (r, gone))) ↦ rw r (shift_empties k fs (λ e. ap fs (sym e) ∙ gone) (rw r at h))
    | inr (inr (inr r)) ↦
        let next = put k none (put (suc k) (fs k) fs) in
        rw r (
          shift_empties k next (λ e. ap next (sym e) ∙ put_same k none (put (suc k) (fs k) fs))
            (rw r at h))
  ]

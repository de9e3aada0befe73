-- ===== src/Rotation/History.antt =====
-- internal/applog/rotate.go: the log over its slots, in the order in which it was written.
use mathlib.Core.List.{append_assoc, append-nil}
use oscar_corrtest.Base.{
  ℕ, zero, suc, ◌≡◌, refl, sym, ap, ◌∙◌, true, false, [], ◌++◌, Option, none, some, ltb, ◌==◌, ◌⊎◌,
  inl, inr, arith,
}
use oscar_corrtest.Rotation.{Bytes, Files, put, content, kept_file}

-- The log in the order in which it was written: the oldest backup first.
abbrev pub history : ℕ → Files → Bytes
history zero fs = content (fs 0)
history (suc n) fs = content (fs (suc n)) ++ history n fs

abbrev pub below : ℕ → Files → Bytes
below zero fs = []
below (suc n) fs = history n fs

pub history_top : (n : ℕ) (fs : Files) → history n fs ≡ content (fs n) ++ below n fs
history_top zero fs = sym (append-nil (content (fs 0)))
history_top (suc n) fs = refl

history_above :
    (n k : ℕ) (x : Option Bytes) (fs : Files)
    → ltb n k ≡ true
    → history n (put k x fs) ≡ history n fs
history_above zero k x fs h = let other : (0 == k) ≡ false = ground arith in rw other refl
history_above (suc n) k x fs h =
    let other : (suc n == k) ≡ false = ground arith in
    rw (other, history_above n k x fs (ground arith)) refl

below-put : (n : ℕ) (x : Option Bytes) (fs : Files) → below n (put n x fs) ≡ below n fs
below-put zero x fs = refl
below-put (suc n) x fs = history_above n (suc n) x fs (ground arith)

pub below_above : (n : ℕ) (x : Option Bytes) (fs : Files) → below n (put (suc n) x fs) ≡ below n fs
below_above zero x fs = refl
below_above (suc n) x fs = history_above n (suc (suc n)) x fs (ground arith)

pub put_same : (n : ℕ) (x : Option Bytes) (fs : Files) → put n x fs n ≡ x
put_same n x fs = let same : (n == n) ≡ true = ground arith in rw same refl

pub history-put :
    (n : ℕ) (x : Option Bytes) (fs : Files) → history n (put n x fs) ≡ content x ++ below n fs
history-put n x fs = history_top n (put n x fs) ∙ rw (put_same n x fs, below-put n x fs) refl

pub history_grow :
    (n : ℕ) (x : Option Bytes) (s : Bytes) (fs : Files)
    → content x ≡ content (fs 0) ++ s
    → history n (put 0 x fs) ≡ history n fs ++ s
history_grow zero x s fs h = h
history_grow (suc n) x s fs h =
    let other : (suc n == 0) ≡ false = ground arith in
    rw other (ap (λ rest. content (fs (suc n)) ++ rest) (history_grow n x s fs h))
    ∙ sym (append_assoc (content (fs (suc n))) (history n fs) s)

pub kept_file-content : (x : Option Bytes) → content (kept_file x) ≡ content x
kept_file-content none = refl
kept_file-content (some s) = refl

-- What a step keeps of the log up to slot n: all, or all but what was in the slot.
abbrev pub LosesTop : ℕ → Files → Files → Type 0
LosesTop n before after =
    (lost : Bytes) × ((lost ≡ []) ⊎ (lost ≡ content (before n)))
    × (lost ++ history n after ≡ history n before)

pub loses_nothing :
    (n : ℕ) (before after : Files) → history n after ≡ history n before → LosesTop n before after
loses_nothing n before after h = ([], inl refl, h)

pub empty_top :
    (n : ℕ) (before after : Files)
    → before n ≡ none
    → LosesTop n before after
    → history n after ≡ history n before
empty_top n before after gone (lost, inl nothing, h) = cc (nothing, h)
empty_top n before after gone (lost, inr top, h) =
    let nothing : lost ≡ [] = top ∙ ap content gone in rw nothing at h

-- ===== src/Rotation/Kept.antt =====
-- internal/applog/rotate.go: what a write keeps of the log, whichever calls fail.
use mathlib.Core.List.{append_assoc, append-nil}
use mathlib.Core.Path.{subst}
use oscar_corrtest.Base.{
  ℕ, zero, suc, ◌≡◌, refl, sym, ap, ◌∙◌, Bool, true, false, not, ◌||◌, [], ◌∷◌, ◌++◌, Option, none,
  some, length, ltb, ◌==◌, if◌then◌else◌, ◌⊎◌, inl, inr, Bool-cases, arith, ==_iff,
}
use oscar_corrtest.Rotation.{
  Bytes, Files, Call, Writer, Renamed, Written, put, content, kept_file, take, stat, remove, rename,
  close_file, open_file, stat_file, rename_from, rename_replacing, shift, open_log, with_files,
  removed, shifted, rotate, must_rotate, append, after_rotation, write,
}
use oscar_corrtest.Rotation.History.{
  LosesTop, below, below_above, empty_top, history, history-put, history_grow, history_top,
  kept_file-content, loses_nothing, put_same,
}

abbrev pub renamed : Bool → Files → Renamed
renamed b fs = record { failed = b; files = fs }

-- What a rename from slot n to the next comes to.
abbrev pub RenameCase : ℕ → Files → Renamed → Type 0
RenameCase n fs r =
    (r ≡ renamed true fs)
    ⊎ (r ≡ renamed true (put (suc n) none fs))
    ⊎ ((r ≡ renamed false fs) × (fs n ≡ none))
    ⊎ (r ≡ renamed false (put n none (put (suc n) (fs n) fs)))

module _ (broken : Call → Bool) where
  pub rename_cases : (n : ℕ) (fs : Files) → RenameCase n fs (rename_replacing broken n (suc n) fs)
  unfolding rename_replacing
  rename_cases n fs = elim (Bool-cases (broken (stat n))) [
    | inl unread ↦ inl (rw unread refl)
    | inr read ↦ rw read (look (fs n) refl)
  ]
    where
      look : (x : Option Bytes) → fs n ≡ x → RenameCase n fs (rename_from broken n (suc n) fs x)
      look none h = inr (inr (inl (refl, h)))
      look (some s) h = elim (Bool-cases (broken (remove (suc n)))) [
        | inl stuck ↦ inl (rw stuck refl)
        | inr gone ↦ elim (Bool-cases (broken (rename n (suc n)))) [
          | inl stuck ↦ inr (inl (rw (gone, stuck) refl))
          | inr moved ↦ inr (
              inr (
                inr (
                  rw (gone, moved)
                    (ap (λ x. renamed false (put n none (put (suc n) x fs))) (sym h)))))
        ]
      ]

  shift_above : (n k : ℕ) (fs : Files) → ltb n k ≡ true → (shift broken n fs).files k ≡ fs k
  unfolding shift
  shift_above zero k fs h = refl
  shift_above (suc n) k fs h =
      let higher : (k == suc n) ≡ false = ground arith in
      let high : (k == n) ≡ false = ground arith in
      elim (rename_cases n fs) [
        | inl r ↦ rw r refl
        | inr (inl r) ↦ rw r (rw higher refl)
        | inr (inr (inl (r, _))) ↦ rw r (shift_above n k fs (ground arith))
        | inr (inr (inr r)) ↦ rw r (
            shift_above n k (put n none (put (suc n) (fs n) fs)) (ground arith)
            ∙ rw (high, higher) refl)
      ]

  moved_up :
      (n : ℕ) (fs : Files)
      → ((gs : Files) → LosesTop n gs (shift broken n gs).files)
      → history (suc n) (shift broken n (put n none (put (suc n) (fs n) fs))).files ≡ history n fs
  moved_up n fs keeps =
      let middle = put (suc n) (fs n) fs in
      let next = put n none middle in
      let other : (suc n == n) ≡ false = ground arith in
      let top : (shift broken n next).files (suc n) ≡ fs n =
        shift_above n (suc n) next (ground arith) ∙ rw other (put_same (suc n) (fs n) fs) in
      let rest : history n (shift broken n next).files ≡ below n fs =
        empty_top n next (shift broken n next).files (put_same n none middle) (keeps next)
        ∙ history-put n none middle
        ∙ below_above n (fs n) fs in
      rw (top, rest) (sym (history_top n fs))

  pub shift_keeps : (n : ℕ) (fs : Files) → LosesTop n fs (shift broken n fs).files
  unfolding shift
  shift_keeps zero fs = loses_nothing 0 fs fs refl
  shift_keeps (suc n) fs = elim (rename_cases n fs) [
    | inl r ↦ rw r (loses_nothing (suc n) fs fs refl)
    | inr (inl r) ↦ rw r (
      content (fs (suc n)),
      inr refl,
      ap (λ rest. content (fs (suc n)) ++ rest) (history-put (suc n) none fs),
    )
    | inr (inr (inl (r, gone))) ↦ rw r (
        loses_nothing (suc n) fs (shift broken n fs).files (
          rw
            (
              shift_above n (suc n) fs (ground arith),
              empty_top n fs (shift broken n fs).files gone (shift_keeps n fs),
            )
            refl))
    | inr (inr (inr r)) ↦ rw r (
      content (fs (suc n)),
      inr refl,
      ap (λ rest. content (fs (suc n)) ++ rest) (moved_up n fs (λ gs. shift_keeps n gs)),
    )
  ]

  -- The log after a rotation.
  open_keeps : (n : ℕ) (w : Writer) → history n (open_log broken w).1.files ≡ history n w.files
  unfolding open_log
  open_keeps n w =
      let created : history n (put 0 (kept_file (w.files 0)) w.files) ≡ history n w.files =
        history_grow n (kept_file (w.files 0)) [] w.files
          (kept_file-content (w.files 0) ∙ sym (append-nil (content (w.files 0))))
        ∙ append-nil (history n w.files) in
      elim (Bool-cases (broken open_file)) [
        | inl stuck ↦ rw stuck refl
        | inr opened ↦ elim (Bool-cases (broken stat_file)) [
          | inl stuck ↦ rw (opened, stuck) created
          | inr sized ↦ rw (opened, sized) created
        ]
      ]

  removed_keeps : (w : Writer) (fs : Files) → LosesTop 0 fs (removed broken w fs).1.files
  removed_keeps w fs = elim (Bool-cases (broken (remove 0))) [
    | inl stuck ↦ rw stuck (
        loses_nothing 0 fs (open_log broken (with_files broken fs w)).1.files
          (open_keeps 0 (with_files broken fs w)))
    | inr gone ↦ rw gone (
      content (fs 0),
      inr refl,
      ap (λ rest. content (fs 0) ++ rest)
            (open_keeps 0 (record (with_files broken (put 0 none fs) w) { size = 0 }))
          ∙ append-nil (content (fs 0)),
    )
  ]

  shifted_keeps :
      (n : ℕ) (w : Writer) (r : Renamed)
      → w.backups ≡ n
      → LosesTop n w.files r.files
      → (n ≡ 0 → r.files ≡ w.files)
      → LosesTop n w.files (shifted broken w r).1.files
  shifted_keeps n w r same (lost, how, h) unshifted = elim (Bool-cases r.failed) [
    | inl failed ↦ rw failed (lost, how, rw (open_keeps n (with_files broken r.files w)) h)
    | inr fine ↦ elim (Bool-cases (w.backups == 0)) [
      | inr some_backups ↦
          rw (fine, some_backups)
            (lost, how, rw (open_keeps n (record (with_files broken r.files w) { size = 0 })) h)
      | inl no_backups ↦
          let zero_backups : n ≡ 0 = sym same ∙ (==_iff w.backups 0).0 no_backups in
          rw (fine, no_backups, zero_backups)
            (subst (λ fs. LosesTop 0 fs (removed broken w r.files).1.files) (unshifted zero_backups)
              (removed_keeps w r.files))
    ]
  ]

  pub rotate_keeps : (w : Writer) → LosesTop w.backups w.files (rotate broken w).1.files
  unfolding rotate
  rotate_keeps w = elim (Bool-cases (not w.is_open || broken close_file)) [
    | inl stuck ↦ rw stuck (loses_nothing w.backups w.files w.files refl)
    | inr shut ↦ rw shut (
        shifted_keeps w.backups w (shift broken w.backups w.files) refl
          (shift_keeps w.backups w.files)
          (λ none_there. ap (λ n. (shift broken n w.files).files) none_there))
  ]

  append_keeps :
      (n accepts : ℕ) (text : Bytes) (w : Writer)
      → history n (append accepts text w).writer.files
        ≡ history n w.files ++ take (append accepts text w).count text
  append_keeps n accepts text w = elim (Bool-cases w.is_open) [
    | inl opened ↦ rw opened (
        history_grow n (some (content (w.files 0) ++ take accepts text)) (take accepts text) w.files
          refl
        ∙ ap (λ s. history n w.files ++ s) (sym (take_length accepts text)))
    | inr shut ↦ rw shut (sym (append-nil (history n w.files)))
  ]
    where
      take_length : (k : ℕ) (s : Bytes) → take (length (take k s)) s ≡ take k s
      take_length zero s = refl
      take_length (suc k) [] = refl
      take_length (suc k) (c ∷ s) = ap (λ r. c ∷ r) (take_length k s)

  -- Whichever calls fail, and however many bytes the file takes, a write adds to the log the bytes that it
  -- reports as written, the first ones of its text, and no more is lost of the log, read from the oldest backup
  -- on, than the oldest backup.
  pub write_keeps :
      (accepts : ℕ) (text : Bytes) (w : Writer)
      → (lost : Bytes) × ((lost ≡ []) ⊎ (lost ≡ content (w.files w.backups)))
        × (lost ++ history w.backups (write broken accepts text w).writer.files
            ≡ history w.backups w.files ++ take (write broken accepts text w).count text)
  unfolding write
  write_keeps accepts text w = look w.closed (must_rotate w text)
    where
      Keeps : Written → Type 0
      Keeps x =
          (lost : Bytes) × ((lost ≡ []) ⊎ (lost ≡ content (w.files w.backups)))
          × (lost ++ history w.backups x.writer.files
              ≡ history w.backups w.files ++ take x.count text)

      added :
          (r : Bool × Writer)
          → LosesTop w.backups w.files r.1.files
          → Keeps (after_rotation accepts text r)
      added (true, v) (lost, how, h) = (
        lost,
        how,
        ap (λ s. lost ++ s) (append_keeps w.backups accepts text v)
            ∙ sym (
                append_assoc lost (history w.backups v.files)
                  (take (append accepts text v).count text))
            ∙ ap (λ s. s ++ take (append accepts text v).count text) h,
      )
      added (false, v) (lost, how, h) =
          (lost, how, h ∙ sym (append-nil (history w.backups w.files)))

      look :
          (closed full : Bool)
          → Keeps (
              if closed
              then record { count = 0; is_ok = false; writer = w }
              else if full
              then after_rotation accepts text (rotate broken w)
              else append accepts text w)
      look true full = ([], inl refl, sym (append-nil (history w.backups w.files)))
      look false true = added (rotate broken w) (rotate_keeps w)
      look false false = ([], inl refl, append_keeps w.backups accepts text w)

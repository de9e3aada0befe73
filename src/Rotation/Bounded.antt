-- ===== src/Rotation/Bounded.antt =====
-- internal/applog/rotate.go: how large the log and its backups get, whichever calls fail.
use mathlib.Core.Path.{subst}
use oscar_corrtest.Base.{
  ℕ, zero, suc, ◌+◌, ◌*◌, ◌≤◌, ◌≡◌, refl, sym, ap, ◌∙◌, Bool, true, false, not, ◌||◌, List, [], ◌∷◌,
  ◌++◌, none, some, length, length-append, ltb, leb, ◌==◌, if◌then◌else◌, inl, inr, Bool-cases,
  arith, some-injective, All,
}
use oscar_corrtest.Rotation.{
  Bytes, Files, Call, Writer, Written, put, content, kept_file, take, remove, close_file, open_file,
  stat_file, shift, open_log, with_files, removed, shifted, rotate, must_rotate, append,
  after_rotation, write, Attempt, writes, opened, new_rotating_writer,
}
use oscar_corrtest.Rotation.History.{history, kept_file-content}
use oscar_corrtest.Rotation.Fits.{Fits, put-Fits, shift-Fits, shift_empties}

-- The size that an open writer keeps is that of its file.
pub record IsBounded (b n : ℕ) (before : Files) (w : Writer) : Type 0 where
  pub depth : w.backups ≡ n
  pub limit : w.max_bytes ≤ b
  pub fits : Fits b n before w.files
  pub synced : w.is_open ≡ true → w.size ≡ length (content (w.files 0))

module _ (b n : ℕ) (before : Files) where
  open_log-IsBounded :
      (broken : Call → Bool) (w : Writer)
      → w.is_open ≡ false
      → w.backups ≡ n
      → w.max_bytes ≤ b
      → Fits b n before w.files
      → IsBounded b n before (open_log broken w).1
  unfolding open_log
  open_log-IsBounded broken w shut deep low fit =
      let same : length (content (kept_file (w.files 0))) ≡ length (content (w.files 0)) =
        ap length (kept_file-content (w.files 0)) in
      let created : Fits b n before (put 0 (kept_file (w.files 0)) w.files) =
        put-Fits b n before 0 (kept_file (w.files 0)) w.files (omega arith)
          (omega (arith, same, fit.small 0)) fit in
      elim (Bool-cases (broken open_file)) [
        | inl stuck ↦ rw stuck (record { depth = deep; limit = low; fits = fit; synced = λ h. cc })
        | inr opened ↦ elim (Bool-cases (broken stat_file)) [
          | inl stuck ↦
              rw (opened, stuck)
                (record { depth = deep; limit = low; fits = created; synced = λ h. cc })
          | inr sized ↦
              rw (opened, sized)
                (record { depth = deep; limit = low; fits = created; synced = λ h. sym same })
        ]
      ]

  opens_empty :
      (broken : Call → Bool) (w : Writer)
      → content (w.files 0) ≡ []
      → content ((open_log broken w).1.files 0) ≡ []
  unfolding open_log
  opens_empty broken w h =
      let created : content (kept_file (w.files 0)) ≡ [] = kept_file-content (w.files 0) ∙ h in
      elim (Bool-cases (broken open_file)) [
        | inl stuck ↦ rw stuck h
        | inr opened ↦ elim (Bool-cases (broken stat_file)) [
          | inl stuck ↦ rw (opened, stuck) created
          | inr sized ↦ rw (opened, sized) created
        ]
      ]

  -- What a rotation leaves: the bounds, and a file without text if it succeeded.
  abbrev Rotated : Bool × Writer → Type 0
  Rotated r = IsBounded b n before r.1 × (r.0 ≡ true → content (r.1.files 0) ≡ [])

  removed-Rotated :
      (broken : Call → Bool) (w : Writer) (fs : Files)
      → w.backups ≡ n
      → w.max_bytes ≤ b
      → Fits b n before fs
      → Rotated (removed broken w fs)
  removed-Rotated broken w fs deep low fit = elim (Bool-cases (broken (remove 0))) [
    | inl stuck ↦
        rw stuck (open_log-IsBounded broken (with_files broken fs w) refl deep low fit, λ h. cc)
    | inr gone ↦
        let empty = record (with_files broken (put 0 none fs) w) { size = 0 } in
        rw gone (
          open_log-IsBounded broken empty refl deep low
              (put-Fits b n before 0 none fs (omega arith) (omega arith) fit),
          λ h. opens_empty broken empty refl,
        )
  ]

  shifted-Rotated :
      (broken : Call → Bool) (w : Writer)
      → w.backups ≡ n
      → w.max_bytes ≤ b
      → Fits b n before w.files
      → Rotated (shifted broken w (shift broken w.backups w.files))
  shifted-Rotated broken w deep low fit =
      let r = shift broken w.backups w.files in
      let fit' : Fits b n before r.files =
        shift-Fits b n before broken w.backups w.files (omega (arith, deep)) fit in
      elim (Bool-cases r.failed) [
        | inl failed ↦
            rw failed
              (open_log-IsBounded broken (with_files broken r.files w) refl deep low fit', λ h. cc)
        | inr fine ↦ elim (Bool-cases (w.backups == 0)) [
          | inl no_backups ↦ rw (fine, no_backups) (removed-Rotated broken w r.files deep low fit')
          | inr some_backups ↦
              let empty = record (with_files broken r.files w) { size = 0 } in
              rw (fine, some_backups)
                (
                  open_log-IsBounded broken empty refl deep low fit',
                  λ h. opens_empty broken empty (
                      shift_empties broken w.backups w.files (λ e. absurd (ground (arith, e)))
                        fine),
                )
        ]
      ]

  rotate-Rotated :
      (broken : Call → Bool) (w : Writer) → IsBounded b n before w → Rotated (rotate broken w)
  unfolding rotate
  rotate-Rotated broken w y = elim (Bool-cases (not w.is_open || broken close_file)) [
    | inl stuck ↦
        rw stuck
          (record { depth = y.depth; limit = y.limit; fits = y.fits; synced = λ h. cc }, λ h. cc)
    | inr shut ↦ rw shut (shifted-Rotated broken w y.depth y.limit y.fits)
  ]

  append-IsBounded :
      (accepts : ℕ) (text : Bytes) (w : Writer)
      → (w.is_open ≡ true → length (content (w.files 0)) + length text ≤ b)
      → IsBounded b n before w
      → IsBounded b n before (append accepts text w).writer
  append-IsBounded accepts text w room y = look w.is_open refl
    where
      take_short : (k : ℕ) (s : Bytes) → length (take k s) ≤ length s
      take_short zero s = omega arith
      take_short (suc k) [] = omega arith
      take_short (suc k) (c ∷ s) = omega (arith, take_short k s)

      longer :
          length (content (w.files 0) ++ take accepts text)
          ≡ length (content (w.files 0)) + length (take accepts text)
      longer = length-append (content (w.files 0)) (take accepts text)

      written : Files
      written = put 0 (some (content (w.files 0) ++ take accepts text)) w.files

      look :
          (opened : Bool)
          → w.is_open ≡ opened
          → IsBounded b n before
              (if◌then◌else◌ {A = Written} opened
                (record {
                  count = length (take accepts text);
                  is_ok = leb (length text) accepts;
                  writer = record w { size = w.size + length (take accepts text); files = written };
                })
                (record { count = 0; is_ok = false; writer = w })).writer
      look false h = y
      look true h = record {
        depth = y.depth;
        limit = y.limit;
        fits =
            put-Fits b n before 0 (some (content (w.files 0) ++ take accepts text)) w.files
              (omega arith) (omega (arith, longer, room h, take_short accepts text)) y.fits;
        synced = λ opened. omega (arith, longer, y.synced h);
      }

  pub write-IsBounded :
      (broken : Call → Bool) (accepts : ℕ) (text : Bytes) (w : Writer)
      → length text ≤ b
      → IsBounded b n before w
      → IsBounded b n before (write broken accepts text w).writer
  unfolding write
  write-IsBounded broken accepts text w short y = look w.closed (must_rotate w text) refl
    where
      after :
          (r : Bool × Writer)
          → Rotated r
          → IsBounded b n before (after_rotation accepts text r).writer
      after (true, v) (z, empty) =
          append-IsBounded accepts text v (λ _. omega (arith, ap length (empty refl), short)) z
      after (false, v) (z, empty) = z

      look :
          (closed full : Bool)
          → must_rotate w text ≡ full
          → IsBounded b n before
              (if closed
                then record { count = 0; is_ok = false; writer = w }
                else if full
                then after_rotation accepts text (rotate broken w)
                else append accepts text w).writer
      look true full h = y
      look false true h = after (rotate broken w) (rotate-Rotated broken w y)
      look false false h =
          append-IsBounded accepts text w (λ opened. ground (arith, y.synced opened, y.limit)) y

total_bounded :
    (b n k : ℕ) (before after : Files)
    → Fits b n before after
    → length (history k after) ≤ suc k * b
total_bounded b n zero before after fit = omega (arith, fit.small 0)
total_bounded b n (suc k) before after fit =
    let one = fit.small (suc k) in
    let rest = total_bounded b n k before after fit in
    let both = length-append (content (after (suc k))) (history k after) in
    omega (arith, one, rest, both)

module _ (b n : ℕ) (before : Files) where
  writes-IsBounded :
      (as' : List Attempt) (w : Writer)
      → All (λ a. length a.text ≤ b) as'
      → IsBounded b n before w
      → IsBounded b n before (writes as' w)
  unfolding writes
  writes-IsBounded [] w h y = y
  writes-IsBounded (a ∷ more) w (short, h) y =
      writes-IsBounded more (write a.broken a.accepts a.text w).writer h
        (write-IsBounded b n before a.broken a.accepts a.text w short y)

-- Where no file that is there and no text is larger than b, and the limit is no larger either: whichever calls
-- fail, the log with its backups never grows beyond b for each file, and no file beyond the backups is touched.
pub writes_bounded :
    (b n : ℕ) (broken : Call → Bool) (max_bytes : ℕ) (before : Files) (as' : List Attempt)
    {w : Writer}
    → ((k : ℕ) → length (content (before k)) ≤ b)
    → max_bytes ≤ b
    → All (λ a. length a.text ≤ b) as'
    → new_rotating_writer broken max_bytes n before ≡ some w
    → (length (history n (writes as' w).files) ≤ suc n * b)
      × ((k : ℕ) → ltb n k ≡ true → (writes as' w).files k ≡ before k)
unfolding new_rotating_writer
writes_bounded b n broken max_bytes before as' {w} small low short h =
    let fit : Fits b n before before = record { small = small; beyond = λ k high. refl } in
    let start : Writer = record {
      max_bytes = max_bytes;
      backups = n;
      is_open = false;
      size = 0;
      closed = false;
      files = before;
    } in
    let begun = open_log-IsBounded b n before broken start refl refl low fit in
    let (_, same) = refuse_zero (max_bytes == 0) (open_log broken start) h in
    let ended = writes-IsBounded b n before as' w short (subst (IsBounded b n before) same begun) in
    (total_bounded b n n before (writes as' w).files ended.fits, ended.fits.beyond)
  where
    opened_lem : (r : Bool × Writer) → opened r ≡ some w → r.1 ≡ w
    opened_lem (true, v) k = some-injective _ _ k
    opened_lem (false, v) k = cc

    refuse_zero :
        (z : Bool) (r : Bool × Writer)
        → (if z then none else opened r) ≡ some w
        → (z ≡ false) × (r.1 ≡ w)
    refuse_zero true r k = cc
    refuse_zero false r k = (refl, opened_lem r k)

-- ===== src/Rotation/Working.antt =====
-- internal/applog/rotate.go: a write where no call fails.
use oscar_corrtest.Base.{
  ℕ, zero, suc, ◌≤◌, ◌≡◌, refl, Bool, true, false, [], ◌∷◌, Option, none, some, length, ◌==◌, inl,
  inr, Bool-cases, arith, ap,
}
use oscar_corrtest.Rotation.{
  Bytes, Files, Call, Writer, Renamed, put, take, close_file, open_file, stat_file, stat, remove,
  rename, shift, rename_from, rename_replacing, open_log, with_files, shifted, rotate, append,
  after_rotation, write,
}
use oscar_corrtest.Rotation.Silent.{write_by}

-- A result that is a success, with an open file.
Works : Bool × Writer → Type 0
Works r = (r.0 ≡ true) × (r.1.is_open ≡ true)

module _ (broken : Call → Bool) (fine : (c : Call) → broken c ≡ false) where
  open_log-Works : (w : Writer) → Works (open_log broken w)
  unfolding open_log Works
  open_log-Works w = rw (fine open_file, fine stat_file) (refl, refl)

  not_failed : (k : ℕ) (fs : Files) → (rename_replacing broken k (suc k) fs).failed ≡ false
  unfolding rename_replacing
  not_failed k fs = rw (fine (stat k)) (look (fs k))
    where
      look : (x : Option Bytes) → (rename_from broken k (suc k) fs x).failed ≡ false
      look none = refl
      look (some s) = rw (fine (remove (suc k)), fine (rename k (suc k))) refl

  all_shifted : (k : ℕ) (fs : Files) → (shift broken k fs).failed ≡ false
  unfolding shift
  all_shifted zero fs = refl
  all_shifted (suc k) fs =
      rw (not_failed k fs) (all_shifted k (rename_replacing broken k (suc k) fs).files)

  shifted-Works : (w : Writer) (r : Renamed) → r.failed ≡ false → Works (shifted broken w r)
  shifted-Works w r moved = elim (Bool-cases (w.backups == 0)) [
    | inl no_backups ↦
        rw (moved, no_backups, fine (remove 0))
          (open_log-Works (record (with_files broken (put 0 none r.files) w) { size = 0 }))
    | inr backups ↦
        rw (moved, backups) (open_log-Works (record (with_files broken r.files w) { size = 0 }))
  ]

  rotate-Works : (w : Writer) → w.is_open ≡ true → Works (rotate broken w)
  unfolding rotate
  rotate-Works w opened =
      rw (opened, fine close_file)
        (shifted-Works w (shift broken w.backups w.files) (all_shifted w.backups w.files))

  append_all :
      (accepts : ℕ) (text : Bytes) (w : Writer)
      → length text ≤ accepts
      → w.is_open ≡ true
      → ((append accepts text w).is_ok ≡ true) × ((append accepts text w).count ≡ length text)
  append_all accepts text w room opened =
      rw opened (ground (arith, room), take_all accepts text room)
    where
      take_all : (k : ℕ) (s : Bytes) → length s ≤ k → length (take k s) ≡ length s
      take_all zero s h = omega (arith, h)
      take_all (suc k) [] h = refl
      take_all (suc k) (c ∷ s) h = ap suc (take_all k s (omega (arith, h)))

  -- Where no call fails and the file takes the whole text, a write by a writer that is open and not closed
  -- succeeds and reports the whole text, whether or not it rotates.
  pub write_completes :
      (accepts : ℕ) (text : Bytes) (w : Writer)
      → w.closed ≡ false
      → w.is_open ≡ true
      → length text ≤ accepts
      → ((write broken accepts text w).is_ok ≡ true)
        × ((write broken accepts text w).count ≡ length text)
  unfolding Works
  write_completes accepts text w usable opened room =
      write_by broken accepts text w (λ x. (x.is_ok ≡ true) × (x.count ≡ length text)) (λ h. cc)
        (λ _ _. after (rotate broken w) (rotate-Works w opened))
        (λ _ _. append_all accepts text w room opened)
    where
      after :
          (r : Bool × Writer)
          → Works r
          → ((after_rotation accepts text r).is_ok ≡ true)
            × ((after_rotation accepts text r).count ≡ length text)
      after (true, v) (_, still) = append_all accepts text v room still
      after (false, v) (done, _) = cc

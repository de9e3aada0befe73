-- ===== src/Rotation/Silent.antt =====
-- internal/applog/rotate.go: what follows when the file cannot be opened after a rotation.
use oscar_corrtest.Base.{
  ℕ, ◌≡◌, refl, ◌∙◌, Bool, true, false, not, ◌||◌, List, [], ◌∷◌, ◌==◌, if◌then◌else◌, inl, inr,
  Bool-cases, none,
}
use oscar_corrtest.Rotation.{
  Bytes, Call, Writer, Renamed, Written, put, close_file, open_file, remove, shift, open_log,
  with_files, shifted, rotate, must_rotate, append, after_rotation, write, Attempt, writes,
}

module _ (broken : Call → Bool) (unopened : broken open_file ≡ true) where
  open_shut : (w : Writer) → w.is_open ≡ false → (open_log broken w).1.is_open ≡ false
  unfolding open_log
  open_shut w h = rw unopened h

  shifted_shut : (w : Writer) (r : Renamed) → (shifted broken w r).1.is_open ≡ false
  shifted_shut w r = elim (Bool-cases r.failed) [
    | inl failed ↦ rw failed (open_shut (with_files broken r.files w) refl)
    | inr fine ↦ elim (Bool-cases (w.backups == 0)) [
      | inr backups ↦
          rw (fine, backups) (open_shut (record (with_files broken r.files w) { size = 0 }) refl)
      | inl no_backups ↦ elim (Bool-cases (broken (remove 0))) [
        | inl stuck ↦ rw (fine, no_backups, stuck) (open_shut (with_files broken r.files w) refl)
        | inr gone ↦
            rw (fine, no_backups, gone)
              (open_shut (record (with_files broken (put 0 none r.files) w) { size = 0 }) refl)
      ]
    ]
  ]

  rotate_shut : (w : Writer) → (rotate broken w).1.is_open ≡ false
  unfolding rotate
  rotate_shut w = elim (Bool-cases (not w.is_open || broken close_file)) [
    | inl stuck ↦ rw stuck refl
    | inr shut ↦ rw shut (shifted_shut w (shift broken w.backups w.files))
  ]

pub write_by :
    (broken : Call → Bool) (accepts : ℕ) (text : Bytes) (w : Writer) (P : Written → Type 0)
    → (w.closed ≡ true → P (record { count = 0; is_ok = false; writer = w }))
    → (w.closed ≡ false
        → must_rotate w text ≡ true
        → P (after_rotation accepts text (rotate broken w)))
    → (w.closed ≡ false → must_rotate w text ≡ false → P (append accepts text w))
    → P (write broken accepts text w)
unfolding write
write_by broken accepts text w P ended turned added = look w.closed (must_rotate w text) refl refl
  where
    look :
        (c f : Bool)
        → w.closed ≡ c
        → must_rotate w text ≡ f
        → P (
            if c
            then record { count = 0; is_ok = false; writer = w }
            else if f
            then after_rotation accepts text (rotate broken w)
            else append accepts text w)
    look true f h k = ended h
    look false true h k = turned h k
    look false false h k = added h k

-- Nothing came of a write, and the file is not open.
Silent : Writer → Written → Type 0
Silent w x = (x.writer.is_open ≡ false) × (x.writer.files ≡ w.files)

append_shut :
    (accepts : ℕ) (text : Bytes) (w : Writer) → w.is_open ≡ false → Silent w (append accepts text w)
unfolding Silent
append_shut accepts text w h = rw h (refl, refl)

after_shut :
    (accepts : ℕ) (text : Bytes) (r : Bool × Writer)
    → r.1.is_open ≡ false
    → (after_rotation accepts text r).writer.is_open ≡ false
unfolding Silent
after_shut accepts text (true, v) h = (append_shut accepts text v h).0
after_shut accepts text (false, v) h = h

rotate-Silent :
    (broken : Call → Bool) (accepts : ℕ) (text : Bytes) (w : Writer)
    → w.is_open ≡ false
    → Silent w (after_rotation accepts text (rotate broken w))
unfolding Silent rotate
rotate-Silent broken accepts text w h = rw h (refl, refl)

write_shut :
    (broken : Call → Bool) (accepts : ℕ) (text : Bytes) (w : Writer)
    → w.is_open ≡ false
    → Silent w (write broken accepts text w)
unfolding Silent
write_shut broken accepts text w h =
    write_by broken accepts text w (Silent w) (λ _. (h, refl))
      (λ _ _. rotate-Silent broken accepts text w h) (λ _ _. append_shut accepts text w h)

writes_shut : (as' : List Attempt) (w : Writer) → w.is_open ≡ false → (writes as' w).files ≡ w.files
unfolding writes Silent
writes_shut [] w h = refl
writes_shut (a ∷ more) w h =
    let (shut, same) = write_shut a.broken a.accepts a.text w h in
    writes_shut more (write a.broken a.accepts a.text w).writer shut ∙ same

-- Once the file cannot be opened in the rotation of a write, no later write of the process adds anything to
-- the log, even if no call fails any more.
pub failed_open_silences :
    (broken : Call → Bool) (accepts : ℕ) (text : Bytes) (w : Writer) (as' : List Attempt)
    → broken open_file ≡ true
    → w.closed ≡ false
    → must_rotate w text ≡ true
    → (writes as' (write broken accepts text w).writer).files
      ≡ (write broken accepts text w).writer.files
failed_open_silences broken accepts text w as' unopened usable full =
    writes_shut as' (write broken accepts text w).writer (
      write_by broken accepts text w (λ x. x.writer.is_open ≡ false) (λ h. cc)
        (λ _ _. after_shut accepts text (rotate broken w) (rotate_shut broken unopened w))
        (λ _ h. cc))

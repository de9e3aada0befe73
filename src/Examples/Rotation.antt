-- ===== src/Examples/Rotation.antt =====
-- internal/applog/rotate.go: a log of at most four bytes with one backup.
use oscar_corrtest.Base.{
  ℕ, ◌*◌, ◌≤◌, ◌≡◌, refl, ◌⊎◌, Bool, true, false, [], ◌∷◌, ◌++◌, none, some, length, ltb, arith,
}
use oscar_corrtest.Rotation.{
  Bytes, Files, Call, Writer, content, take, open_file, write, writes, new_rotating_writer, put,
}
use oscar_corrtest.Rotation.Bounded.{writes_bounded}
use oscar_corrtest.Rotation.Kept.{write_keeps}
use oscar_corrtest.Rotation.History.{history}
use oscar_corrtest.Rotation.Working.{write_completes}
use oscar_corrtest.Rotation.Silent.{failed_open_silences}

abbrev all_up : Call → Bool
all_up c = false

-- No file can be opened.
abbrev unopened : Call → Bool
unopened open_file = true
unopened c = false

abbrev no_files : Files
no_files k = none

abbrev half_full : Writer
half_full = record {
  max_bytes = 4;
  backups = 1;
  is_open = true;
  size = 3;
  closed = false;
  files = put 0 (some (1 ∷ 2 ∷ 3 ∷ [])) (put 1 (some (9 ∷ [])) no_files);
}

abbrev two_more : Bytes
two_more = 4 ∷ 5 ∷ []

rotates : history 1 (write all_up 8 two_more half_full).writer.files ≡ 1 ∷ 2 ∷ 3 ∷ 4 ∷ 5 ∷ []
unfolding write
rotates = refl

write_keeps_example :
    (lost : Bytes) × ((lost ≡ []) ⊎ (lost ≡ content (half_full.files half_full.backups)))
    × (lost ++ history half_full.backups (write all_up 8 two_more half_full).writer.files
        ≡ history half_full.backups half_full.files
          ++ take (write all_up 8 two_more half_full).count two_more)
write_keeps_example = write_keeps all_up 8 two_more half_full

failed_open_silences_example :
    (writes
      (record { broken = all_up; accepts = 8; text = two_more } ∷ [])
      (write unopened 8 two_more half_full).writer).files
    ≡ (write unopened 8 two_more half_full).writer.files
failed_open_silences_example =
    failed_open_silences unopened 8 two_more half_full
      (record { broken = all_up; accepts = 8; text = two_more } ∷ []) refl refl refl

write_completes_example :
    ((write all_up 8 two_more half_full).is_ok ≡ true)
    × ((write all_up 8 two_more half_full).count ≡ 2)
write_completes_example =
    write_completes all_up (λ c. refl) 8 two_more half_full refl refl (omega arith)

abbrev new_log : Writer
new_log = record {
  max_bytes = 4;
  backups = 1;
  is_open = true;
  size = 0;
  closed = false;
  files = put 0 (some []) no_files;
}

writes_bounded_example :
    (length (
        history 1
          (writes (record { broken = unopened; accepts = 1; text = two_more } ∷ []) new_log).files)
      ≤ 2 * 4)
    × ((k : ℕ)
        → ltb 1 k ≡ true
        → (writes (record { broken = unopened; accepts = 1; text = two_more } ∷ []) new_log).files k
          ≡ no_files k)
unfolding new_rotating_writer
writes_bounded_example =
    writes_bounded 4 1 all_up 4 no_files
      (record { broken = unopened; accepts = 1; text = two_more } ∷ []) (λ k. omega arith)
      (omega arith) (omega arith, tt) refl

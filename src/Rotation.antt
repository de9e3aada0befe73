-- ===== src/Rotation.antt =====
-- internal/applog/rotate.go: `rotatingWriter`, the log file that is renamed to a backup when it is full. Slot 0
-- is the file at the writer's path and slot n the file with the suffix n. Which calls on the file system fail
-- is a parameter of each operation, and so is the number of bytes that a write of a file takes.
pub mod History
pub mod Kept
pub mod Fits
pub mod Bounded
pub mod Silent
pub mod Working
use oscar_corrtest.Base.{
  ℕ, zero, suc, ◌+◌, Bool, true, false, not, ◌&&◌, ◌||◌, List, [], ◌∷◌, ◌++◌, Option, none, some,
  length, ltb, leb, ◌==◌, if◌then◌else◌,
}

abbrev pub Bytes : Type 0
Bytes = List ℕ

abbrev pub Files : Type 0
Files = ℕ → Option Bytes

abbrev pub put : ℕ → Option Bytes → Files → Files
put n x fs m = if m == n then x else fs m

abbrev pub content : Option Bytes → Bytes
content none = []
content (some s) = s

-- The calls on the file system; a call that is broken fails with another error than `ErrNotExist`.
pub data Call : Type 0 where
  close_file open_file stat_file : Call
  stat remove : ℕ → Call
  rename : ℕ → ℕ → Call

pub record Writer : Type 0 where
  pub max_bytes : ℕ
  pub backups : ℕ
  pub is_open : Bool
  pub size : ℕ
  pub closed : Bool
  pub files : Files

-- What a rename comes to: the files, and whether it failed; a source that is not there is passed over.
pub record Renamed : Type 0 where
  pub failed : Bool
  pub files : Files

abbrev pub kept_file : Option Bytes → Option Bytes
kept_file none = some []
kept_file (some s) = some s

abbrev pub take : ℕ → Bytes → Bytes
take zero s = []
take (suc n) [] = []
take (suc n) (c ∷ s) = c ∷ take n s

module _ (broken : Call → Bool) where
  abbrev pub rename_from : ℕ → ℕ → Files → Option Bytes → Renamed
  rename_from source destination fs none = record { failed = false; files = fs }
  rename_from source destination fs (some s) =
      if broken (remove destination)
      then record { failed = true; files = fs }
      else if broken (rename source destination)
      then record { failed = true; files = put destination none fs }
      else record { failed = false; files = put source none (put destination (some s) fs) }

  -- `renameReplacing`, with the test for `ErrNotExist` of its caller.
  unfoldable pub rename_replacing : ℕ → ℕ → Files → Renamed
  rename_replacing source destination fs =
      if broken (stat source)
      then record { failed = true; files = fs }
      else rename_from source destination fs (fs source)

  -- The loop of `rotate`, from the last backup down to the first.
  unfoldable pub shift : ℕ → Files → Renamed
  unfolding rename_replacing
  shift zero fs = record { failed = false; files = fs }
  shift (suc n) fs =
      let moved = rename_replacing n (suc n) fs in
      let rest = shift n moved.files in if moved.failed then moved else rest

  -- `open`: whether it succeeded, and the writer after it.
  unfoldable pub open_log : Writer → Bool × Writer
  open_log w =
      if broken open_file
      then (false, w)
      else if broken stat_file
      then (false, record w { files = put 0 (kept_file (w.files 0)) w.files })
      else (
        true,
        record w {
          files = put 0 (kept_file (w.files 0)) w.files;
          size = length (content (w.files 0));
          is_open = true;
        },
      )

  abbrev pub reopen_failed : Writer → Bool × Writer
  reopen_failed w = (false, (open_log w).1)

  abbrev pub with_files : Files → Writer → Writer
  with_files fs w = record w { files = fs; is_open = false }

  abbrev pub removed : Writer → Files → Bool × Writer
  removed w fs =
      if broken (remove 0)
      then reopen_failed (with_files fs w)
      else open_log (record (with_files (put 0 none fs) w) { size = 0 })

  abbrev pub shifted : Writer → Renamed → Bool × Writer
  shifted w r =
      if r.failed
      then reopen_failed (with_files r.files w)
      else if w.backups == 0
      then removed w r.files
      else open_log (record (with_files r.files w) { size = 0 })

  -- A file that is closed already cannot be closed.
  unfoldable pub rotate : Writer → Bool × Writer
  unfolding open_log shift
  rotate w =
      if not w.is_open || broken close_file
      then (false, record w { is_open = false })
      else shifted w (shift w.backups w.files)

abbrev pub must_rotate : Writer → Bytes → Bool
must_rotate w text = ltb 0 w.size && ltb w.max_bytes (w.size + length text)

-- What a write comes to: the bytes that it reports, whether it succeeded, and the writer.
pub record Written : Type 0 where
  pub count : ℕ
  pub is_ok : Bool
  pub writer : Writer

-- The write of the file takes at most `accepts` bytes, and fails if these are not all.
abbrev pub append : ℕ → Bytes → Writer → Written
append accepts text w =
    if w.is_open
    then record {
      count = length (take accepts text);
      is_ok = leb (length text) accepts;
      writer = record w {
        size = w.size + length (take accepts text);
        files = put 0 (some (content (w.files 0) ++ take accepts text)) w.files;
      };
    }
    else record { count = 0; is_ok = false; writer = w }

abbrev pub after_rotation : ℕ → Bytes → Bool × Writer → Written
after_rotation accepts text (rotated, w) =
    if rotated then append accepts text w else record { count = 0; is_ok = false; writer = w }

-- `Write`.
unfoldable pub write : (Call → Bool) → ℕ → Bytes → Writer → Written
unfolding rotate
write broken accepts text w =
    if w.closed
    then record { count = 0; is_ok = false; writer = w }
    else if must_rotate w text
    then after_rotation accepts text (rotate broken w)
    else append accepts text w

-- `Close`.
unfoldable pub close : (Call → Bool) → Writer → Bool × Writer
close broken w =
    if w.closed
    then (true, w)
    else (w.is_open && not (broken close_file), record w { closed = true; is_open = false })

abbrev pub opened : Bool × Writer → Option Writer
opened (true, w) = some w
opened (false, w) = none

-- `newRotatingWriter`, once the folder is there; `none` is an error.
unfoldable pub new_rotating_writer : (Call → Bool) → ℕ → ℕ → Files → Option Writer
unfolding open_log
new_rotating_writer broken max_bytes backups fs =
    if max_bytes == 0
    then none
    else opened (
        open_log broken (record {
          max_bytes = max_bytes;
          backups = backups;
          is_open = false;
          size = 0;
          closed = false;
          files = fs;
        }))

-- A write, with the calls that fail and the bytes that the file takes.
pub record Attempt : Type 0 where
  pub broken : Call → Bool
  pub accepts : ℕ
  pub text : Bytes

unfoldable pub writes : List Attempt → Writer → Writer
unfolding write
writes [] w = w
writes (a ∷ more) w = writes more (write a.broken a.accepts a.text w).writer

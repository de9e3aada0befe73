-- ===== src/Envfile/Overlay.antt =====
-- internal/envfile/store.go: `Store`, the managed file with the overlay of a process. The file system and
-- the environment of the process are parameters: the text that was read, whether a write succeeds, and
-- what the process's environment holds.
use oscar_corrtest.Base.{
  ℕ, Bool, true, false, not, ◌&&◌, ◌||◌, List, [], ◌∷◌, ◌++◌, Option, none, some, Result, ok, err,
  ◌>>=◌, ◌>>◌, refuse_if, ltb, leb, ◌==◌, if◌then◌else◌, any, keep,
}
use oscar_corrtest.Envfile.Text.{Chars, bytes, same, trim}
use oscar_corrtest.Envfile.Quote.{LineError}
use oscar_corrtest.Envfile.Line.{Parsed, blank, assign, is_key, is_value, parse_line, encode_value}

abbrev pub max_file_bytes : ℕ
max_file_bytes = 65536

-- A Go map with texts as keys.
abbrev pub Values : Type 0 → Type 0
Values A = Chars → Option A

abbrev pub update {ℓ} : {A : Type ℓ} → (Chars → A) → Chars → A → Chars → A
update m k v j = if same k j then v else m j

pub record LiveValue : Type 0 where
  pub value : Chars
  pub is_set : Bool

pub record Store : Type 0 where
  pub managed : Values Chars
  pub live : Values LiveValue
  pub lines : List Chars
  pub newline : Chars

pub data EnvError : Type 0 where
  no_path unreadable too_large bad_key bad_value unwritable : EnvError
  bad_line : LineError → EnvError

-- `strings.TrimSuffix` for one character.
unfoldable pub trim_suffix : ℕ → Chars → Chars
trim_suffix c [] = []
trim_suffix c (d ∷ []) = if d == c then [] else d ∷ []
trim_suffix c (d ∷ e ∷ s) = d ∷ trim_suffix c (e ∷ s)

abbrev pub body : Chars → Chars
body line = trim_suffix 13 (trim_suffix 10 line)

abbrev pub longer : ℕ → List Chars → List Chars
longer c [] = (c ∷ []) ∷ []
longer c (l ∷ ls) = (c ∷ l) ∷ ls

unfoldable pub pieces : Chars → List Chars
pieces [] = []
pieces (c ∷ s) = let rest = pieces s in if c == 10 then (10 ∷ []) ∷ rest else longer c rest

-- `splitLines`. The scanner of the Go library holds at most 64 KiB and drops a file that fills it with no
-- end of a line.
unfoldable pub split_lines : Chars → List Chars
unfolding pieces
split_lines s = if leb max_file_bytes (bytes s) && not (any (λ c. c == 10) s) then [] else pieces s

abbrev pub has_crlf : Chars → Bool
has_crlf [] = false
has_crlf (c ∷ []) = false
has_crlf (c ∷ d ∷ s) = ((c == 13) && (d == 10)) || has_crlf (d ∷ s)

abbrev pub as_line {ℓ} : {A : Type ℓ} → Result LineError A → Result EnvError A
as_line (ok a) = ok a
as_line (err e) = err (bad_line e)

abbrev pub assigned : Parsed → Values Chars → Values Chars
assigned blank m = m
assigned (assign k v) m = update m k (some v)

-- The loop of `Open` over the lines.
unfoldable pub load : List Chars → Values Chars → Result EnvError (Values Chars)
unfolding parse_line trim_suffix
load [] m = ok m
load (l ∷ ls) m = do p ← as_line (parse_line (body l)); load ls (assigned p m)

abbrev pub nothing {ℓ} : {A : Type ℓ} → Chars → Option A
nothing j = none

abbrev pub contents : Option Chars → Result EnvError Chars
contents none = err unreadable
contents (some text) = ok text

abbrev pub is_empty : Chars → Bool
is_empty [] = true
is_empty (c ∷ s) = false

-- `Open`: a file that is not there reads as the empty text, and `none` is any other failure.
unfoldable pub open_store : Chars → Option Chars → Result EnvError Store
unfolding load split_lines trim
open_store path file = do
  refuse_if (is_empty (trim path)) no_path
  text ← contents file
  refuse_if (ltb max_file_bytes (bytes text)) too_large
  m ← load (split_lines text) nothing
  ok (record {
    managed = m;
    live = nothing;
    lines = split_lines text;
    newline = if has_crlf text then 13 ∷ 10 ∷ [] else 10 ∷ [];
  })

abbrev pub assigns : Chars → Result LineError Parsed → Bool
assigns key (ok (assign k v)) = same k key
assigns key p = false

-- The lines that `rewrite` keeps: all but the assignments to the key.
unfoldable pub other_lines : Chars → List Chars → List Chars
unfolding parse_line trim_suffix
other_lines key ls = keep (λ l. not (assigns key (parse_line (body l)))) ls

abbrev pub ends_line : Chars → Bool
ends_line [] = false
ends_line (c ∷ []) = c == 10
ends_line (c ∷ d ∷ s) = ends_line (d ∷ s)

-- The last line is given an end, if there is one and it has none.
unfoldable pub end_last : Chars → List Chars → List Chars
end_last newline [] = []
end_last newline (l ∷ []) = (if ends_line l then l else l ++ newline) ∷ []
end_last newline (l ∷ m ∷ ls) = l ∷ end_last newline (m ∷ ls)

abbrev pub document : List Chars → Chars
document [] = []
document (l ∷ ls) = l ++ document ls

module _ (printable : ℕ → Bool) where
  unfoldable pub new_lines : Chars → Option Chars → Store → List Chars
  unfolding other_lines end_last encode_value
  new_lines key none s = other_lines key s.lines
  new_lines key (some v) s =
      end_last s.newline (other_lines key s.lines)
      ++ (key ++ b'=' ∷ (encode_value printable v ++ s.newline)) ∷ []

  abbrev pub activated : Chars → Option Chars → List Chars → Store → Store
  activated key none ls s = record s {
    managed = update s.managed key none;
    live = update s.live key (some (record { value = []; is_set = false }));
    lines = ls;
  }
  activated key (some v) ls s = record s {
    managed = update s.managed key (some v);
    live = update s.live key (some (record { value = v; is_set = true }));
    lines = ls;
  }

  unfoldable pub rewrite : Bool → Chars → Option Chars → Store → Result EnvError Store
  unfolding new_lines
  rewrite written key value s = do
    refuse_if (ltb max_file_bytes (bytes (document (new_lines key value s)))) too_large
    refuse_if (not written) unwritable
    ok (activated key value (new_lines key value s) s)

  unfoldable pub replace : Bool → Chars → Chars → Store → Result EnvError Store
  unfolding rewrite
  replace written key v s = do
    refuse_if (not (is_key key)) bad_key
    refuse_if (not (is_value v)) bad_value
    rewrite written key (some v) s

  unfoldable pub clear : Bool → Chars → Store → Result EnvError Store
  unfolding rewrite
  clear written key s = do refuse_if (not (is_key key)) bad_key; rewrite written key none s

-- What a variable's value is where there may be none.
abbrev pub or_empty : Option Chars → Chars
or_empty none = []
or_empty (some v) = v

abbrev pub not_empty : Option Chars → Bool
not_empty none = false
not_empty (some v) = not (is_empty v)

pub data Source : Type 0 where
  unset external managed_file live_override : Source

pub record KeyStatus : Type 0 where
  pub configured : Bool
  pub source : Source
  pub external_resumes_on_restart : Bool

module _ (lookup : Values Chars) where
  abbrev pub below_live : Chars → Store → Option LiveValue → Chars
  below_live key s (some l) = if l.is_set then l.value else []
  below_live key s none =
      if not_empty (lookup key) then or_empty (lookup key) else or_empty (s.managed key)

  -- `Getenv`.
  unfoldable pub getenv : Chars → Store → Chars
  getenv key s = below_live key s (s.live key)

  abbrev pub status_of : Chars → Store → Option LiveValue → KeyStatus
  status_of key s (some l) = record {
    configured = l.is_set && not (is_empty l.value);
    source = live_override;
    external_resumes_on_restart = not_empty (lookup key);
  }
  status_of key s none =
      if not_empty (lookup key)
      then record { configured = true; source = external; external_resumes_on_restart = false }
      else if not_empty (s.managed key)
      then record { configured = true; source = managed_file; external_resumes_on_restart = false }
      else record { configured = false; source = unset; external_resumes_on_restart = false }

  -- `Status`.
  unfoldable pub status : Chars → Store → KeyStatus
  status key s = status_of key s (s.live key)

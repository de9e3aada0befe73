-- ===== src/Envfile/Line.antt =====
-- internal/envfile/store.go: one line of the managed file, `parseLine`, `validate` and `encodeValue`.
use oscar_corrtest.Base.{
  ℕ, Bool, true, false, not, ◌&&◌, ◌||◌, [], ◌∷◌, Option, none, some, Result, ok, err, ◌>>=◌, ltb,
  leb, ◌==◌, if◌then◌else◌, any, all,
}
use oscar_corrtest.Envfile.Text.{Chars, bytes, trim, after_prefix, cut, before_comment}
use oscar_corrtest.Envfile.Quote.{LineError, bad_assignment, bad_single_quotes, quote, unquote}

pub data Parsed : Type 0 where
  blank : Parsed
  assign : Chars → Chars → Parsed

-- `keyPattern`.
abbrev pub starts_key : ℕ → Bool
starts_key c = (leb b'A' c && leb c b'Z') || (c == b'_')

abbrev pub in_key : ℕ → Bool
in_key c = starts_key c || (leb b'0' c && leb c b'9')

abbrev pub is_key : Chars → Bool
is_key [] = false
is_key (c ∷ s) = starts_key c && all in_key s

abbrev pub max_value_bytes : ℕ
max_value_bytes = 16384

abbrev pub forbidden : ℕ → Bool
forbidden c = (c == 13) || (c == 10) || (c == 0)

abbrev pub is_value : Chars → Bool
is_value v = not (ltb max_value_bytes (bytes v) || any forbidden v)

abbrev pub export : Chars
export = b'e' ∷ b'x' ∷ b'p' ∷ b'o' ∷ b'r' ∷ b't' ∷ b' ' ∷ []

abbrev pub without_export : Chars → Option Chars → Chars
without_export s none = s
without_export s (some rest) = trim rest

-- The text without its last character, if that is a single quote.
unfoldable pub single_quoted : Chars → Option Chars
single_quoted [] = none
single_quoted (c ∷ []) = if c == b'\'' then some [] else none
single_quoted (c ∷ d ∷ s) = elim (single_quoted (d ∷ s)) [ none ↦ none | some r ↦ some (c ∷ r) ]

abbrev pub closed : Option Chars → Result LineError Chars
closed none = err bad_single_quotes
closed (some v) = ok v

abbrev pub uncommented : Chars → Option Chars → Chars
uncommented s none = s
uncommented s (some before) = trim before

-- The value that the trimmed text after `=` stands for.
unfoldable pub raw_value : Chars → Result LineError Chars
unfolding single_quoted unquote before_comment trim
raw_value [] = ok []
raw_value (c ∷ s) =
    if c == b'\''
    then closed (single_quoted s)
    else if c == b'"'
    then unquote s
    else ok (uncommented (c ∷ s) (before_comment (c ∷ s)))

unfoldable pub assignment : Option (Chars × Chars) → Result LineError Parsed
unfolding trim raw_value
assignment none = err bad_assignment
assignment (some (key, raw)) =
    if is_key (trim key)
    then (raw_value (trim raw) >>= λ v. ok (assign (trim key) v))
    else err bad_assignment

abbrev pub is_blank : Chars → Bool
is_blank [] = true
is_blank (c ∷ s) = c == b'#'

unfoldable pub parse_trimmed : Chars → Result LineError Parsed
unfolding assignment cut after_prefix trim
parse_trimmed s =
    if is_blank s
    then ok blank
    else assignment (cut b'=' (without_export s (after_prefix export s)))

-- `parseLine`, on a line without its ending.
unfoldable pub parse_line : Chars → Result LineError Parsed
unfolding parse_trimmed trim
parse_line line = parse_trimmed (trim line)

abbrev pub is_special : ℕ → Bool
is_special c = (c == b' ') || (c == 9) || (c == b'#') || (c == b'\'') || (c == b'"')

abbrev pub needs_quotes : Chars → Bool
needs_quotes [] = true
needs_quotes (c ∷ s) = any is_special (c ∷ s)

module _ (printable : ℕ → Bool) where
  unfoldable pub encode_value : Chars → Chars
  unfolding quote
  encode_value v = if needs_quotes v then quote printable v else v

-- ===== src/Envfile/Quote.antt =====
-- internal/envfile/store.go: `strconv.Quote` and `strconv.Unquote`, by which a value is written in quotes
-- and read back. Which characters above ASCII are printable is a table of the Go library, a parameter.
pub mod Back
use oscar_corrtest.Base.{
  ℕ, zero, suc, ◌+◌, ◌-◌, ◌*◌, ◌/◌, ◌%◌, Bool, true, false, not, ◌&&◌, ◌||◌, List, [], ◌∷◌, ◌++◌,
  Option, none, some, Result, ok, err, ◌>>=◌, ◌>>◌, refuse_if, ltb, leb, ◌==◌, if◌then◌else◌,
  length,
}
use oscar_corrtest.Envfile.Text.{Chars}

pub data LineError : Type 0 where
  bad_assignment bad_single_quotes bad_double_quotes : LineError
  -- `\x80` and the like are bytes that need not be a character: such a value is not a `Chars`.
  raw_byte : LineError

-- `utf8.ValidRune`.
abbrev pub is_rune : ℕ → Bool
is_rune c = ltb c 0xd800 || (leb 0xe000 c && ltb c 0x110000)

abbrev pub hex_digit : ℕ → ℕ
hex_digit d = if ltb d 10 then d + b'0' else d + 87

abbrev pub unhex : ℕ → Option ℕ
unhex c =
    if leb b'0' c && leb c b'9'
    then some (c - b'0')
    else if leb b'a' c && leb c b'f'
    then some (c - 87)
    else if leb b'A' c && leb c b'F'
    then some (c - 55)
    else none

module _ (printable : ℕ → Bool) where
  abbrev pub is_print : ℕ → Bool
  is_print c = if ltb c 0x80 then leb 0x20 c && ltb c 0x7f else printable c

  -- The letter of an escape of one character.
  abbrev pub letter_of : ℕ → Option ℕ
  letter_of c =
      if c == 7
      then some b'a'
      else if c == 8
      then some b'b'
      else if c == 12
      then some b'f'
      else if c == 10
      then some b'n'
      else if c == 13
      then some b'r'
      else if c == 9
      then some b't'
      else if c == 11
      then some b'v'
      else none

  abbrev pub hex_escape : ℕ → Chars
  hex_escape c =
      if ltb c 0x20 || (c == 0x7f)
      then b'\\' ∷ b'x' ∷ hex_digit (c / 16) ∷ hex_digit (c % 16) ∷ []
      else if ltb c 0x10000
      then b'\\'
        ∷ b'u'
        ∷ hex_digit (c / 4096)
        ∷ hex_digit (c / 256 % 16)
        ∷ hex_digit (c / 16 % 16)
        ∷ hex_digit (c % 16)
        ∷ []
      else b'\\'
        ∷ b'U'
        ∷ hex_digit (c / 268435456)
        ∷ hex_digit (c / 16777216 % 16)
        ∷ hex_digit (c / 1048576 % 16)
        ∷ hex_digit (c / 65536 % 16)
        ∷ hex_digit (c / 4096 % 16)
        ∷ hex_digit (c / 256 % 16)
        ∷ hex_digit (c / 16 % 16)
        ∷ hex_digit (c % 16)
        ∷ []

  abbrev pub control : ℕ → Option ℕ → Chars
  control c none = hex_escape c
  control c (some l) = b'\\' ∷ l ∷ []

  unfoldable pub escape : ℕ → Chars
  escape c =
      if (c == b'"') || (c == b'\\')
      then b'\\' ∷ c ∷ []
      else if is_print c
      then c ∷ []
      else control c (letter_of c)

  abbrev pub escapes : Chars → Chars
  escapes [] = []
  escapes (c ∷ s) = escape c ++ escapes s

  unfoldable pub quote : Chars → Chars
  unfolding escape
  quote v = b'"' ∷ (escapes v ++ b'"' ∷ [])

-- So many hexadecimal digits, and what follows them.
abbrev pub hex_value : ℕ → ℕ → Chars → Option (ℕ × Chars)
hex_value zero v s = some (v, s)
hex_value (suc n) v [] = none
hex_value (suc n) v (c ∷ s) = elim (unhex c) [ none ↦ none | some d ↦ hex_value n (v * 16 + d) s ]

abbrev pub checked_byte : Option (ℕ × Chars) → Result LineError (ℕ × Chars)
checked_byte none = err bad_double_quotes
checked_byte (some (v, s)) = if ltb v 0x80 then ok (v, s) else err raw_byte

abbrev pub checked_rune : Option (ℕ × Chars) → Result LineError (ℕ × Chars)
checked_rune none = err bad_double_quotes
checked_rune (some (v, s)) = if is_rune v then ok (v, s) else err bad_double_quotes

abbrev pub is_octal : ℕ → Bool
is_octal c = leb b'0' c && leb c b'7'

abbrev pub octal : ℕ → Chars → Result LineError (ℕ × Chars)
octal c (d ∷ e ∷ s) =
    let v = (c - b'0') * 64 + (d - b'0') * 8 + (e - b'0') in
    if not (is_octal d && is_octal e) || ltb 255 v
    then err bad_double_quotes
    else if ltb v 0x80
    then ok (v, s)
    else err raw_byte
octal c s = err bad_double_quotes

-- What stands after a backslash.
unfoldable pub escaped : Chars → Result LineError (ℕ × Chars)
escaped [] = err bad_double_quotes
escaped (c ∷ s) =
    if c == b'a'
    then ok (7, s)
    else if c == b'b'
    then ok (8, s)
    else if c == b'f'
    then ok (12, s)
    else if c == b'n'
    then ok (10, s)
    else if c == b'r'
    then ok (13, s)
    else if c == b't'
    then ok (9, s)
    else if c == b'v'
    then ok (11, s)
    else if c == b'x'
    then checked_byte (hex_value 2 0 s)
    else if c == b'u'
    then checked_rune (hex_value 4 0 s)
    else if c == b'U'
    then checked_rune (hex_value 8 0 s)
    else if is_octal c
    then octal c s
    else if (c == b'\\') || (c == b'"')
    then ok (c, s)
    else err bad_double_quotes

-- `strconv.UnquoteChar` on a text that begins with `c` and goes on with `s`.
unfoldable pub unquote_char : ℕ → Chars → Result LineError (ℕ × Chars)
unfolding escaped
unquote_char c s = if c == b'\\' then escaped s else ok (c, s)

-- The text up to the closing quote, which must be the last character. Each round takes at least one
-- character, so the length is enough fuel.
unfoldable pub unquote_loop : ℕ → Chars → Result LineError Chars
unquote_loop zero s = err bad_double_quotes
unquote_loop (suc fuel) [] = err bad_double_quotes
unquote_loop (suc fuel) (c ∷ []) = if c == b'"' then ok [] else err bad_double_quotes
unquote_loop (suc fuel) (c ∷ d ∷ s) = do
  refuse_if ((c == b'"') || (c == 10)) bad_double_quotes
  (r, rest) ← unquote_char c (d ∷ s)
  out ← unquote_loop fuel rest
  ok (r ∷ out)

-- `strconv.Unquote` on a text that begins with a double quote; `s` is what follows it.
unfoldable pub unquote : Chars → Result LineError Chars
unfolding unquote_loop unquote_char
unquote s = unquote_loop (length s) s

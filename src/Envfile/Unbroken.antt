-- ===== src/Envfile/Unbroken.antt =====
-- internal/envfile/store.go: the line that is written for a key and a value is one line.
use oscar_corrtest.Base.{
  ℕ, ◌≡◌, inl, inr, refl, Bool, true, false, ◌||◌, List, [], ◌∷◌, ◌++◌, Option, none, some, any,
  all, Bool-cases, arith, ◌==◌, ltb,
}
use oscar_corrtest.Envfile.Text.{Chars}
use oscar_corrtest.Envfile.Quote.{quote, escape, escapes, control, letter_of, is_print, hex_escape}
use oscar_corrtest.Envfile.Quote.Back.{digits, two, four, eight}
use oscar_corrtest.Envfile.Line.{is_key, in_key, is_value, forbidden, needs_quotes, encode_value}
use oscar_corrtest.Envfile.Pieces.{is_full, is_break, any-append, full-append}
use oscar_corrtest.Envfile.Loading.{IsNewline}

digits_unbroken : (ds : List ℕ) → any is_break (digits ds []) ≡ false
digits_unbroken [] = refl
digits_unbroken (d ∷ ds) = ground (arith, digits_unbroken ds)

module _ (printable : ℕ → Bool) where
  hex_unbroken : (c : ℕ) → any is_break (hex_escape printable c) ≡ false
  hex_unbroken c = elim (Bool-cases (ltb c 0x20 || (c == 0x7f))) [
    | inl low ↦ rw low (digits_unbroken (two c))
    | inr high ↦ elim (Bool-cases (ltb c 0x10000)) [
      | inl short ↦ rw (high, short) (digits_unbroken (four c))
      | inr long ↦ rw (high, long) (digits_unbroken (eight c))
    ]
  ]

  control_unbroken :
      (c : ℕ) (o : Option ℕ)
      → letter_of printable c ≡ o
      → any is_break (control printable c o) ≡ false
  control_unbroken c none h = hex_unbroken c
  control_unbroken c (some l) h = ground arith

  escape_unbroken : (c : ℕ) → any is_break (escape printable c) ≡ false
  unfolding escape
  escape_unbroken c = elim (Bool-cases ((c == b'"') || (c == b'\\'))) [
    | inl marked ↦ rw marked (ground arith)
    | inr plain ↦ elim (Bool-cases (is_print printable c)) [
      | inl shown ↦ rw (plain, shown) (ground arith)
      | inr hidden ↦ rw (plain, hidden) (control_unbroken c (letter_of printable c) refl)
    ]
  ]

  escapes_unbroken : (v : Chars) → any is_break (escapes printable v) ≡ false
  escapes_unbroken [] = refl
  escapes_unbroken (c ∷ v) =
      rw (any-append is_break (escape printable c) (escapes printable v), escape_unbroken c)
        (escapes_unbroken v)

  allowed_unbroken : (v : Chars) → any forbidden v ≡ false → any is_break v ≡ false
  allowed_unbroken [] h = refl
  allowed_unbroken (c ∷ v) h = ground (arith, allowed_unbroken v)

  key_unbroken : (s : Chars) → all in_key s ≡ true → any is_break s ≡ false
  key_unbroken [] h = refl
  key_unbroken (c ∷ s) h = ground (arith, key_unbroken s)

  key_in : (s : Chars) → is_key s ≡ true → all in_key s ≡ true
  key_in [] h = cc
  key_in (c ∷ s) h = ground arith

  value_unbroken : (v : Chars) → is_value v ≡ true → any is_break (encode_value printable v) ≡ false
  unfolding encode_value quote
  value_unbroken v h = elim (Bool-cases (needs_quotes v)) [
    | inl special ↦
        rw special
          (rw (any-append is_break (escapes printable v) (b'"' ∷ []), escapes_unbroken v) refl)
    | inr plain ↦ rw plain (allowed_unbroken v (ground arith))
  ]

  pub new_line_full :
      (key v n : Chars)
      → is_key key ≡ true
      → is_value v ≡ true
      → IsNewline n
      → is_full (key ++ b'=' ∷ (encode_value printable v ++ n)) ≡ true
  new_line_full key v n k valid (full, _) =
      full-append key (b'=' ∷ (encode_value printable v ++ n)) (key_unbroken key (key_in key k))
        (full-append (b'=' ∷ encode_value printable v) n (value_unbroken v valid) full)

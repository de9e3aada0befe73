-- ===== src/Envfile/Quote/Back.antt =====
-- internal/envfile/store.go: `strconv.Unquote` undoes `strconv.Quote`.
use oscar_corrtest.Base.{
  ℕ, zero, suc, ◌+◌, ◌*◌, ◌/◌, ◌%◌, ◌<◌, ◌≤◌, ◌≡◌, refl, ap, ◌∙◌, Bool, true, false, ◌||◌, List, [],
  ◌∷◌, ◌++◌, Option, none, some, ok, ltb, ◌==◌, length, length-append, Bool-cases, Option-cases,
  inl, inr, arith, All,
}
use mathlib.Core.List.{append_assoc}
use oscar_corrtest.Envfile.Text.{Chars}
use oscar_corrtest.Envfile.Quote.{
  is_rune, hex_digit, unhex, is_print, letter_of, hex_escape, control, escape, escapes, hex_value,
  unquote_char, unquote_loop, unquote,
}

unhex-hex_digit : (d : ℕ) → d < 16 → unhex (hex_digit d) ≡ some d
unhex-hex_digit d h = ground arith

abbrev pub digits : List ℕ → Chars → Chars
digits [] s = s
digits (d ∷ ds) s = hex_digit d ∷ digits ds s

abbrev value : ℕ → List ℕ → ℕ
value v [] = v
value v (d ∷ ds) = value (v * 16 + d) ds

hex_value-digits :
    (ds : List ℕ) (v : ℕ) (s : Chars)
    → All (λ d. d < 16) ds
    → hex_value (length ds) v (digits ds s) ≡ some (value v ds, s)
hex_value-digits [] v s h = refl
hex_value-digits (d ∷ ds) v s (small, h) =
    rw (unhex-hex_digit d small, hex_value) (hex_value-digits ds (v * 16 + d) s h)

read_digits :
    (ds : List ℕ) (c : ℕ) (s : Chars)
    → All (λ d. d < 16) ds
    → value 0 ds ≡ c
    → hex_value (length ds) 0 (digits ds s) ≡ some (c, s)
read_digits ds c s h e = hex_value-digits ds 0 s h ∙ ap (λ n. some (n, s)) e

abbrev pub two : ℕ → List ℕ
two c = c / 16 ∷ c % 16 ∷ []

abbrev pub four : ℕ → List ℕ
four c = c / 4096 ∷ c / 256 % 16 ∷ c / 16 % 16 ∷ c % 16 ∷ []

abbrev pub eight : ℕ → List ℕ
eight c =
    c / 268435456
    ∷ c / 16777216 % 16
    ∷ c / 1048576 % 16
    ∷ c / 65536 % 16
    ∷ c / 4096 % 16
    ∷ c / 256 % 16
    ∷ c / 16 % 16
    ∷ c % 16
    ∷ []

two-digits : (c : ℕ) (s : Chars) → c < 256 → hex_value 2 0 (digits (two c) s) ≡ some (c, s)
two-digits c s h = read_digits (two c) c s (omega arith) (omega arith)

four-digits : (c : ℕ) (s : Chars) → c < 65536 → hex_value 4 0 (digits (four c) s) ≡ some (c, s)
four-digits c s h = read_digits (four c) c s (omega arith) (omega arith)

eight-digits :
    (c : ℕ) (s : Chars) → c < 4294967296 → hex_value 8 0 (digits (eight c) s) ≡ some (c, s)
eight-digits c s h = read_digits (eight c) c s (omega arith) (omega arith)

-- A text that begins as an escape does, read back.
abbrev Reads : ℕ → Chars → Chars → Type 0
Reads c [] s = Unit {0}
Reads c (e ∷ es) s = unquote_char e (es ++ s) ≡ ok (c, s)

abbrev Opens : Chars → Type 0
Opens [] = ⊥
Opens (e ∷ es) = ((e == b'"') || (e == 10)) ≡ false

Opens-pos : (es : Chars) → Opens es → 0 < length es
Opens-pos [] o = absurd o
Opens-pos (e ∷ es) o = omega arith

-- One round of the loop takes one escape.
loop_step :
    (es : Chars) (c fuel : ℕ) (s out : Chars)
    → Opens es
    → Reads c es s
    → 0 < length s
    → unquote_loop fuel s ≡ ok out
    → unquote_loop (suc fuel) (es ++ s) ≡ ok (c ∷ out)
unfolding unquote_loop
loop_step [] c fuel s out o r n h = absurd o
loop_step (e ∷ []) c fuel [] out o r n h = absurd (omega arith)
loop_step (e ∷ []) c fuel (d ∷ s) out o r n h = rw (o, r) (rw h refl)
loop_step (e ∷ f ∷ es) c fuel s out o r n h = rw (o, r) (rw h refl)

module _ (printable : ℕ → Bool) where
  hex_escape-Reads : (c : ℕ) (s : Chars) → is_rune c ≡ true → Reads c (hex_escape printable c) s
  unfolding unquote_char
  hex_escape-Reads c s r = elim (Bool-cases (ltb c 0x20 || (c == 0x7f))) [
    | inl low ↦ rw low (rw (two-digits c s (ground arith)) (ground arith))
    | inr high ↦ elim (Bool-cases (ltb c 0x10000)) [
      | inl short ↦ rw (high, short) (rw (four-digits c s (ground arith)) (rw r refl))
      | inr long ↦ rw (high, long) (rw (eight-digits c s (ground arith)) (rw r refl))
    ]
  ]

  control-Reads :
      (c : ℕ) (s : Chars)
      → is_rune c ≡ true
      → Reads c (control printable c (letter_of printable c)) s
  unfolding unquote_char
  control-Reads c s r = elim (Option-cases (letter_of printable c)) [
    | inl plain ↦ rw plain (hex_escape-Reads c s r)
    | inr (l, named) ↦ rw named (ground arith)
  ]

  escape-Reads : (c : ℕ) (s : Chars) → is_rune c ≡ true → Reads c (escape printable c) s
  unfolding escape unquote_char
  escape-Reads c s r = elim (Bool-cases ((c == b'"') || (c == b'\\'))) [
    | inl marked ↦ rw marked (ground arith)
    | inr plain ↦ elim (Bool-cases (is_print printable c)) [
      | inl shown ↦ rw (plain, shown) (ground arith)
      | inr hidden ↦ rw (plain, hidden) (control-Reads c s r)
    ]
  ]

  -- No escape begins with a quote or is a line break.
  escape-Opens : (c : ℕ) → Opens (escape printable c)
  unfolding escape
  escape-Opens c = elim (Bool-cases ((c == b'"') || (c == b'\\'))) [
    | inl marked ↦ rw marked refl
    | inr plain ↦ elim (Bool-cases (is_print printable c)) [
      | inl shown ↦ rw (plain, shown) (ground arith)
      | inr hidden ↦ rw (plain, hidden) (control-Opens c (letter_of printable c))
    ]
  ]
    where
      control-Opens : (d : ℕ) (l : Option ℕ) → Opens (control printable d l)
      control-Opens d none = ground arith
      control-Opens d (some l) = refl

  loop_reads :
      (v : Chars) (fuel : ℕ)
      → All (λ c. is_rune c ≡ true) v
      → length v < fuel
      → unquote_loop fuel (escapes printable v ++ b'"' ∷ []) ≡ ok v
  unfolding unquote_loop
  loop_reads v zero h k = absurd (omega arith)
  loop_reads [] (suc fuel) h k = refl
  loop_reads (c ∷ v) (suc fuel) (r, h) k =
      rw (append_assoc (escape printable c) (escapes printable v) (b'"' ∷ [])) (
        loop_step (escape printable c) c fuel (escapes printable v ++ b'"' ∷ []) v (escape-Opens c)
          (escape-Reads c (escapes printable v ++ b'"' ∷ []) r)
          (ground (arith, length-append (escapes printable v) (b'"' ∷ [])))
          (loop_reads v fuel h (omega arith)))

  escapes-long : (v : Chars) → length v ≤ length (escapes printable v)
  escapes-long [] = omega arith
  escapes-long (c ∷ v) = omega (
    arith,
    length-append (escape printable c) (escapes printable v),
    escapes-long v,
    Opens-pos (escape printable c) (escape-Opens c),
  )

  -- Unquoting what was quoted gives the text back, whatever characters it has.
  pub unquote-quote :
      (v : Chars)
      → All (λ c. is_rune c ≡ true) v
      → unquote (escapes printable v ++ b'"' ∷ []) ≡ ok v
  unfolding unquote
  unquote-quote v h =
      loop_reads v (length (escapes printable v ++ b'"' ∷ [])) h
        (omega (arith, length-append (escapes printable v) (b'"' ∷ []), escapes-long v))

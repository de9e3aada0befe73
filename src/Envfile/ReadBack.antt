-- ===== src/Envfile/ReadBack.antt =====
-- internal/envfile/store.go: what `parseLine` reads from the line that `rewrite` adds for a key.
use oscar_corrtest.Base.{
  ℕ, ◌≡◌, ◌↔◌, ◌⊎◌, refl, ap, ◌∙◌, Bool, true, false, not, ◌&&◌, [], ◌∷◌, ◌++◌, none, some, Result,
  ok, ◌>>=◌, if◌then◌else◌, any, all, All, Bool-cases, inl, inr, arith, ◌==◌,
}
use oscar_corrtest.Envfile.Text.{
  Chars, is_space, trim, trim_right, after_prefix, cut, before_comment,
}
use oscar_corrtest.Envfile.Quote.{LineError, is_rune, quote, escapes}
use oscar_corrtest.Envfile.Quote.Back.{unquote-quote}
use oscar_corrtest.Envfile.Trim.{
  trim_right-append, trim_left-cons, trim-trim_right, all-trim, trim_solid,
}
use oscar_corrtest.Envfile.Line.{
  Parsed, assign, is_key, in_key, raw_value, assignment, parse_trimmed, parse_line, needs_quotes,
  is_special, encode_value,
}

key_solid : (c : ℕ) → in_key c ≡ true → is_space c ≡ false
unfolding is_space
key_solid c h = ground arith

all_key_solid : (s : Chars) → all in_key s ≡ true → all (λ c. not (is_space c)) s ≡ true
all_key_solid [] h = refl
all_key_solid (c ∷ s) h = ground (arith, key_solid c, all_key_solid s)

cut_key : (s e : Chars) → all in_key s ≡ true → cut b'=' (s ++ b'=' ∷ e) ≡ some (s, e)
unfolding cut
cut_key [] e h = refl
cut_key (c ∷ s) e h =
    let other : (c == b'=') ≡ false = ground arith in rw (other, cut_key s e (ground arith)) refl

trim_line :
    (c : ℕ) (s e : Chars)
    → is_space c ≡ false
    → trim (c ∷ (s ++ b'=' ∷ e)) ≡ c ∷ (s ++ b'=' ∷ trim_right e)
unfolding trim is_space
trim_line c s e h = rw (trim_left-cons c (s ++ b'=' ∷ e) h) (trim_right-append (c ∷ s) b'=' e refl)

parse_key :
    (c : ℕ) (s e : Chars)
    → is_key (c ∷ s) ≡ true
    → parse_trimmed (c ∷ (s ++ b'=' ∷ e)) ≡ (raw_value (trim e) >>= λ v. ok (assign (c ∷ s) v))
unfolding parse_trimmed assignment after_prefix
parse_key c s e h =
    let first : (c == b'#') ≡ false = ground arith in
    let other : (b'e' == c) ≡ false = ground arith in
    let solid : all (λ d. not (is_space d)) (c ∷ s) ≡ true = all_key_solid (c ∷ s) (ground arith) in
    rw (first, other, cut_key (c ∷ s) e (ground arith)) (rw (trim_solid (c ∷ s) solid, h) refl)

-- The line of a key is read as an assignment to it, of what its trimmed text stands for.
line_of_key :
    (key e : Chars)
    → is_key key ≡ true
    → parse_line (key ++ b'=' ∷ e) ≡ (raw_value (trim e) >>= λ v. ok (assign key v))
unfolding parse_line
line_of_key [] e h = cc
line_of_key (c ∷ s) e h = rw (trim_line c s e (key_solid c (ground arith))) (
    parse_key c s (trim_right e) h
    ∙ ap (λ t. raw_value t >>= λ v. ok (assign (c ∷ s) v)) (trim-trim_right e))

no_comment : (s : Chars) → any is_special s ≡ false → before_comment s ≡ none
unfolding before_comment
no_comment [] h = refl
no_comment (c ∷ []) h = refl
no_comment (c ∷ d ∷ s) h =
    let here : ((c == 0x20) && (d == b'#')) ≡ false = ground arith in
    rw (here, no_comment (d ∷ s) (ground arith)) refl

raw_plain : (s : Chars) → any is_special s ≡ false → raw_value s ≡ ok s
unfolding raw_value
raw_plain [] h = refl
raw_plain (c ∷ s) h =
    let single : (c == b'\'') ≡ false = ground arith in
    let double : (c == b'"') ≡ false = ground arith in
    rw (single, double, no_comment (c ∷ s) h) refl

all-any : (p : ℕ → Bool) (s : Chars) → any p s ≡ not (all (λ c. not (p c)) s)
all-any p [] = refl
all-any p (c ∷ s) = ground (arith, all-any p s)

trim_plain : (s : Chars) → any is_special s ≡ false → any is_special (trim s) ≡ false
trim_plain s h =
    ground (
      arith,
      all-any is_special s,
      all-any is_special (trim s),
      all-trim (λ c. not (is_special c)) s,
    )

module _ (printable : ℕ → Bool) where
  abbrev quoted : Chars → Chars
  quoted v = b'"' ∷ (escapes printable v ++ b'"' ∷ [])

  trim-quoted : (v : Chars) → trim (quoted v) ≡ quoted v
  unfolding trim is_space trim_right
  trim-quoted v =
      rw (trim_left-cons b'"' (escapes printable v ++ b'"' ∷ []) refl)
        (trim_right-append (b'"' ∷ escapes printable v) b'"' [] refl)

  raw_quoted : (v : Chars) → All (λ c. is_rune c ≡ true) v → raw_value (quoted v) ≡ ok v
  unfolding raw_value
  raw_quoted v h = unquote-quote printable v h

  -- The line that is written for a key and a value is read as an assignment to the key, of the value
  -- itself if it was put in quotes, and of the trimmed value if not.
  pub parse_line-encode_value :
      (key v : Chars)
      → is_key key ≡ true
      → All (λ c. is_rune c ≡ true) v
      → parse_line (key ++ b'=' ∷ encode_value printable v)
        ≡ ok (assign key (if needs_quotes v then v else trim v))
  unfolding encode_value quote
  parse_line-encode_value key v h runes = elim (Bool-cases (needs_quotes v)) [
    | inl special ↦
        rw special (line_of_key key (quoted v) h ∙ rw (trim-quoted v, raw_quoted v runes) refl)
    | inr plain ↦
        rw plain
          (line_of_key key v h ∙ rw (raw_plain (trim v) (trim_plain v (unquoted v plain))) refl)
  ]
    where
      unquoted : (s : Chars) → needs_quotes s ≡ false → any is_special s ≡ false
      unquoted [] k = cc
      unquoted (c ∷ s) k = k

  -- The line that is written for a key and a value of code points that UTF-8 can encode is read as the
  -- assignment of that very value exactly if the value was put in quotes or has no space at its ends.
  pub reads_back_iff :
      (key v : Chars)
      → is_key key ≡ true
      → All (λ c. is_rune c ≡ true) v
      → (parse_line (key ++ b'=' ∷ encode_value printable v) ≡ ok (assign key v))
        ↔ ((needs_quotes v ≡ true) ⊎ (trim v ≡ v))
  reads_back_iff key v h runes =
      rw (parse_line-encode_value key v h runes)
        (λ e. written e (Bool-cases (needs_quotes v)), λ c. ground arith)
    where
      written :
          ◌≡◌ {A = Result LineError Parsed}
            (ok (assign key (if needs_quotes v then v else trim v)))
            (ok (assign key v))
          → (needs_quotes v ≡ true) ⊎ (needs_quotes v ≡ false)
          → (needs_quotes v ≡ true) ⊎ (trim v ≡ v)
      written e (inl special) = inl special
      written e (inr plain) = inr (cc (rw plain at e))

-- ===== src/Envfile/Text.antt =====
-- internal/envfile/store.go: the texts of the managed file and the functions of Go's `strings` that the
-- parser calls on them. A text is the list of its characters' code points.
use mathlib.Core.Option
use oscar_corrtest.Base.{
  ℕ, ◌+◌, Bool, true, false, ◌&&◌, ◌||◌, List, [], ◌∷◌, Option, none, some, ltb, leb, ◌==◌,
  if◌then◌else◌,
}

abbrev pub Chars : Type 0
Chars = List ℕ

-- `len`: how many bytes the text has in UTF-8.
abbrev pub width : ℕ → ℕ
width c = if ltb c 0x80 then 1 else if ltb c 0x800 then 2 else if ltb c 0x10000 then 3 else 4

abbrev pub bytes : Chars → ℕ
bytes [] = 0
bytes (c ∷ s) = width c + bytes s

unfoldable pub same : Chars → Chars → Bool
same [] [] = true
same (c ∷ s) (d ∷ t) = (c == d) && same s t
same s t = false

-- `unicode.IsSpace`.
unfoldable pub is_space : ℕ → Bool
is_space c =
    (leb 9 c && leb c 13)
    || (c == 0x20)
    || (c == 0x85)
    || (c == 0xa0)
    || (c == 0x1680)
    || (leb 0x2000 c && leb c 0x200a)
    || (c == 0x2028)
    || (c == 0x2029)
    || (c == 0x202f)
    || (c == 0x205f)
    || (c == 0x3000)

unfoldable pub trim_left : Chars → Chars
trim_left [] = []
trim_left (c ∷ s) = let rest = trim_left s in if is_space c then rest else c ∷ s

abbrev pub put_back : ℕ → Chars → Chars
put_back c [] = if is_space c then [] else c ∷ []
put_back c (d ∷ s) = c ∷ d ∷ s

unfoldable pub trim_right : Chars → Chars
trim_right [] = []
trim_right (c ∷ s) = put_back c (trim_right s)

-- `strings.TrimSpace`.
unfoldable pub trim : Chars → Chars
unfolding trim_left trim_right
trim s = trim_right (trim_left s)

-- `strings.CutPrefix`: what follows the prefix, if the text has it.
unfoldable pub after_prefix : Chars → Chars → Option Chars
after_prefix [] s = some s
after_prefix (p ∷ ps) [] = none
after_prefix (p ∷ ps) (c ∷ s) = let rest = after_prefix ps s in if p == c then rest else none

abbrev pub in_front : ℕ → Option (Chars × Chars) → Option (Chars × Chars)
in_front c none = none
in_front c (some (before, after)) = some (c ∷ before, after)

-- `strings.Cut` at one character: what stands before it, and what stands after it.
unfoldable pub cut : ℕ → Chars → Option (Chars × Chars)
cut mark [] = none
cut mark (c ∷ s) = if c == mark then some ([], s) else in_front c (cut mark s)

-- `raw[:strings.Index(raw, " #")]`, if there is such a place.
unfoldable pub before_comment : Chars → Option Chars
before_comment [] = none
before_comment (c ∷ []) = none
before_comment (c ∷ d ∷ s) =
    let rest = Option.map (λ r. c ∷ r) (before_comment (d ∷ s)) in
    if (c == 0x20) && (d == b'#') then some [] else rest

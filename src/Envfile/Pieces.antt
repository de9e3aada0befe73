-- ===== src/Envfile/Pieces.antt =====
-- internal/envfile/store.go: splitting a document into lines gives back the lines that it was put together from.
use oscar_corrtest.Base.{
  ℕ, ◌+◌, ◌≤◌, ◌<◌, ◌≡◌, ◌⊎◌, inl, inr, refl, ap, ◌∙◌, Bool, true, false, not, ◌&&◌, ◌||◌, List, [],
  ◌∷◌, ◌++◌, any, keep, Bool-cases, arith, ◌==◌, ltb, leb, ==_iff,
}
use mathlib.Core.List.{append-nil}
use oscar_corrtest.Envfile.Text.{Chars, bytes, width}
use oscar_corrtest.Envfile.Overlay.{
  max_file_bytes, longer, pieces, split_lines, document, ends_line, end_last,
}

abbrev pub is_break : ℕ → Bool
is_break c = c == 10

-- A line with its end, and no other end in it.
abbrev pub is_full : Chars → Bool
is_full [] = false
is_full (c ∷ []) = is_break c
is_full (c ∷ d ∷ s) = not (is_break c) && is_full (d ∷ s)

-- A last line without an end.
abbrev pub is_partial : Chars → Bool
is_partial [] = false
is_partial (c ∷ s) = not (any is_break (c ∷ s)) && ltb (bytes (c ∷ s)) max_file_bytes

-- All lines have ends but the last, which may lack one.
abbrev pub IsSplit : List Chars → Type 0
IsSplit [] = Unit
IsSplit (l ∷ ls) = ((is_full l ≡ true) ⊎ ((is_partial l ≡ true) × (ls ≡ []))) × IsSplit ls

pub keep-IsSplit : (p : Chars → Bool) (ls : List Chars) → IsSplit ls → IsSplit (keep p ls)
keep-IsSplit p [] h = tt
keep-IsSplit p (l ∷ ls) (inl full, h) = elim (Bool-cases (p l)) [
  | inl kept ↦ rw kept (inl full, keep-IsSplit p ls h)
  | inr dropped ↦ rw dropped (keep-IsSplit p ls h)
]
keep-IsSplit p (l ∷ ls) (inr (part, last), h) = elim (Bool-cases (p l)) [
  | inl kept ↦ rw (kept, last) (inr (part, refl), tt)
  | inr dropped ↦ rw dropped (keep-IsSplit p ls h)
]

pieces_full : (l s : Chars) → is_full l ≡ true → pieces (l ++ s) ≡ l ∷ pieces s
unfolding pieces
pieces_full [] s h = cc
pieces_full (c ∷ []) s h = rw h (ground arith)
pieces_full (c ∷ d ∷ l) s h =
    let inner : is_break c ≡ false = ground arith in
    rw (inner, pieces_full (d ∷ l) s (ground arith)) refl

pieces_unbroken : (c : ℕ) (l : Chars) → any is_break (c ∷ l) ≡ false → pieces (c ∷ l) ≡ (c ∷ l) ∷ []
unfolding pieces
pieces_unbroken c [] h = let inner : is_break c ≡ false = ground arith in rw inner refl
pieces_unbroken c (d ∷ l) h =
    let inner : is_break c ≡ false = ground arith in
    rw (inner, pieces_unbroken d l (ground arith)) refl

pieces-document : (ls : List Chars) → IsSplit ls → pieces (document ls) ≡ ls
unfolding pieces
pieces-document [] h = refl
pieces-document (l ∷ ls) (inl full, h) =
    pieces_full l (document ls) full ∙ ap (λ r. l ∷ r) (pieces-document ls h)
pieces-document ([] ∷ ls) (inr (part, last), h) = cc
pieces-document ((c ∷ l) ∷ ls) (inr (part, last), h) =
    rw (last, append-nil) (pieces_unbroken c l (ground arith))

pub any-append : (p : ℕ → Bool) (s t : Chars) → any p (s ++ t) ≡ (any p s || any p t)
any-append p [] t = refl
any-append p (c ∷ s) t = ground (arith, any-append p s t)

broken_full : (l : Chars) → is_full l ≡ true → any is_break l ≡ true
broken_full [] h = cc
broken_full (c ∷ []) h = ground arith
broken_full (c ∷ d ∷ l) h = ground (arith, broken_full (d ∷ l))

pub split_lines-document : (ls : List Chars) → IsSplit ls → split_lines (document ls) ≡ ls
unfolding split_lines
split_lines-document [] h = pieces-document [] tt
split_lines-document (l ∷ ls) (inl full, h) =
    let broken : any is_break (l ++ document ls) ≡ true =
      rw (any-append is_break l (document ls), broken_full l full) refl in
    ground (arith, broken, pieces-document (l ∷ ls) (inl full, h))
split_lines-document ([] ∷ ls) (inr (part, last), h) = cc
split_lines-document ((c ∷ l) ∷ ls) (inr (part, last), h) =
    rw (last, append-nil) (ground (arith, pieces_unbroken c l))

-- A piece with one more character in front, where it does not become too long.
longer-IsSplit :
    (c : ℕ) (ls : List Chars)
    → is_break c ≡ false
    → IsSplit ls
    → (any is_break (document ls) ≡ true) ⊎ (width c + bytes (document ls) < max_file_bytes)
    → IsSplit (longer c ls)
longer-IsSplit c [] b h room =
    (elim room [ inl none ↦ cc | inr small ↦ inr (ground arith, refl) ], tt)
longer-IsSplit c ([] ∷ ls) b (inl full, h) room = cc
longer-IsSplit c ((d ∷ l) ∷ ls) b (inl full, h) room = (inl (ground arith), h)
longer-IsSplit c ([] ∷ ls) b (inr (part, last), h) room = cc
longer-IsSplit c ((d ∷ l) ∷ ls) b (inr (part, last), h) room =
    let room' = rw (last, append-nil) at room in (inr (ground arith, last), h)

pub document-pieces : (s : Chars) → document (pieces s) ≡ s
unfolding pieces
document-pieces [] = refl
document-pieces (c ∷ s) = elim (Bool-cases (is_break c)) [
  | inl end ↦ rw end (cc (document-pieces s, (==_iff c 10).0 end))
  | inr inner ↦ rw inner (document-longer (pieces s) ∙ ap (λ r. c ∷ r) (document-pieces s))
]
  where
    document-longer : (ls : List Chars) → document (longer c ls) ≡ c ∷ document ls
    document-longer [] = refl
    document-longer (l ∷ ls) = refl

pieces-IsSplit :
    (s : Chars)
    → bytes s ≤ max_file_bytes
    → (any is_break s ≡ true) ⊎ (bytes s < max_file_bytes)
    → IsSplit (pieces s)
unfolding pieces
pieces-IsSplit [] h room = tt
pieces-IsSplit (c ∷ s) h room =
    let small : bytes s < max_file_bytes = ground arith in
    let rest = pieces-IsSplit s (omega arith) (inr small) in
    elim (Bool-cases (is_break c)) [
      | inl end ↦ rw end (inl refl, rest)
      | inr inner ↦ rw inner (
          longer-IsSplit c (pieces s) inner rest (
            rw (document-pieces s)
              (elim room [ inl broken ↦ inl (ground arith) | inr fits ↦ inr (ground arith) ])))
    ]

-- What is read is split, and nothing but a file of the full size with no end of a line is lost.
pub split_lines-IsSplit : (s : Chars) → bytes s ≤ max_file_bytes → IsSplit (split_lines s)
unfolding split_lines
split_lines-IsSplit s h = elim (Bool-cases (leb max_file_bytes (bytes s) && not (any is_break s))) [
  | inl lost ↦ rw lost tt
  | inr read ↦ rw read (
      pieces-IsSplit s h (elim (Bool-cases (any is_break s)) [
        | inl broken ↦ inl broken
        | inr whole ↦ inr (ground arith)
      ]))
]

pub full-append :
    (l m : Chars) → any is_break l ≡ false → is_full m ≡ true → is_full (l ++ m) ≡ true
full-append [] m b h = h
full-append (c ∷ []) [] b h = cc
full-append (c ∷ []) (d ∷ m) b h = ground arith
full-append (c ∷ d ∷ l) m b h = ground (arith, full-append (d ∷ l) m)

ends_full : (l : Chars) → is_full l ≡ true → ends_line l ≡ true
ends_full [] h = cc
ends_full (c ∷ []) h = h
ends_full (c ∷ d ∷ l) h = ends_full (d ∷ l) (ground arith)

ends_partial : (l : Chars) → is_partial l ≡ true → (ends_line l ≡ false) × (any is_break l ≡ false)
ends_partial [] h = cc
ends_partial (c ∷ l) h = (unbroken c l (ground arith), ground arith)
  where
    unbroken : (d : ℕ) (m : Chars) → any is_break (d ∷ m) ≡ false → ends_line (d ∷ m) ≡ false
    unbroken d [] k = ground arith
    unbroken d (e ∷ m) k = unbroken e m (ground arith)

pub end_last-IsSplit :
    (newline : Chars) (ls : List Chars) (l : Chars)
    → is_full newline ≡ true
    → IsSplit ls
    → is_full l ≡ true
    → IsSplit (end_last newline ls ++ l ∷ [])
unfolding end_last
end_last-IsSplit newline [] l n h k = (inl k, tt)
end_last-IsSplit newline (m ∷ []) l n (inl full, h) k =
    rw (ends_full m full) (inl full, (inl k, tt))
end_last-IsSplit newline (m ∷ []) l n (inr (part, last), h) k =
    let (open_end, whole) = ends_partial m part in
    rw open_end (inl (full-append m newline whole n), (inl k, tt))
end_last-IsSplit newline (m ∷ o ∷ ls) l n (inl full, h) k =
    (inl full, end_last-IsSplit newline (o ∷ ls) l n h k)
end_last-IsSplit newline (m ∷ o ∷ ls) l n (inr (part, last), h) k = cc

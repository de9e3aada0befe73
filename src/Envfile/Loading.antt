-- ===== src/Envfile/Loading.antt =====
-- internal/envfile/store.go: what the loop of `Open` reads from lines that an edit keeps, ends or adds.
use oscar_corrtest.Base.{
  ℕ, ◌≡◌, inl, inr, refl, sym, ap, ◌∙◌, true, false, List, [], ◌∷◌, ◌++◌, some, ok, ◌>>=◌,
  if◌then◌else◌, Bool-cases, Result-cases, ok-injective, arith, ◌==◌, ==_iff,
}
use oscar_corrtest.Envfile.Text.{Chars, same, is_space, trim, trim_right, put_back}
use oscar_corrtest.Envfile.Trim.{trim-trim_right}
use oscar_corrtest.Envfile.Line.{Parsed, blank, assign, parse_line, parse_trimmed}
use oscar_corrtest.Envfile.Overlay.{
  Values, trim_suffix, body, assigned, load, assigns, other_lines, ends_line, end_last,
}
use oscar_corrtest.Envfile.Pieces.{is_full}

trim_suffix-trim_right :
    (c : ℕ) (s : Chars) → is_space c ≡ true → trim_right (trim_suffix c s) ≡ trim_right s
unfolding trim_suffix trim_right
trim_suffix-trim_right c [] h = refl
trim_suffix-trim_right c (d ∷ []) h = elim (Bool-cases (d == c)) [
  | inl ends ↦
      let space : is_space d ≡ true = ap is_space ((==_iff d c).0 ends) ∙ h in rw (ends, space) refl
  | inr other ↦ rw other refl
]
trim_suffix-trim_right c (d ∷ e ∷ s) h = ap (put_back d) (trim_suffix-trim_right c (e ∷ s) h)

parse_line-trim_right : (s t : Chars) → trim_right s ≡ trim_right t → parse_line s ≡ parse_line t
unfolding parse_line
parse_line-trim_right s t e =
    ap parse_trimmed (sym (trim-trim_right s) ∙ ap trim e ∙ trim-trim_right t)

-- The end of a line makes no difference to what is read from it.
parse_body : (l : Chars) → parse_line (body l) ≡ parse_line l
unfolding is_space
parse_body l =
    parse_line-trim_right (body l) l
      (trim_suffix-trim_right 13 (trim_suffix 10 l) refl ∙ trim_suffix-trim_right 10 l refl)

trim_right-spaces : (s t : Chars) → trim_right t ≡ [] → trim_right (s ++ t) ≡ trim_right s
unfolding trim_right
trim_right-spaces [] t h = h
trim_right-spaces (c ∷ s) t h = ap (put_back c) (trim_right-spaces s t h)

-- The line ends that the store uses.
abbrev pub IsNewline : Chars → Type 0
IsNewline n = (is_full n ≡ true) × (trim_right n ≡ [])

-- `same` is equality.
pub same-eq : (s t : Chars) → same s t ≡ true → s ≡ t
unfolding same
same-eq [] [] h = refl
same-eq [] (d ∷ t) h = cc
same-eq (c ∷ s) [] h = cc
same-eq (c ∷ s) (d ∷ t) h = cc ((==_iff c d).0 (ground arith), same-eq s t (ground arith))

pub same_refl : (s : Chars) → same s s ≡ true
unfolding same
same_refl [] = refl
same_refl (c ∷ s) = ground (arith, same_refl s)

pub same_sym : (s t : Chars) → same s t ≡ false → same t s ≡ false
same_sym s t h = elim (Bool-cases (same t s)) [
  | inl equal ↦ cc (same_refl s, ap (same s) (same-eq t s equal))
  | inr other ↦ other
]

pub load-append :
    (ls ks : List Chars) (m : Values Chars) → load (ls ++ ks) m ≡ (load ls m >>= λ n. load ks n)
unfolding load
load-append [] ks m = refl
load-append (l ∷ ls) ks m = elim (Result-cases (parse_line (body l))) [
  | inl (p, read) ↦ rw read (load-append ls ks (assigned p m))
  | inr (e, bad) ↦ rw bad refl
]

pub parse_line-newline : (l n : Chars) → IsNewline n → parse_line (body (l ++ n)) ≡ parse_line l
parse_line-newline l n (_, spaces) =
    parse_body (l ++ n) ∙ parse_line-trim_right (l ++ n) l (trim_right-spaces l n spaces)

pub load-end_last :
    (n : Chars) (ls : List Chars) (m : Values Chars)
    → IsNewline n
    → load (end_last n ls) m ≡ load ls m
unfolding load end_last
load-end_last n [] m h = refl
load-end_last n (l ∷ []) m h = elim (Bool-cases (ends_line l)) [
  | inl ended ↦ rw ended refl
  | inr open_end ↦ rw open_end (rw (parse_line-newline l n h, parse_body l) refl)
]
load-end_last n (l ∷ k ∷ ls) m h = elim (Result-cases (parse_line (body l))) [
  | inl (p, read) ↦ rw read (load-end_last n (k ∷ ls) (assigned p m) h)
  | inr (e, bad) ↦ rw bad refl
]

-- Agreement away from a key is kept by a line that is read on both sides, and by an assignment to the key on
-- one of them.
agree_both :
    (key : Chars) (p : Parsed) (m m' : Values Chars)
    → ((j : Chars) → same key j ≡ false → m' j ≡ m j)
    → (j : Chars) → same key j ≡ false
    → assigned p m' j ≡ assigned p m j
agree_both key blank m m' agree j h = agree j h
agree_both key (assign k v) m m' agree j h = ap (λ o. if same k j then some v else o) (agree j h)

agree_one :
    (key : Chars) (p : Parsed) (m m' : Values Chars)
    → assigns key (ok p) ≡ true
    → ((j : Chars) → same key j ≡ false → m' j ≡ m j)
    → (j : Chars) → same key j ≡ false
    → m' j ≡ assigned p m j
agree_one key blank m m' a agree j h = cc
agree_one key (assign k v) m m' a agree j h =
    let other : same k j ≡ false = ap (λ t. same t j) (same-eq k key a) ∙ h in rw other (agree j h)

untouched :
    (key : Chars) (p : Parsed) (m : Values Chars) (j : Chars)
    → assigns key (ok p) ≡ false
    → same key j ≡ true
    → assigned p m j ≡ m j
untouched key blank m j a h = refl
untouched key (assign k v) m j a h =
    let other : same k j ≡ false = ap (same k) (sym (same-eq key j h)) ∙ a in rw other refl

-- Without the assignments to one key, the file gives every other key what it gave before.
pub load-other_lines :
    (key : Chars) (ls : List Chars) (m m' : Values Chars) (out : Values Chars)
    → ((j : Chars) → same key j ≡ false → m' j ≡ m j)
    → load ls m ≡ ok out
    → (out' : Values Chars) × (load (other_lines key ls) m' ≡ ok out')
      × ((j : Chars) → out' j ≡ (if same key j then m' j else out j))
unfolding load other_lines
load-other_lines key [] m m' out agree h = (
  m',
  refl,
  λ j. elim (Bool-cases (same key j)) [
    | inl own ↦ rw own refl
    | inr other ↦ rw other (agree j other ∙ ap (λ (f : Values Chars). f j) (ok-injective h))
  ],
)
load-other_lines key (l ∷ ls) m m' out agree h = elim (Result-cases (parse_line (body l))) [
  | inr (e, bad) ↦ cc (rw bad at h)
  | inl (p, read) ↦
      let rest = rw read at h in
      elim (Bool-cases (assigns key (ok p))) [
        | inl own ↦
            rw (read, own)
              (load-other_lines key ls (assigned p m) m' out (agree_one key p m m' own agree) rest)
        | inr other ↦
            let (out', loaded, values) =
              load-other_lines key ls (assigned p m) (assigned p m') out
                (agree_both key p m m' agree) rest in
            rw (read, other)
              (rw read (
                out',
                loaded,
                λ j. values j ∙ elim (Bool-cases (same key j)) [
                  | inl here ↦ rw here (untouched key p m' j other here)
                  | inr there ↦ rw there refl
                ],
              ))
      ]
]

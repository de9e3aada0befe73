-- ===== src/Envfile/Reopen.antt =====
-- internal/envfile/store.go: what a later process reads from the file that the edits of this one have left.
use oscar_corrtest.Base.{
  ℕ, ◌≤◌, ◌≡◌, ◌⊎◌, inl, inr, refl, sym, ap, ◌∙◌, Bool, true, false, not, ◌&&◌, List, [], ◌∷◌, ◌++◌,
  Option, none, some, Result, ok, err, ◌>>=◌, if◌then◌else◌, any, All, Bool-cases, Result-cases,
  >>=-eq-ok, ok-injective, refuse_if-eq-ok, arith, ltb, leb,
}
use mathlib.Core.List.{append_assoc}
use mathlib.Core.Path.{subst}
use oscar_corrtest.Envfile.Text.{Chars, bytes, same, trim, trim_right, is_space}
use oscar_corrtest.Envfile.Quote.{is_rune}
use oscar_corrtest.Envfile.Line.{assign, is_key, is_value, parse_line, needs_quotes, encode_value}
use oscar_corrtest.Envfile.ReadBack.{parse_line-encode_value}
use oscar_corrtest.Envfile.Overlay.{
  max_file_bytes, Values, update, Store, EnvError, too_large, unwritable, body, load, nothing,
  open_store, other_lines, end_last, document, new_lines, rewrite, replace, clear, split_lines,
  has_crlf, contents, is_empty, no_path, bad_key, bad_value,
}
use oscar_corrtest.Envfile.Unbroken.{new_line_full}
use oscar_corrtest.Envfile.Pieces.{
  is_break, document-pieces, IsSplit, keep-IsSplit, split_lines-document, split_lines-IsSplit,
  end_last-IsSplit,
}
use oscar_corrtest.Envfile.Loading.{
  IsNewline, load-append, parse_line-newline, load-end_last, load-other_lines,
}

-- The lines are those of a file that gives every key the value that the store holds.
pub record IsSynced (s : Store) : Type 0 where
  pub split : IsSplit s.lines
  pub newline : IsNewline s.newline
  pub small : bytes (document s.lines) ≤ max_file_bytes
  pub read : Values Chars
  pub loads : load s.lines nothing ≡ ok read
  pub agrees : (j : Chars) → read j ≡ s.managed j

chosen-IsNewline : (b : Bool) → IsNewline (if b then 13 ∷ 10 ∷ [] else 10 ∷ [])
unfolding trim_right is_space
chosen-IsNewline true = (refl, refl)
chosen-IsNewline false = (refl, refl)

document-split : (s : Chars) → bytes (document (split_lines s)) ≤ bytes s
unfolding split_lines
document-split s = elim (Bool-cases (leb max_file_bytes (bytes s) && not (any is_break s))) [
  | inl lost ↦ rw lost (omega arith)
  | inr read ↦ rw read (rw (document-pieces s) (omega arith))
]

pub open_store-IsSynced :
    (path : Chars) (file : Option Chars) {s : Store} → open_store path file ≡ ok s → IsSynced s
unfolding open_store
open_store-IsSynced path file {s} h =
    let (named, h1) = refuse_if-eq-ok (is_empty (trim path)) no_path _ h in
    let (text, got, h2) = >>=-eq-ok (contents file) _ h1 in
    let (fits, h3) = refuse_if-eq-ok (ltb max_file_bytes (bytes text)) too_large _ h2 in
    let (m, loaded, h4) = >>=-eq-ok (load (split_lines text) nothing) _ h3 in
    subst IsSynced (ok-injective h4) (record {
      split = split_lines-IsSplit text (ground arith);
      newline = chosen-IsNewline (has_crlf text);
      small = ground (arith, document-split text);
      read = m;
      loads = loaded;
      agrees = λ j. refl;
    })

-- A later process reads from the file what this one holds.
pub reopened :
    (path : Chars) (s : Store)
    → is_empty (trim path) ≡ false
    → IsSynced s
    → (s' : Store) × (open_store path (some (document s.lines)) ≡ ok s')
      × ((j : Chars) → s'.managed j ≡ s.managed j)
unfolding open_store
reopened path s named y =
    let again = split_lines-document s.lines y.split in
    let fits : ltb max_file_bytes (bytes (document s.lines)) ≡ false = ground (arith, y.small) in
    (
      record {
        managed = y.read;
        live = nothing;
        lines = split_lines (document s.lines);
        newline = if has_crlf (document s.lines) then 13 ∷ 10 ∷ [] else 10 ∷ [];
      },
      rw (named, fits) (rw (again, y.loads) refl),
      y.agrees,
    )

load_one :
    (l key v : Chars) (m : Values Chars)
    → parse_line (body l) ≡ ok (assign key v)
    → load (l ∷ []) m ≡ ok (update m key (some v))
unfolding load
load_one l key v m h = rw h refl

module _ (printable : ℕ → Bool) where
  -- Does the value stay as it is when it is written and read?
  abbrev pub IsKept : Chars → Type 0
  IsKept v = All (λ c. is_rune c ≡ true) v × ((needs_quotes v ≡ true) ⊎ (trim v ≡ v))

  read_new_line :
      (key v n : Chars)
      → is_key key ≡ true
      → IsKept v
      → IsNewline n
      → parse_line (body (key ++ b'=' ∷ (encode_value printable v ++ n))) ≡ ok (assign key v)
  read_new_line key v n k (runes, kept) h =
      ap (λ l. parse_line (body l)) (sym (append_assoc key (b'=' ∷ encode_value printable v) n))
      ∙ parse_line-newline (key ++ b'=' ∷ encode_value printable v) n h
      ∙ parse_line-encode_value printable key v k runes
      ∙ ground (arith, kept)

  clear-IsSynced :
      (written : Bool) (key : Chars) (s : Store) {s' : Store}
      → IsSynced s
      → clear printable written key s ≡ ok s'
      → IsSynced s'
  unfolding clear rewrite new_lines other_lines
  clear-IsSynced written key s y h =
      let (_, h1) = refuse_if-eq-ok (not (is_key key)) bad_key _ h in
      let (fits, h2) =
        refuse_if-eq-ok (ltb max_file_bytes (bytes (document (other_lines key s.lines)))) too_large
          _ h1 in
      let (_, h3) = refuse_if-eq-ok (not written) unwritable _ h2 in
      let (out, loaded, values) =
        load-other_lines key s.lines nothing nothing y.read (λ j k. refl) y.loads in
      subst IsSynced (ok-injective h3) (record {
        split = keep-IsSplit _ s.lines y.split;
        newline = y.newline;
        small = ground arith;
        read = out;
        loads = loaded;
        agrees = λ j. values j ∙ ap (λ o. if same key j then none else o) (y.agrees j);
      })

  replace-IsSynced :
      (written : Bool) (key v : Chars) (s : Store) {s' : Store}
      → IsKept v
      → IsSynced s
      → replace printable written key v s ≡ ok s'
      → IsSynced s'
  unfolding replace rewrite new_lines other_lines
  replace-IsSynced written key v s kept y h =
      let line = key ++ b'=' ∷ (encode_value printable v ++ s.newline) in
      let (good, h1) = refuse_if-eq-ok (not (is_key key)) bad_key _ h in
      let (valid, h2) = refuse_if-eq-ok (not (is_value v)) bad_value _ h1 in
      let (fits, h3) =
        refuse_if-eq-ok
          (ltb max_file_bytes
            (bytes (document (end_last s.newline (other_lines key s.lines) ++ line ∷ []))))
          too_large _ h2 in
      let (_, h4) = refuse_if-eq-ok (not written) unwritable _ h3 in
      let (out, loaded, values) =
        load-other_lines key s.lines nothing nothing y.read (λ j k. refl) y.loads in
      subst IsSynced (ok-injective h4) (record {
        split =
            end_last-IsSplit s.newline (other_lines key s.lines) line y.newline.0
              (keep-IsSplit _ s.lines y.split)
              (new_line_full printable key v s.newline (ground arith) (ground arith) y.newline);
        newline = y.newline;
        small = ground arith;
        read = update out key (some v);
        loads =
            load-append (end_last s.newline (other_lines key s.lines)) (line ∷ []) nothing
            ∙ ap (λ r. r >>= λ n. load (line ∷ []) n)
                (load-end_last s.newline (other_lines key s.lines) nothing y.newline ∙ loaded)
            ∙ load_one line key v out (read_new_line key v s.newline (ground arith) kept y.newline);
        agrees = λ j.
            ap (λ o. if same key j then some v else o) (values j) ∙ elim (Bool-cases (same key j)) [
              | inl own ↦ rw own refl
              | inr other ↦ rw other (y.agrees j)
            ];
      })

  -- One edit of the store, with whether the file can be written.
  pub data Edit : Type 0 where
    replace_key : Bool → Chars → Chars → Edit
    clear_key : Bool → Chars → Edit

  abbrev pub apply : Edit → Store → Result EnvError Store
  apply (replace_key written key v) s = replace printable written key v s
  apply (clear_key written key) s = clear printable written key s

  -- An edit that fails leaves the store as it was.
  abbrev pub settle : Store → Result EnvError Store → Store
  settle s (ok s') = s'
  settle s (err e) = s

  abbrev pub session : List Edit → Store → Store
  session [] s = s
  session (e ∷ es) s = session es (settle s (apply e s))

  abbrev pub KeepsValue : Edit → Type 0
  KeepsValue (replace_key written key v) = IsKept v
  KeepsValue (clear_key written key) = Unit

  apply-IsSynced :
      (e : Edit) (s : Store) → KeepsValue e → IsSynced s → IsSynced (settle s (apply e s))
  apply-IsSynced (replace_key written key v) s kept y =
      elim (Result-cases (replace printable written key v s)) [
        | inl (s', done) ↦ rw done (replace-IsSynced written key v s kept y done)
        | inr (e, failed) ↦ rw failed y
      ]
  apply-IsSynced (clear_key written key) s kept y =
      elim (Result-cases (clear printable written key s)) [
        | inl (s', done) ↦ rw done (clear-IsSynced written key s y done)
        | inr (e, failed) ↦ rw failed y
      ]

  session-IsSynced :
      (es : List Edit) (s : Store) → All KeepsValue es → IsSynced s → IsSynced (session es s)
  session-IsSynced [] s h y = y
  session-IsSynced (e ∷ es) s (k, h) y =
      session-IsSynced es (settle s (apply e s)) h (apply-IsSynced e s k y)

  -- Whatever a process that opened the managed file replaces and clears, failed edits included, a later one
  -- that opens the document it leaves is not refused, and finds for every key the managed value of the first,
  -- if each value that is set consists of code points that UTF-8 can encode, and is put in quotes or has no
  -- space at its ends.
  pub session_reopens :
      (path : Chars) (file : Option Chars) (s : Store) (es : List Edit)
      → open_store path file ≡ ok s
      → All KeepsValue es
      → (s' : Store) × (open_store path (some (document (session es s).lines)) ≡ ok s')
        × ((j : Chars) → s'.managed j ≡ (session es s).managed j)
  unfolding open_store
  session_reopens path file s es opened h =
      let (named, _) = refuse_if-eq-ok (is_empty (trim path)) no_path _ opened in
      reopened path (session es s) named
        (session-IsSynced es s h (open_store-IsSynced path file opened))

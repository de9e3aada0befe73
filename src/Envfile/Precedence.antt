-- ===== src/Envfile/Precedence.antt =====
-- internal/envfile/store.go: what `Getenv` and `Status` answer after an edit.
use oscar_corrtest.Base.{
  ℕ, ◌≡◌, refl, sym, Bool, not, List, [], Option, none, some, ok, if◌then◌else◌, Bool-cases,
  ok-injective, refuse_if-eq-ok, inl, inr, ltb,
}
use mathlib.Core.Path.{subst}
use oscar_corrtest.Envfile.Text.{Chars, bytes, same}
use oscar_corrtest.Envfile.Line.{is_key, is_value}
use oscar_corrtest.Envfile.Overlay.{
  max_file_bytes, Values, Store, too_large, unwritable, bad_key, bad_value, document, new_lines,
  activated, rewrite, replace, clear, getenv, status, live_override, is_empty, not_empty,
  below_live, status_of, LiveValue,
}
use oscar_corrtest.Envfile.Reopen.{Edit, replace_key, clear_key, apply}

module _ (printable : ℕ → Bool) (lookup : Values Chars) where
  abbrev pub key_of : Edit printable → Chars
  key_of (replace_key written key v) = key
  key_of (clear_key written key) = key

  abbrev pub value_of : Edit printable → Chars
  value_of (replace_key written key v) = v
  value_of (clear_key written key) = []

  abbrev wanted : Edit printable → Option Chars
  wanted (replace_key written key v) = some v
  wanted (clear_key written key) = none

  rewrite_parts :
      (written : Bool) (key : Chars) (value : Option Chars) (s : Store) {s' : Store}
      → rewrite printable written key value s ≡ ok s'
      → s' ≡ activated printable key value (new_lines printable key value s) s
  unfolding rewrite
  rewrite_parts written key value s h =
      let (_, h1) =
        refuse_if-eq-ok (ltb max_file_bytes (bytes (document (new_lines printable key value s))))
          too_large _ h in
      let (_, h2) = refuse_if-eq-ok (not written) unwritable _ h1 in sym (ok-injective h2)

  apply_parts :
      (e : Edit printable) (s : Store) {s' : Store}
      → apply printable e s ≡ ok s'
      → s'
        ≡ activated printable (key_of e) (wanted e) (new_lines printable (key_of e) (wanted e) s) s
  unfolding replace clear
  apply_parts (replace_key written key v) s h =
      let (_, h1) = refuse_if-eq-ok (not (is_key key)) bad_key _ h in
      let (_, h2) = refuse_if-eq-ok (not (is_value v)) bad_value _ h1 in
      rewrite_parts written key (some v) s h2
  apply_parts (clear_key written key) s h =
      let (_, h1) = refuse_if-eq-ok (not (is_key key)) bad_key _ h in
      rewrite_parts written key none s h1

  abbrev pub Answers : Edit printable → Chars → Store → Store → Type 0
  Answers e j s s' =
      (getenv lookup j s' ≡ (if same (key_of e) j then value_of e else getenv lookup j s))
      × (status lookup j s' ≡ (
          if same (key_of e) j
          then record {
            configured = not (is_empty (value_of e));
            source = live_override;
            external_resumes_on_restart = not_empty (lookup j);
          }
          else status lookup j s))

  -- Below the live values only what the store manages for the key matters.
  below_live_same :
      (j : Chars) (s s' : Store) (o : Option LiveValue)
      → s'.managed j ≡ s.managed j
      → (below_live lookup j s' o ≡ below_live lookup j s o)
        × (status_of lookup j s' o ≡ status_of lookup j s o)
  below_live_same j s s' none h = (rw h refl, rw h refl)
  below_live_same j s s' (some l) h = (refl, refl)

  activated-Answers :
      (e : Edit printable) (ls : List Chars) (s : Store) (j : Chars)
      → Answers e j s (activated printable (key_of e) (wanted e) ls s)
  unfolding getenv status
  activated-Answers (replace_key written key v) ls s j = elim (Bool-cases (same key j)) [
    | inl own ↦ rw own (refl, refl)
    | inr other ↦
        rw other
          (below_live_same j s (activated printable key (some v) ls s) (s.live j) (rw other refl))
  ]
  activated-Answers (clear_key written key) ls s j = elim (Bool-cases (same key j)) [
    | inl own ↦ rw own (refl, refl)
    | inr other ↦
        rw other
          (below_live_same j s (activated printable key none ls s) (s.live j) (rw other refl))
  ]

  -- After a successful edit the process reads its value, the empty text for a cleared key, whatever the
  -- environment of the process holds, and every other key as before; the status of the key names the live
  -- override, is configured exactly if the value is not empty, and says whether the environment holds the key.
  pub apply-Answers :
      (e : Edit printable) (s s' : Store) (j : Chars)
      → apply printable e s ≡ ok s'
      → Answers e j s s'
  apply-Answers e s s' j h =
      subst (Answers e j s) (sym (apply_parts e s h))
        (activated-Answers e (new_lines printable (key_of e) (wanted e) s) s j)

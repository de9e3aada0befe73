-- ===== src/Store/Rows.antt =====
-- internal/persistence/sqlite: reading and updating a row of `runs` by its id.
use oscar_corrtest.Base.{
  ◌≡◌, refl, sym, ap, ◌∙◌, ◌∷◌, [], String, Bool, true, false, List, Option, none, some,
  if◌then◌else◌, str_eq, any, not, keep, Bool-cases, ◌⊎◌, inl, inr, arith, eq_iff,
}
use oscar_corrtest.Run.{Run}
use oscar_corrtest.Store.{Row, has_id, find_run, update_run}

abbrev pub with_run : (Run → Run) → Row → Row
with_run f r = record r { run = f r.run }

abbrev pub on_row : (Row → Row) → Option Row → Option Row
on_row f none = none
on_row f (some r) = some (f r)

module _ (f : Run → Run) (keeps : (r : Run) → (f r).id ≡ r.id) where
  pub find_run-update_run :
      (id j : String) (rs : List Row)
      → find_run j (update_run id f rs)
        ≡ (if str_eq id j then on_row (with_run f) (find_run j rs) else find_run j rs)
  unfolding find_run update_run
  find_run-update_run id j [] = ground arith
  find_run-update_run id j (r ∷ rs) = ground (
    arith,
    eq_iff id j,
    eq_iff r.run.id id,
    eq_iff r.run.id j,
    keeps r.run,
    find_run-update_run id j rs,
  )

  pub find_run-update_own :
      (id : String) (rs : List Row) {row : Row}
      → find_run id rs ≡ some row
      → find_run id (update_run id f rs) ≡ some (with_run f row)
  find_run-update_own id rs h = find_run-update_run id id rs ∙ rw h (ground (arith, eq_iff id id))

  pub find_run-update_other :
      (id j : String) (rs : List Row)
      → str_eq id j ≡ false
      → find_run j (update_run id f rs) ≡ find_run j rs
  find_run-update_other id j rs other = find_run-update_run id j rs ∙ rw other refl

  pub any_id-update_run :
      (id j : String) (rs : List Row) → any (has_id j) (update_run id f rs) ≡ any (has_id j) rs
  unfolding update_run
  any_id-update_run id j [] = refl
  any_id-update_run id j (r ∷ rs) = ground (arith, keeps r.run, any_id-update_run id j rs)

some-injective : {r s : Row} → ◌≡◌ {A = Option Row} (some r) (some s) → r ≡ s
some-injective h = cc

-- The row that is found is the first or a later one.
pub found_cons :
    (id : String) (r : Row) (rs : List Row) {row : Row}
    → find_run id (r ∷ rs) ≡ some row
    → ((has_id id r ≡ true) × (r ≡ row)) ⊎ ((has_id id r ≡ false) × (find_run id rs ≡ some row))
unfolding find_run
found_cons id r rs h = elim (Bool-cases (has_id id r)) [
  | inl own ↦ inl (own, some-injective (rw own at h))
  | inr other ↦ inr (other, rw other at h)
]

pub found_nil : (id : String) {row : Row} → find_run id [] ≡ some row → ⊥
unfolding find_run
found_nil id h = cc

pub found_any :
    (id : String) (rs : List Row) {row : Row}
    → find_run id rs ≡ some row
    → any (has_id id) rs ≡ true
found_any id [] h = absurd (found_nil id h)
found_any id (r ∷ rs) h = elim (found_cons id r rs h) [
  | inl (own, same) ↦ rw own
  | inr (other, later) ↦ rw other (found_any id rs later)
]

pub found_id :
    (id : String) (rs : List Row) {row : Row} → find_run id rs ≡ some row → row.run.id ≡ id
found_id id [] h = absurd (found_nil id h)
found_id id (r ∷ rs) h = elim (found_cons id r rs h) [
  | inl (own, same) ↦ sym (ap (λ (x : Row). x.run.id) same) ∙ ground (arith, eq_iff r.run.id id)
  | inr (other, later) ↦ found_id id rs later
]

pub found-keep :
    (p : Row → Bool) (id : String) (rs : List Row) {row : Row}
    → find_run id rs ≡ some row
    → p row ≡ true
    → find_run id (keep p rs) ≡ some row
unfolding find_run
found-keep p id [] h k = h
found-keep p id (r ∷ rs) h k = elim (found_cons id r rs h) [
  | inl (own, same) ↦ let kept : p r ≡ true = ap p same ∙ k in rw (kept, own) (ap some same)
  | inr (other, later) ↦ elim (Bool-cases (p r)) [
    | inl kept ↦ rw (kept, other) (found-keep p id rs later k)
    | inr dropped ↦ rw dropped (found-keep p id rs later k)
  ]
]

pub find_run-keep :
    (id j : String) (rs : List Row)
    → find_run j (keep (λ r. not (has_id id r)) rs) ≡ (if str_eq id j then none else find_run j rs)
unfolding find_run
find_run-keep id j [] = ground arith
find_run-keep id j (r ∷ rs) =
    ground (arith, eq_iff id j, eq_iff r.run.id id, eq_iff r.run.id j, find_run-keep id j rs)

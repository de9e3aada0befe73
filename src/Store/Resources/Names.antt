-- ===== src/Store/Resources/Names.antt =====
-- internal/persistence/sqlite/resource_repository.go: one owner at a time for an external name.
use oscar_corrtest.Base.{
  ℕ, ◌≡◌, refl, ◌∷◌, [], String, Bool, true, false, ◌||◌, not, List, ◌++◌, Option, ok, err, str_eq,
  any, arith, eq_iff, Bool-cases, inl, inr, refuse_if-eq-ok, ok-injective, Result-cases,
}
use mathlib.Core.Path.{subst}
use oscar_corrtest.Run.{is_zero}
use oscar_corrtest.Store.{
  Resource, Db, Call, Outcome, count_names, insert_resource, write_resource, has_id,
}
use oscar_corrtest.Store.Resources.{
  is_null, holds_name, is_resource, resource_refused, update_where, adoptable, deletable, blamable,
  adopted, gone, blamed, create_resource, adopt_resource, mark_resource_deleted,
  mark_resource_cleanup_error,
}

-- No two resources that are not deleted have the same external name.
abbrev pub IsExclusive : List Resource → Type 0
IsExclusive [] = Unit
IsExclusive (r ∷ rs) =
    (is_null r.deleted_at ≡ true → any (holds_name r.external_name) rs ≡ false) × IsExclusive rs

pub data Op : Type 0 where
  create : Resource → Op
  adopt : String → String → Option ℕ → Op
  delete : String → Option ℕ → Op
  blame : String → String → Op

unfoldable pub apply : (Call → Bool) → Op → Db → Outcome Db
apply broken (create r) db = create_resource broken r db
apply broken (adopt id external_id at) db = adopt_resource broken id external_id at db
apply broken (delete id at) db = mark_resource_deleted broken id at db
apply broken (blame id message) db = mark_resource_cleanup_error broken id message db

abbrev pub settle : Db → Outcome Db → Db
settle db (ok next) = next
settle db (err e) = db

abbrev pub history : List ((Call → Bool) × Op) → Db → Db
history [] db = db
history ((broken, op) ∷ ops) db = history ops (settle db (apply broken op db))

any_name_snoc :
    (name : String) (rs : List Resource) (r : Resource)
    → any (holds_name name) (rs ++ r ∷ []) ≡ (any (holds_name name) rs || holds_name name r)
any_name_snoc name [] r = ground arith
any_name_snoc name (x ∷ rs) r = ground (arith, any_name_snoc name rs r)

IsExclusive-snoc :
    (rs : List Resource) (r : Resource)
    → IsExclusive rs
    → any (holds_name r.external_name) rs ≡ false
    → IsExclusive (rs ++ r ∷ [])
IsExclusive-snoc [] r h free = (λ k. refl, tt)
IsExclusive-snoc (x ∷ rs) r (p, h) free = (
  λ k.
      let before = p k in
      ground (
        arith,
        any_name_snoc x.external_name rs r,
        eq_iff x.external_name r.external_name,
        eq_iff r.external_name x.external_name,
      ),
  IsExclusive-snoc rs r h (ground arith),
)

module _ (p : Resource → Bool) (f : Resource → Resource)
    (same_name : (r : Resource) → (f r).external_name ≡ r.external_name)
    (not_reopened : (r : Resource)
      → is_null (f r).deleted_at ≡ true
      → is_null r.deleted_at ≡ true) where
  name_free_update :
      (name : String) (rs : List Resource)
      → any (holds_name name) rs ≡ false
      → any (holds_name name) (update_where p f rs) ≡ false
  unfolding update_where
  name_free_update name [] h = refl
  name_free_update name (r ∷ rs) h =
      ground (arith, same_name r, not_reopened r, name_free_update name rs)

  update_where-IsExclusive :
      (rs : List Resource) → IsExclusive rs → IsExclusive (update_where p f rs)
  unfolding update_where
  update_where-IsExclusive [] h = tt
  update_where-IsExclusive (r ∷ rs) (q, h) = elim (Bool-cases (p r)) [
    | inl changed ↦
        rw (changed, same_name r)
          (
            λ k. name_free_update r.external_name rs (q (not_reopened r k)),
            update_where-IsExclusive rs h,
          )
    | inr kept ↦
        rw kept (λ k. name_free_update r.external_name rs (q k), update_where-IsExclusive rs h)
  ]

apply-IsExclusive :
    (broken : Call → Bool) (op : Op) (db : Db) {next : Db}
    → IsExclusive db.resources
    → apply broken op db ≡ ok next
    → IsExclusive next.resources
unfolding apply create_resource adopt_resource mark_resource_deleted mark_resource_cleanup_error
apply-IsExclusive broken (create r) db h k =
    let (_, k1) = refuse_if-eq-ok (resource_refused r) _ _ k in
    let (_, k2) = refuse_if-eq-ok (broken count_names) _ _ k1 in
    let (free, k3) = refuse_if-eq-ok (any (holds_name r.external_name) db.resources) _ _ k2 in
    let (_, k4) = refuse_if-eq-ok (broken insert_resource) _ _ k3 in
    let (_, k5) =
      refuse_if-eq-ok (any (is_resource r.id) db.resources || not (any (has_id r.run_id) db.runs)) _
        _ k4 in
    subst (λ (d : Db). IsExclusive d.resources) (ok-injective k5)
      (IsExclusive-snoc db.resources r h free)
apply-IsExclusive broken (adopt id external_id at) db h k =
    let (_, k1) = refuse_if-eq-ok (str_eq external_id "" || is_zero at) _ _ k in
    let (_, k2) = refuse_if-eq-ok (broken write_resource) _ _ k1 in
    let (_, k3) = refuse_if-eq-ok (not (any (adoptable id) db.resources)) _ _ k2 in
    subst (λ (d : Db). IsExclusive d.resources) (ok-injective k3)
      (update_where-IsExclusive (adoptable id) (adopted external_id at) (λ r. refl)
        (λ r open_now. open_now) db.resources h)
apply-IsExclusive broken (delete id at) db h k =
    let (dated, k1) = refuse_if-eq-ok (is_zero at) _ _ k in
    let (_, k2) = refuse_if-eq-ok (broken write_resource) _ _ k1 in
    let (_, k3) = refuse_if-eq-ok (not (any (deletable id) db.resources)) _ _ k2 in
    subst (λ (d : Db). IsExclusive d.resources) (ok-injective k3)
      (update_where-IsExclusive (deletable id) (gone at) (λ r. refl)
        (λ r open_now. absurd (ground arith)) db.resources h)
apply-IsExclusive broken (blame id message) db h k =
    let (_, k1) = refuse_if-eq-ok (str_eq message "") _ _ k in
    let (_, k2) = refuse_if-eq-ok (broken write_resource) _ _ k1 in
    subst (λ (d : Db). IsExclusive d.resources) (ok-injective k2)
      (update_where-IsExclusive (blamable id) (blamed message) (λ r. refl) (λ r open_now. open_now)
        db.resources h)

-- Whatever the ledger of resources does, each step with its own failing calls, no two resources that are
-- not deleted have the same external name, if none had before.
pub history-IsExclusive :
    (ops : List ((Call → Bool) × Op)) (db : Db)
    → IsExclusive db.resources
    → IsExclusive (history ops db).resources
history-IsExclusive [] db h = h
history-IsExclusive ((broken, op) ∷ ops) db h =
    history-IsExclusive ops (settle db (apply broken op db))
      (elim (Result-cases (apply broken op db)) [
        | inl (next, done) ↦ rw done (apply-IsExclusive broken op db h done)
        | inr (e, failed) ↦ rw failed h
      ])

-- ===== src/Runner/Cleanup/Clean.antt =====
-- internal/runner/runner.go: what it takes for `cleanup` to report a run as clean.
use oscar_corrtest.Base.{
  ℕ, ◌≡◌, refl, sym, ap, ◌∙◌, String, Bool, true, false, not, List, [], ◌∷◌, ◌++◌, Option, some,
  str_eq, any, All, ok, arith, Bool-cases, inl, inr, Option-cases, Result-cases, refuse_if-eq-ok,
  ok-injective, ◌⊎◌,
}
use oscar_corrtest.Run.{clean, is_zero}
use oscar_corrtest.Store.{Db, Call, Resource, write_resource}
use oscar_corrtest.Store.Resources.{
  mark_resource_deleted, update_where, deletable, gone, with_resources,
}
use oscar_corrtest.Runner.Cleanup.{
  History, World, rule_id, forget, is_proposed, clean_resource, clean_resources, discovered,
  unresolved, any_unresolved, cleanup, clean_up, graded, start, nothing_to_do,
}

-- No resource with the id is proposed, created or unknown any more.
abbrev pub IsGone : List Resource → Resource → Type 0
IsGone rs r = any (deletable r.id) rs ≡ false

gone_all :
    (id : String) (at : Option ℕ) (rs : List Resource)
    → any (deletable id) (update_where (deletable id) (gone at) rs) ≡ false
unfolding update_where
gone_all id at [] = refl
gone_all id at (r ∷ rs) = ground (arith, gone_all id at rs)

gone_stays :
    (id j : String) (at : Option ℕ) (rs : List Resource)
    → any (deletable j) rs ≡ false
    → any (deletable j) (update_where (deletable id) (gone at) rs) ≡ false
unfolding update_where
gone_stays id j at [] h = refl
gone_stays id j at (r ∷ rs) h = ground (arith, gone_stays id j at rs)

marked_parts :
    (broken : Call → Bool) (id : String) (at : Option ℕ) (db : Db) {next : Db}
    → mark_resource_deleted broken id at db ≡ ok next
    → next ≡ with_resources db (update_where (deletable id) (gone at) db.resources)
unfolding mark_resource_deleted
marked_parts broken id at db h =
    let (_, h1) = refuse_if-eq-ok (is_zero at) _ _ h in
    let (_, h2) = refuse_if-eq-ok (broken write_resource) _ _ h1 in
    let (_, h3) = refuse_if-eq-ok (not (any (deletable id) db.resources)) _ _ h2 in
    sym (ok-injective h3)

-- A resource is cleaned without a failure only by a deletion that is written.
forgotten :
    (w : World) (r : Resource) (db : Db)
    → (forget w r db).0 ≡ false
    → (forget w r db).1
      ≡ with_resources db (update_where (deletable r.id) (gone (some w.now)) db.resources)
forgotten w r db h =
    elim (Result-cases (mark_resource_deleted (w.mark_faults r.id) r.id (some w.now) db)) [
      | inl (next, done) ↦ rw done (marked_parts (w.mark_faults r.id) r.id (some w.now) db done)
      | inr (e, failed) ↦ let clash = rw failed at h in cc
    ]

-- The server has deleted the rule of the resource, or no rule was ever created for it.
abbrev pub IsDeleted : World → Resource → Type 0
IsDeleted w r =
    ((str_eq r.external_id "" ≡ true) × (is_proposed r.lifecycle_state ≡ true))
    ⊎ ((id : ℕ) × (rule_id r.external_id ≡ some id) × (w.deletes_rule id ≡ true))

cleaned :
    (w : World) (r : Resource) (db : Db)
    → (clean_resource w r db).0 ≡ false
    → ((clean_resource w r db).1
        ≡ with_resources db (update_where (deletable r.id) (gone (some w.now)) db.resources))
      × IsDeleted w r
unfolding clean_resource
cleaned w r db h = elim (Bool-cases (str_eq r.external_id "")) [
  | inl unnamed ↦ elim (Bool-cases (is_proposed r.lifecycle_state)) [
    | inl fresh ↦
        (rw (unnamed, fresh) (forgotten w r db (rw (unnamed, fresh) at h)), inl (unnamed, fresh))
    | inr used ↦ let clash = rw (unnamed, used) at h in cc
  ]
  | inr named ↦ elim (Option-cases (rule_id r.external_id)) [
    | inl bad ↦ let clash = rw (named, bad) at h in cc
    | inr (id, good) ↦ elim (Bool-cases (w.deletes_rule id)) [
      | inl deleted ↦ (
        rw (named, good, deleted) (forgotten w r db (rw (named, good, deleted) at h)),
        inr (id, good, deleted),
      )
      | inr refused ↦ let clash = rw (named, good, refused) at h in cc
    ]
  ]
]

cleaned_others :
    (w : World) (rs : List Resource) (db : Db) (j : String)
    → (clean_resources w rs db).0 ≡ false
    → any (deletable j) db.resources ≡ false
    → any (deletable j) (clean_resources w rs db).1.resources ≡ false
unfolding clean_resources
cleaned_others w [] db j h k = k
cleaned_others w (r ∷ rs) db j h k =
    let now : (clean_resource w r db).0 ≡ false = ground arith in
    let later : (clean_resources w rs (clean_resource w r db).1).0 ≡ false = ground arith in
    let same = ap (λ (d : Db). any (deletable j) d.resources) (cleaned w r db now).0 in
    cleaned_others w rs (clean_resource w r db).1 j later
      (same ∙ gone_stays r.id j (some w.now) db.resources k)

cleaned-All :
    (w : World) (rs : List Resource) (db : Db)
    → (clean_resources w rs db).0 ≡ false
    → All (IsGone (clean_resources w rs db).1.resources) rs
unfolding clean_resources
cleaned-All w [] db h = tt
cleaned-All w (r ∷ rs) db h =
    let now : (clean_resource w r db).0 ≡ false = ground arith in
    let later : (clean_resources w rs (clean_resource w r db).1).0 ≡ false = ground arith in
    let same = ap (λ (d : Db). any (deletable r.id) d.resources) (cleaned w r db now).0 in
    (
      cleaned_others w rs (clean_resource w r db).1 r.id later
          (same ∙ gone_all r.id (some w.now) db.resources),
      cleaned-All w rs (clean_resource w r db).1 later,
    )

IsDeleted-All :
    (w : World) (rs : List Resource) (db : Db)
    → (clean_resources w rs db).0 ≡ false
    → All (IsDeleted w) rs
unfolding clean_resources
IsDeleted-All w [] db h = tt
IsDeleted-All w (r ∷ rs) db h =
    let now : (clean_resource w r db).0 ≡ false = ground arith in
    ((cleaned w r db now).1, IsDeleted-All w rs (clean_resource w r db).1 (ground arith))

resolved-All :
    (w : World) (id : String) (hs : List History)
    → any_unresolved w id hs ≡ false
    → All (λ h. unresolved w id h ≡ false) hs
unfolding any_unresolved
resolved-All w id [] k = tt
resolved-All w id (h ∷ hs) k = (ground arith, resolved-All w id hs (ground arith))

graded_clean : (failed : Bool) → graded failed ≡ clean → failed ≡ false
graded_clean true h = cc
graded_clean false h = refl

clean_up_clean :
    (w : World) (id : String) (rs : List Resource) (hs : List History) (failed : Bool) (db : Db)
    → (clean_up w id rs hs failed db).0 ≡ clean
    → (failed ≡ false)
      × All (IsDeleted w) rs
      × All (IsGone (clean_up w id rs hs failed db).1.resources) rs
      × ((discovered w.discovery).1 ≡ true)
      × All (λ h. unresolved w id h ≡ false) (hs ++ (discovered w.discovery).0)
clean_up_clean w id rs hs failed db h =
    let none_failed = graded_clean _ h in
    let kept : (clean_resources w rs db).0 ≡ false = ground arith in
    (
      ground arith,
      IsDeleted-All w rs db kept,
      cleaned-All w rs db kept,
      ground arith,
      resolved-All w id (hs ++ (discovered w.discovery).0) (ground arith),
    )

-- A cleanup that reports clean has moved the run to cleaning up, had the server delete the rule of every
-- resource that it was given, those apart that were only proposed, has left none of these resources
-- proposed, created or unknown in the ledger, has found all alerts where it looked for more, and had the
-- server accept the resolution of every alert, each of this run and with a fingerprint.
pub cleanup_clean :
    (w : World) (id : String) (rs : List Resource) (hs : List History) (db : Db)
    → (cleanup w id rs hs db).0 ≡ clean
    → (moved : Db) × (start w id db ≡ ok moved)
      × All (IsDeleted w) rs
      × All (IsGone (cleanup w id rs hs db).1.resources) rs
      × ((discovered w.discovery).1 ≡ true)
      × All (λ h. unresolved w id h ≡ false) (hs ++ (discovered w.discovery).0)
unfolding cleanup
cleanup_clean w id rs hs db h = elim (Result-cases (start w id db)) [
  | inr (e, failed) ↦ elim (Bool-cases (nothing_to_do rs hs w.discovery)) [
    | inl idle ↦ let clash = (clean_up_clean w id rs hs true db (rw (failed, idle) at h)).0 in cc
    | inr busy ↦ let clash = (clean_up_clean w id rs hs true db (rw (failed, busy) at h)).0 in cc
  ]
  | inl (moved, done) ↦ elim (Bool-cases (nothing_to_do rs hs w.discovery)) [
    | inl idle ↦ let clash = rw (done, idle) at h in cc
    | inr busy ↦
        let (_, deleted, gone_now, complete, resolved) =
          clean_up_clean w id rs hs false moved (rw (done, busy) at h) in
        (moved, done, deleted, rw (done, busy) gone_now, complete, resolved)
  ]
]

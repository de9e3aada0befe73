-- ===== src/Snmp/Observe/Overlap.antt =====
-- internal/snmpload/observe.go: rows that are read again on overlapping pages.
use oscar_corrtest.Base.{
  ℕ, suc, ◌≡◌, refl, sym, ap, ◌∙◌, String, Bool, true, ◌&&◌, ◌||◌, not, List, [], ◌∷◌, ◌++◌, Option,
  none, some, any, All, arith, eq_iff, Bool-cases, inl, inr, ==_iff,
}
use oscar_corrtest.Snmp.Fixture.{Episode}
use oscar_corrtest.Snmp.Observe.{
  HistoryRecord, same_text, same_time, same_entries, deep_equal, has_identity, of_alert, is_overlap,
  indexed, take_row, observe_rows, reconcile_from, reconcile,
}

any-append {ℓ} :
    {A : Type ℓ} (p : A → Bool) (xs ys : List A) → any p (xs ++ ys) ≡ (any p xs || any p ys)
any-append p [] ys = refl
any-append p (x ∷ xs) ys = ground (arith, any-append p xs ys)

same_text-eq : (s t : Option String) → same_text s t ≡ true → s ≡ t
same_text-eq none none h = refl
same_text-eq none (some t) h = cc
same_text-eq (some s) none h = cc
same_text-eq (some s) (some t) h = ap some ((eq_iff s t).0 h)

same_time-eq : (s t : Option ℕ) → same_time s t ≡ true → s ≡ t
same_time-eq none none h = refl
same_time-eq none (some t) h = cc
same_time-eq (some s) none h = cc
same_time-eq (some s) (some t) h = ap some ((==_iff s t).0 h)

same_entries-eq : (m n : List (String × String)) → same_entries m n ≡ true → m ≡ n
unfolding same_entries
same_entries-eq [] [] h = refl
same_entries-eq [] (y ∷ n) h = cc
same_entries-eq (x ∷ m) [] h = cc
same_entries-eq ((k, v) ∷ m) ((j, w) ∷ n) h =
    let rest : m ≡ n = same_entries-eq m n (ground arith) in
    let keys : k ≡ j = (eq_iff k j).0 (ground arith) in
    let values : v ≡ w = (eq_iff v w).0 (ground arith) in cc (rest, keys, values)

deep_equal-eq : (a b : HistoryRecord) → deep_equal a b ≡ true → a ≡ b
unfolding deep_equal
deep_equal-eq a b h = ground (
  arith,
  same_text-eq a.original_severity b.original_severity,
  same_text-eq a.severity b.severity,
  same_time-eq a.starts_at b.starts_at,
  eq_iff a.id b.id,
  eq_iff a.alert_name b.alert_name,
  eq_iff a.fingerprint b.fingerprint,
  eq_iff a.status b.status,
  same_time-eq a.created_at b.created_at,
  same_entries-eq a.labels b.labels,
  same_entries-eq a.annotations b.annotations,
)

-- Rows that are already held, in an identical row with an identity, are not taken again.
held_stays :
    (name key : String) (r : HistoryRecord) (kept rows : List HistoryRecord)
    → is_overlap r kept ≡ true
    → is_overlap r (indexed name key kept rows) ≡ true
unfolding indexed
held_stays name key r kept [] h = h
held_stays name key r kept (x ∷ rows) h =
    elim (Bool-cases (of_alert name key x && not (is_overlap x kept))) [
      | inl taken ↦ rw taken (
          held_stays name key r (kept ++ x ∷ []) rows
            (rw (any-append (λ y. has_identity r && deep_equal y r) kept (x ∷ []), h) refl))
      | inr passed ↦ rw passed (held_stays name key r kept rows h)
    ]

held_after :
    (name key : String) (r : HistoryRecord) (kept rows : List HistoryRecord)
    → of_alert name key r ≡ true
    → has_identity r ≡ true
    → any (λ x. deep_equal x r) rows ≡ true
    → is_overlap r (indexed name key kept rows) ≡ true
unfolding indexed
held_after name key r kept [] own real h = cc
held_after name key r kept (x ∷ rows) own real h = elim (Bool-cases (deep_equal x r)) [
  | inr other ↦ held_after name key r (take_row name key x kept) rows own real (rw other at h)
  | inl same ↦
      let equal = deep_equal-eq x r same in
      let of_x : of_alert name key x ≡ true = ap (of_alert name key) equal ∙ own in
      elim (Bool-cases (is_overlap x kept)) [
        | inl held ↦
            rw (of_x, held)
              (held_stays name key r kept rows (ap (λ y. is_overlap y kept) (sym equal) ∙ held))
        | inr fresh ↦
            rw (of_x, fresh)
              (held_stays name key r (kept ++ x ∷ []) rows (
                any-append (λ y. has_identity r && deep_equal y r) kept (x ∷ [])
                ∙ rw (real, same) (ground arith)))
      ]
]

indexed-append :
    (name key : String) (kept rows more : List HistoryRecord)
    → indexed name key kept (rows ++ more) ≡ indexed name key (indexed name key kept rows) more
unfolding indexed
indexed-append name key kept [] more = refl
indexed-append name key kept (r ∷ rows) more =
    indexed-append name key (take_row name key r kept) rows more

-- A row that was read before under its identity.
abbrev pub WasRead : List HistoryRecord → HistoryRecord → Type 0
WasRead rows r = (has_identity r ≡ true) × (any (λ x. deep_equal x r) rows ≡ true)

nothing_new :
    (name key : String) (kept rows more : List HistoryRecord)
    → All (WasRead rows) more
    → indexed name key (indexed name key kept rows) more ≡ indexed name key kept rows
unfolding indexed
nothing_new name key kept rows [] h = refl
nothing_new name key kept rows (r ∷ more) ((real, seen), h) =
    elim (Bool-cases (of_alert name key r)) [
      | inl own ↦
          rw (own, held_after name key r kept rows own real seen)
            (nothing_new name key kept rows more h)
      | inr other ↦ rw other (nothing_new name key kept rows more h)
    ]

reconcile_from-overlap :
    (equal_fold : String → String → Bool) (n : ℕ) (es : List Episode)
    (rows more : List HistoryRecord)
    → All (WasRead rows) more
    → reconcile_from equal_fold n es (rows ++ more) ≡ reconcile_from equal_fold n es rows
unfolding reconcile_from
reconcile_from-overlap equal_fold n [] rows more h = refl
reconcile_from-overlap equal_fold n (e ∷ es) rows more h =
    rw
      (
        indexed-append e.alert_name e.alert_key [] rows more,
        nothing_new e.alert_name e.alert_key [] rows more h,
      )
      (ap (λ os. observe_rows equal_fold n e (indexed e.alert_name e.alert_key [] rows) ∷ os)
        (reconcile_from-overlap equal_fold (suc n) es rows more h))

-- Pages that overlap do not matter: rows that repeat, field by field, rows that were read before under an
-- identity change no observation.
pub reconcile-overlap :
    (equal_fold : String → String → Bool) (es : List Episode) (rows more : List HistoryRecord)
    → All (WasRead rows) more
    → reconcile equal_fold es (rows ++ more) ≡ reconcile equal_fold es rows
unfolding reconcile
reconcile-overlap equal_fold es rows more h = reconcile_from-overlap equal_fold 0 es rows more h

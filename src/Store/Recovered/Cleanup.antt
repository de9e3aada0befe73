-- ===== src/Store/Recovered/Cleanup.antt =====
-- internal/persistence/sqlite/run_repository.go, input_attempt.go: the cleanup state that a recovery
-- writes, run by run, where the ids of the runs are distinct.
use oscar_corrtest.Base.{
  ℕ, ◌≡◌, refl, sym, ap, ◌∙◌, ◌∷◌, [], String, Bool, false, List, Option, some, ok, str_eq, any,
  keep, arith, eq_iff, if◌then◌else◌, Bool-cases, inl, inr, >>=-eq-ok, ok-injective,
}
use mathlib.Core.Path.{subst}
use mathlib.Core.List.{append-nil}
use oscar_corrtest.Run.{unknown, not_required}
use oscar_corrtest.Store.{Row, Db, Call, has_id, find_run, number_event, of_run}
use oscar_corrtest.Store.Parts.{recover_parts}
use oscar_corrtest.Store.Recovery.{
  needs_recovery, recover_run, recover_all, recover_interrupted_runs, stopped, cleanup_after,
  interruption, timeline, owes_cleanup,
}
use oscar_corrtest.Store.Recovered.{recovered, recover_run_lem}
use oscar_corrtest.Store.Rows.{
  with_run, find_run-update_own, find_run-update_other, found_id, found_cons, found_nil, found-keep,
}
use oscar_corrtest.Store.Timeline.{keep-append}

-- No two rows have the same id: the primary key.
abbrev pub IsKeyed : List Row → Type 0
IsKeyed [] = Unit
IsKeyed (r ∷ rs) = (any (has_id r.run.id) rs ≡ false) × IsKeyed rs

any_id-keep :
    (p : Row → Bool) (id : String) (rs : List Row)
    → any (has_id id) rs ≡ false
    → any (has_id id) (keep p rs) ≡ false
any_id-keep p id [] h = refl
any_id-keep p id (r ∷ rs) h = ground (arith, any_id-keep p id rs)

pub keep-IsKeyed : (p : Row → Bool) (rs : List Row) → IsKeyed rs → IsKeyed (keep p rs)
keep-IsKeyed p [] h = tt
keep-IsKeyed p (r ∷ rs) (new, h) = elim (Bool-cases (p r)) [
  | inl kept ↦ rw kept (any_id-keep p r.run.id rs new, keep-IsKeyed p rs h)
  | inr dropped ↦ rw dropped (keep-IsKeyed p rs h)
]

-- The timeline of another run is as it was.
other_timeline :
    (id : String) (r : Row) (at : Option ℕ) (db : Db)
    → str_eq r.run.id id ≡ false
    → timeline id (recovered at r db).events ≡ timeline id db.events
other_timeline id r at db other =
    keep-append (of_run id) db.events (number_event db (interruption r at) ∷ [])
    ∙ rw (other, append-nil) refl

-- Runs that are not taken stay as they are.
recover_all_other :
    (broken : Call → Bool) (at : Option ℕ) (id : String) (rs : List Row) (db : Db) {after : Db}
    → any (has_id id) rs ≡ false
    → recover_all broken at rs db ≡ ok after
    → find_run id after.runs ≡ find_run id db.runs
unfolding recover_all
recover_all_other broken at id [] db h k =
    ap (λ (d : Db). find_run id d.runs) (sym (ok-injective k))
recover_all_other broken at id (r ∷ rs) db h k =
    let (next, done, k1) = >>=-eq-ok (recover_run broken at r db) _ k in
    let same = recover_run_lem broken at r db done in
    recover_all_other broken at id rs next (ground arith) k1
    ∙ ap (λ (d : Db). find_run id d.runs) same
    ∙ find_run-update_other (stopped (cleanup_after r db) at) (λ x. refl) r.run.id id db.runs
        (ground arith)

cleanup_same :
    (r : Row) (a b : Db)
    → a.resources ≡ b.resources
    → timeline r.run.id a.events ≡ timeline r.run.id b.events
    → cleanup_after r a ≡ cleanup_after r b
unfolding cleanup_after
cleanup_same r a b h k = rw (h, k) refl

own_row :
    (at : Option ℕ) (id : String) (x : Row) (db : Db)
    → x.run.id ≡ id
    → find_run id db.runs ≡ some x
    → find_run id (recovered at x db).runs ≡ some (with_run (stopped (cleanup_after x db) at) x)
own_row at id x db p found =
    let own =
      find_run-update_own (stopped (cleanup_after x db) at) (λ r. refl) x.run.id db.runs
        (subst (λ i. find_run i db.runs ≡ some x) (sym p) found) in
    ap (λ i. find_run i (recovered at x db).runs) (sym p) ∙ own

recover_all_own :
    (broken : Call → Bool) (at : Option ℕ) (id : String) (rs : List Row) (db : Db) {row : Row}
    {after : Db}
    → IsKeyed rs
    → find_run id rs ≡ some row
    → find_run id db.runs ≡ some row
    → recover_all broken at rs db ≡ ok after
    → find_run id after.runs ≡ some (with_run (stopped (cleanup_after row db) at) row)
unfolding recover_all
recover_all_own broken at id [] db h k found done = absurd (found_nil id k)
recover_all_own broken at id (r ∷ rs) db {row} (new, h) k found done =
    let (next, done1, rest) = >>=-eq-ok (recover_run broken at r db) _ done in
    let same = recover_run_lem broken at r db done1 in
    elim (found_cons id r rs k) [
      | inl (own, here) ↦
          let named : r.run.id ≡ id = ground (arith, eq_iff r.run.id id) in
          recover_all_other broken at id rs next (subst (λ i. any (has_id i) rs ≡ false) named new)
            rest
          ∙ ap (λ (d : Db). find_run id d.runs) same
          ∙ own_row at id r db named (found ∙ ap some (sym here))
          ∙ ap (λ (x : Row). some (with_run (stopped (cleanup_after x db) at) x)) here
      | inr (other, later) ↦
          let row_id = found_id id db.runs found in
          let foreign : str_eq r.run.id row.run.id ≡ false = ap (str_eq r.run.id) row_id ∙ other in
          let kept : find_run id next.runs ≡ some row =
            ap (λ (d : Db). find_run id d.runs) same
            ∙ find_run-update_other (stopped (cleanup_after r db) at) (λ x. refl) r.run.id id
                db.runs other
            ∙ found in
          let cleanup : cleanup_after row next ≡ cleanup_after row db =
            cleanup_same row next db (ap (λ (d : Db). d.resources) same) (
              ap (λ (d : Db). timeline row.run.id d.events) same
              ∙ other_timeline row.run.id r at db foreign) in
          recover_all_own broken at id rs next h later kept rest
          ∙ ap (λ c. some (with_run (stopped c at) row)) cleanup
    ]

unfound_keep :
    (p : Row → Bool) (id : String) (rs : List Row) {row : Row}
    → IsKeyed rs
    → find_run id rs ≡ some row
    → p row ≡ false
    → any (has_id id) (keep p rs) ≡ false
unfound_keep p id [] h k q = refl
unfound_keep p id (r ∷ rs) (new, h) k q = elim (found_cons id r rs k) [
  | inl (own, same) ↦
      let named : r.run.id ≡ id = ground (arith, eq_iff r.run.id id) in
      rw (ap p same ∙ q) (any_id-keep p id rs (subst (λ i. any (has_id i) rs ≡ false) named new))
  | inr (other, later) ↦ elim (Bool-cases (p r)) [
    | inl kept ↦ rw (kept, other) (unfound_keep p id rs h later q)
    | inr dropped ↦ rw dropped (unfound_keep p id rs h later q)
  ]
]

-- Where the ids are distinct, a recovery interrupts a run that needs it, with the cleanup state
-- `unknown` if the run had a resource that is not deleted or may have sent alerts, and `not_required`
-- if not, both as they were before the recovery; it leaves every other run as it was.
pub recovered_row :
    (broken : Call → Bool) (at : Option ℕ) (id : String) (db : Db) {row : Row} {n : ℕ} {after : Db}
    → IsKeyed db.runs
    → find_run id db.runs ≡ some row
    → recover_interrupted_runs broken at db ≡ ok (n, after)
    → find_run id after.runs
      ≡ some (
          if needs_recovery row
          then with_run (stopped (if owes_cleanup row db then unknown else not_required) at) row
          else row)
unfolding cleanup_after
recovered_row broken at id db {row} h found done =
    let (_, all_done) = recover_parts broken at db done in
    elim (Bool-cases (needs_recovery row)) [
      | inl needs ↦ rw needs (
          recover_all_own broken at id (keep needs_recovery db.runs) db
            (keep-IsKeyed needs_recovery db.runs h)
            (found-keep needs_recovery id db.runs found needs) found all_done)
      | inr fine ↦ rw fine (
          recover_all_other broken at id (keep needs_recovery db.runs) db
            (unfound_keep needs_recovery id db.runs h found fine) all_done
          ∙ found)
    ]

-- ===== src/Store/Recovered.antt =====
-- internal/persistence/sqlite/run_repository.go: what a recovery leaves of the table of runs.
pub mod Cleanup
pub mod Prepared
use oscar_corrtest.Base.{
  ℕ, suc, ◌≡◌, refl, sym, ap, ◌∙◌, ◌∷◌, [], String, Bool, true, false, ◌&&◌, ◌||◌, not, List, ◌++◌,
  Option, none, some, Result, ok, err, ◌>>=◌, ◌>>◌, refuse_if, str_eq, any, keep, length, arith,
  eq_iff, if◌then◌else◌, All, All-map, Bool-cases, inl, inr, >>=-eq-ok, ok-injective,
}
use mathlib.Core.Path.{subst}
use mathlib.Core.List.{append-nil}
use oscar_corrtest.Run.{Run, CleanupStatus}
use oscar_corrtest.Run.Responsibility.{RunEvent}
use oscar_corrtest.Store.{Row, Db, Call, has_id, rewrite, update_run, number_event, of_run}
use oscar_corrtest.Store.Parts.{recover_run_parts, recover_parts}
use oscar_corrtest.Store.Recovery.{
  needs_recovery, recover_run, recover_all, recover_interrupted_runs, stopped, cleanup_after,
  interruption, timeline,
}
use oscar_corrtest.Store.Timeline.{append_parts}

-- What one run's recovery gives.
abbrev pub recovered : Option ℕ → Row → Db → Db
recovered at r db = record (rewrite r.run.id (stopped (cleanup_after r db) at) db) {
  events = db.events ++ number_event db (interruption r at) ∷ [];
}

pub recover_run_lem :
    (broken : Call → Bool) (at : Option ℕ) (r : Row) (db : Db) {after : Db}
    → recover_run broken at r db ≡ ok after
    → after ≡ recovered at r db
recover_run_lem broken at r db h =
    let (same, _, _) = append_parts broken _ _ (recover_run_parts broken at r db h) in same

-- A row that needs recovery is among those still to be taken.
Pending : List Row → List Row → Type 0
Pending rs rows = All (λ x. needs_recovery x ≡ true → any (has_id x.run.id) rs ≡ true) rows

stopped_settled :
    (c : CleanupStatus) (at : Option ℕ) (x : Row)
    → needs_recovery (record x { run = stopped c at x.run }) ≡ false
unfolding needs_recovery
stopped_settled c at x = ground arith

Pending-step :
    (r : Row) (rs : List Row) (c : CleanupStatus) (at : Option ℕ) (rows : List Row)
    → Pending (r ∷ rs) rows
    → Pending rs (update_run r.run.id (stopped c at) rows)
unfolding Pending update_run
Pending-step r rs c at [] h = tt
Pending-step r rs c at (x ∷ rows) (p, h) = elim (Bool-cases (has_id r.run.id x)) [
  | inl own ↦
      rw own (λ needs. let settled = stopped_settled c at x in cc, Pending-step r rs c at rows h)
  | inr other ↦
      let apart : has_id x.run.id r ≡ false =
        ground (arith, eq_iff x.run.id r.run.id, eq_iff r.run.id x.run.id) in
      rw other (λ needs. rw apart at p needs, Pending-step r rs c at rows h)
]

Pending-start : (rows : List Row) → Pending (keep needs_recovery rows) rows
unfolding Pending
Pending-start [] = tt
Pending-start (x ∷ rows) = elim (Bool-cases (needs_recovery x)) [
  | inl needs ↦ rw needs (
    λ k. ground (arith, eq_iff x.run.id x.run.id),
    All-map (λ y f k. ground (arith, f k)) rows (Pending-start rows),
  )
  | inr fine ↦
      let dropped : keep needs_recovery (x ∷ rows) ≡ keep needs_recovery rows = rw fine refl in
      (λ k. cc, subst (λ L. Pending L rows) (sym dropped) (Pending-start rows))
]

Pending-end : (rows : List Row) → Pending [] rows → keep needs_recovery rows ≡ []
unfolding Pending
Pending-end [] h = refl
Pending-end (x ∷ rows) (p, h) = elim (Bool-cases (needs_recovery x)) [
  | inl needs ↦ let late = p needs in cc
  | inr fine ↦ rw fine (Pending-end rows h)
]

recover_all-Pending :
    (broken : Call → Bool) (at : Option ℕ) (rs : List Row) (db : Db) {after : Db}
    → Pending rs db.runs
    → recover_all broken at rs db ≡ ok after
    → keep needs_recovery after.runs ≡ []
unfolding recover_all
recover_all-Pending broken at [] db h k =
    subst (λ (d : Db). keep needs_recovery d.runs ≡ []) (ok-injective k) (Pending-end db.runs h)
recover_all-Pending broken at (r ∷ rs) db h k =
    let (next, done, k1) = >>=-eq-ok (recover_run broken at r db) _ k in
    let same = recover_run_lem broken at r db done in
    recover_all-Pending broken at rs next
      (subst (λ (d : Db). Pending rs d.runs) (sym same)
        (Pending-step r rs (cleanup_after r db) at db.runs h))
      k1

-- After a recovery no run needs one, and a second recovery that succeeds takes no run and changes
-- nothing.
pub recover_settles :
    (broken broken' : Call → Bool) (at at' : Option ℕ) (db : Db) {n m : ℕ} {after again : Db}
    → recover_interrupted_runs broken at db ≡ ok (n, after)
    → recover_interrupted_runs broken' at' after ≡ ok (m, again)
    → (keep needs_recovery after.runs ≡ []) × (m ≡ 0) × (again ≡ after)
unfolding recover_all
recover_settles broken broken' at at' db {after = after} h k =
    let (_, done) = recover_parts broken at db h in
    let settled =
      recover_all-Pending broken at (keep needs_recovery db.runs) db (Pending-start db.runs) done in
    let (count, rest) = recover_parts broken' at' after k in
    (settled, rw settled at count, sym (ok-injective (rw settled at rest)))

-- ===== src/Store/Recovered/Prepared.antt =====
-- internal/persistence/sqlite/input_attempt.go: a run that has prepared an input and is then lost.
use oscar_corrtest.Base.{
  ℕ, ◌≡◌, refl, sym, ap, ◌∙◌, ◌∷◌, [], String, Bool, true, false, ◌&&◌, ◌||◌, not, List, ◌++◌,
  Option, some, ok, any, arith, eq_iff, Bool-cases, inl, inr,
}
use mathlib.Core.Path.{subst}
use oscar_corrtest.Run.{Run, unknown, interrupted}
use oscar_corrtest.Run.Responsibility.{Detail, possible_alert_inputs, suspicious_event}
use oscar_corrtest.Store.{
  Row, Db, Call, has_id, find_run, rewrite, number_event, of_run, is_terminal, update_run,
}
use oscar_corrtest.Store.Operations.{prepare_run_input, prepared_event, set_cleanup}
use oscar_corrtest.Store.Parts.{prepare_parts}
use oscar_corrtest.Store.Recovery.{
  needs_recovery, recover_interrupted_runs, stopped, timeline, owes_cleanup,
}
use oscar_corrtest.Store.Recovered.Cleanup.{IsKeyed, recovered_row}
use oscar_corrtest.Store.Rows.{with_run, find_run-update_own, found_id, any_id-update_run}
use oscar_corrtest.Store.Timeline.{append_parts, keep-append}

any_id_of :
    (p : Row → Bool) (id : String) (rs : List Row)
    → any (has_id id) rs ≡ false
    → any (λ r. has_id id r && p r) rs ≡ false
any_id_of p id [] h = refl
any_id_of p id (r ∷ rs) h = ground (arith, any_id_of p id rs)

-- With distinct ids, a row with the id that passes a test is the row that is found.
pub keyed_row :
    (p : Row → Bool) (id : String) (rs : List Row)
    → IsKeyed rs
    → any (λ r. has_id id r && p r) rs ≡ true
    → (row : Row) × (find_run id rs ≡ some row) × (p row ≡ true)
unfolding find_run
keyed_row p id [] h k = cc
keyed_row p id (r ∷ rs) (new, h) k = elim (Bool-cases (has_id id r)) [
  | inl own ↦
      let named : r.run.id ≡ id = ground (arith, eq_iff r.run.id id) in
      let alone = any_id_of p id rs (subst (λ i. any (has_id i) rs ≡ false) named new) in
      (r, rw own refl, ground arith)
  | inr other ↦
      let (row, found, q) = keyed_row p id rs h (rw other at k) in (row, rw other found, q)
]

pub update_run-IsKeyed :
    (f : Run → Run) (keeps : (r : Run) → (f r).id ≡ r.id) (id : String) (rs : List Row)
    → IsKeyed rs
    → IsKeyed (update_run id f rs)
unfolding update_run
update_run-IsKeyed f keeps id [] h = tt
update_run-IsKeyed f keeps id (r ∷ rs) (new, h) = elim (Bool-cases (has_id id r)) [
  | inl own ↦
      rw (own, keeps r.run, any_id-update_run f keeps id r.run.id rs)
        (new, update_run-IsKeyed f keeps id rs h)
  | inr other ↦
      rw (other, any_id-update_run f keeps id r.run.id rs) (new, update_run-IsKeyed f keeps id rs h)
]

pub any-append {ℓ} :
    {A : Type ℓ} (p : A → Bool) (xs ys : List A) → any p (xs ++ ys) ≡ (any p xs || any p ys)
any-append p [] ys = refl
any-append p (x ∷ xs) ys = ground (arith, any-append p xs ys)

-- An event that prepares an input makes the timeline of its run suspicious.
pub prepared_suspicious :
    (id : String) (at : Option ℕ) (detail : Detail) (db mid : Db)
    → mid.events ≡ db.events ++ number_event db (prepared_event id at detail) ∷ []
    → any suspicious_event (timeline id mid.events) ≡ true
unfolding suspicious_event
prepared_suspicious id at detail db mid written =
    let own : of_run id (number_event db (prepared_event id at detail)) ≡ true =
      ground (arith, eq_iff id id) in
    ap (λ es. any suspicious_event (timeline id es)) written
    ∙ ap (any suspicious_event) (keep-append (of_run id) db.events _)
    ∙ any-append suspicious_event (timeline id db.events) _
    ∙ rw own (ground arith)

pub suspicion_owes :
    (row : Row) (id : String) (db : Db)
    → row.run.id ≡ id
    → any suspicious_event (timeline id db.events) ≡ true
    → owes_cleanup row db ≡ true
unfolding possible_alert_inputs
suspicion_owes row id db named h =
    let own : any suspicious_event (timeline row.run.id db.events) ≡ true =
      ap (λ i. any suspicious_event (timeline i db.events)) named ∙ h in
    ground arith

-- Where the ids are distinct: if an input was prepared for a run, and a recovery of the resulting tables
-- succeeds, the run is interrupted with its cleanup state unknown, so it is never taken for clean.
pub prepared_run_stays_owed :
    (broken broken' : Call → Bool) (id : String) (at at' : Option ℕ) (detail : Detail) (db : Db)
    {mid : Db} {n : ℕ} {after : Db}
    → IsKeyed db.runs
    → prepare_run_input broken id at detail db ≡ ok mid
    → recover_interrupted_runs broken' at' mid ≡ ok (n, after)
    → (row : Row) × (find_run id after.runs ≡ some row)
      × (row.run.status ≡ interrupted)
      × (row.run.cleanup_status ≡ unknown)
unfolding needs_recovery
prepared_run_stays_owed broken broken' id at at' detail db {mid} keyed prepared lost =
    let (live, written) = prepare_parts broken id at detail db prepared in
    let (same, _, _) = append_parts broken _ _ written in
    let (row, found, active) =
      keyed_row (λ r. not (is_terminal r.run.status)) id db.runs keyed live in
    let rows = ap (λ (d : Db). d.runs) same in
    let marked = with_run (set_cleanup unknown at) row in
    let here : find_run id mid.runs ≡ some marked =
      ap (find_run id) rows
      ∙ find_run-update_own (set_cleanup unknown at) (λ r. refl) id db.runs found in
    let still : IsKeyed mid.runs =
      subst IsKeyed (sym rows)
        (update_run-IsKeyed (set_cleanup unknown at) (λ r. refl) id db.runs keyed) in
    let owed : owes_cleanup marked mid ≡ true =
      suspicion_owes marked id mid (found_id id mid.runs here) (
        prepared_suspicious id at detail (rewrite id (set_cleanup unknown at) db) mid
          (ap (λ (d : Db). d.events) same)) in
    let needs : needs_recovery marked ≡ true = ground arith in
    (
      with_run (stopped unknown at') marked,
      recovered_row broken' at' id mid still here lost ∙ rw (needs, owed) refl,
      refl,
      refl,
    )

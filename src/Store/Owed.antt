-- ===== src/Store/Owed.antt =====
-- internal/persistence/sqlite: a run that has prepared an input stays one that owes a cleanup, through
-- whatever the journal does before a recovery.
use oscar_corrtest.Base.{
  ℕ, ◌≡◌, refl, ap, ◌∙◌, String, Bool, true, List, Option, some, ok, any, all,
}
use oscar_corrtest.Run.{unknown}
use oscar_corrtest.Run.Responsibility.{Detail, suspicious_event}
use oscar_corrtest.Store.{Row, Db, Call, find_run, rewrite}
use oscar_corrtest.Store.Keyed.{history-IsKeyed, append_event-IsKeyed}
use oscar_corrtest.Store.Operations.{prepare_run_input, set_cleanup}
use oscar_corrtest.Store.Parts.{prepare_parts}
use oscar_corrtest.Store.Recovered.Cleanup.{IsKeyed, recovered_row}
use oscar_corrtest.Store.Recovered.Prepared.{
  update_run-IsKeyed, prepared_suspicious, suspicion_owes, any-append,
}
use oscar_corrtest.Store.Recovery.{timeline, needs_recovery, recover_interrupted_runs, stopped}
use oscar_corrtest.Store.Rows.{with_run, found_id}
use oscar_corrtest.Store.Timeline.{append_parts}
use oscar_corrtest.Store.Timeline.Growth.{spares, history-Continues}
use oscar_corrtest.Store.Timeline.Ops.{Op, history}

-- Where the ids are distinct: once an input was prepared for a run, a later recovery that takes the run
-- interrupts it with its cleanup state unknown, whatever operations ran in between, each with its own
-- failing calls, if none of them deleted the run.
pub prepared_stays_owed :
    (broken broken' : Call → Bool) (id : String) (at at' : Option ℕ) (detail : Detail) (db : Db)
    (ops : List ((Call → Bool) × Op)) (row : Row) {mid : Db} {n : ℕ} {after : Db}
    → IsKeyed db.runs
    → prepare_run_input broken id at detail db ≡ ok mid
    → all (λ s. spares id s.1) ops ≡ true
    → find_run id (history ops mid).runs ≡ some row
    → needs_recovery row ≡ true
    → recover_interrupted_runs broken' at' (history ops mid) ≡ ok (n, after)
    → find_run id after.runs ≡ some (with_run (stopped unknown at') row)
prepared_stays_owed broken broken' id at at' detail db ops row {mid} keyed prepared spared found
      needs lost =
    let (_, written) = prepare_parts broken id at detail db prepared in
    let (same, _, _) = append_parts broken _ _ written in
    let suspicious =
      prepared_suspicious id at detail (rewrite id (set_cleanup unknown at) db) mid
        (ap (λ (d : Db). d.events) same) in
    let (more, kept) = history-Continues ops id mid spared in
    let still : any suspicious_event (timeline id (history ops mid).events) ≡ true =
      ap (any suspicious_event) kept
      ∙ any-append suspicious_event (timeline id mid.events) more
      ∙ rw suspicious refl in
    let distinct = history-IsKeyed ops mid (
      append_event-IsKeyed broken _ _
        (update_run-IsKeyed (set_cleanup unknown at) (λ r. refl) id db.runs keyed) written) in
    let owed =
      suspicion_owes row id (history ops mid) (found_id id (history ops mid).runs found) still in
    recovered_row broken' at' id (history ops mid) distinct found lost ∙ rw (needs, owed) refl

-- ===== src/Store/Moves.antt =====
-- internal/persistence/sqlite/run_repository.go: TransitionRun, when it succeeds and what it changes.
use oscar_corrtest.Base.{
  ℕ, suc, ◌≡◌, refl, ap, ◌∙◌, ◌↔◌, ◌∷◌, [], String, Bool, true, false, ◌||◌, ◌++◌, Option, some, ok,
  str_eq, any, length, arith,
}
use oscar_corrtest.Run.{RunStatus, can_transition, is_zero}
use oscar_corrtest.Store.{
  Row, Db, Call, find_run, append_event, rewrite, has_id, incomplete, number_event, event_refused,
  last_sequence, update_run,
}
use oscar_corrtest.Store.Operations.{transition_run, transition_event, moved}
use oscar_corrtest.Store.Parts.{transition_parts}
use oscar_corrtest.Store.Recovery.{timeline}
use oscar_corrtest.Store.Rows.{
  with_run, find_run-update_own, find_run-update_other, any_id-update_run, found_any,
}
use oscar_corrtest.Store.Timeline.{IsNumbered, append_parts, last_is_length, number_free}

abbrev pub all_up : Call → Bool
all_up c = false

-- A transition that succeeds is a legal move of the run: the run has the new status, every other run is
-- as it was, and exactly one event is added, which names both statuses and has the run's next number.
pub transition_run_effect :
    (broken : Call → Bool) (id j : String) (next : RunStatus) (at : Option ℕ) (summary : String)
    (db : Db) {after : Db}
    → str_eq id j ≡ false
    → IsNumbered db.events
    → transition_run broken id next at summary db ≡ ok after
    → (row : Row) × (find_run id db.runs ≡ some row)
      × (can_transition row.run.status next ≡ true)
      × (find_run id after.runs ≡ some (with_run (moved next at) row))
      × (find_run j after.runs ≡ find_run j db.runs)
      × (after.events
          ≡ db.events
            ++ record (transition_event id row.run.status next at summary) {
              sequence = suc (length (timeline id db.events));
            }
              ∷ [])
transition_run_effect broken id j next at summary db other h k =
    let (row, found, legal, written) = transition_parts broken id next at summary db k in
    let (same, _, _) = append_parts broken _ _ written in
    let rows = ap (λ (d : Db). d.runs) same in
    let events = ap (λ (d : Db). d.events) same in
    let fresh = last_is_length id db.events (h id) in
    (
      row,
      found,
      legal,
      ap (find_run id) rows ∙ find_run-update_own (moved next at) (λ r. refl) id db.runs found,
      ap (find_run j) rows ∙ find_run-update_other (moved next at) (λ r. refl) id j db.runs other,
      events
          ∙ ap
              (λ n.
                db.events
                ++ record (transition_event id row.run.status next at summary) { sequence = suc n }
                  ∷ [])
              fresh,
    )

-- Where no call fails and the timelines are numbered, a transition succeeds exactly if the run exists,
-- the graph allows the move, and the event has an id, a time and a summary.
pub transition_run_iff :
    (id : String) (next : RunStatus) (at : Option ℕ) (summary : String) (db : Db)
    → IsNumbered db.events
    → ((after : Db) × (transition_run all_up id next at summary db ≡ ok after)) ↔ (
        (row : Row) × (find_run id db.runs ≡ some row)
        × (can_transition row.run.status next ≡ true)
        × ((str_eq id "" || is_zero at || str_eq summary "") ≡ false))
unfolding transition_run append_event event_refused
transition_run_iff id next at summary db h = (
  λ (after, k).
      let (row, found, legal, written) = transition_parts all_up id next at summary db k in
      let (_, whole, _) =
        append_parts all_up (transition_event id row.run.status next at summary)
          (rewrite id (moved next at) db) written in
      (row, found, legal, ground arith),
  λ (row, found, legal, whole).
      let exists : any (has_id id) (update_run id (moved next at) db.runs) ≡ true =
        any_id-update_run (moved next at) (λ r. refl) id id db.runs ∙ found_any id db.runs found in
      let free = number_free id (last_sequence id db.events) db.events (omega arith) in
      let complete : incomplete (transition_event id row.run.status next at summary) ≡ false =
        ground arith in
      (
        record (rewrite id (moved next at) db) {
          events =
              db.events
              ++ number_event db (transition_event id row.run.status next at summary) ∷ [];
        },
        rw (found, legal, complete, exists, free) refl,
      ),
)

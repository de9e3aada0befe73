-- ===== src/Examples/Owed.antt =====
-- internal/persistence/sqlite: a run that prepares an input, observes, and is lost.
use oscar_corrtest.Base.{◌≡◌, refl, List, [], ◌∷◌, some, Bool, ok, err}
use oscar_corrtest.Examples.Store.{journal, lively, no_commit, prepared_db, prepares}
use oscar_corrtest.Run.{observing, unknown, can_transition, status_eq, verdict_valid}
use oscar_corrtest.Run.Responsibility.{no_detail, possible_alert_inputs, suspicious_event}
use oscar_corrtest.Store.{
  Row, Db, Call, find_run, update_run, append_event, event_refused, last_sequence,
}
use oscar_corrtest.Store.Deletion.{delete_rows, delete_terminal_run}
use oscar_corrtest.Store.Keyed.{history-IsKeyed}
use oscar_corrtest.Store.Moves.{all_up}
use oscar_corrtest.Store.Operations.{transition_run}
use oscar_corrtest.Store.Owed.{prepared_stays_owed}
use oscar_corrtest.Store.Recovered.Cleanup.{IsKeyed}
use oscar_corrtest.Store.Recovery.{
  needs_recovery, recover_run, recover_all, recover_interrupted_runs, cleanup_after, stopped,
}
use oscar_corrtest.Store.Rows.{with_run}
use oscar_corrtest.Store.Timeline.Growth.{Continues, history-Continues}
use oscar_corrtest.Store.Timeline.Ops as Ops
use oscar_corrtest.Store.Timeline.Ops.{history, apply}

abbrev steps : List ((Call → Bool) × Ops.Op)
steps =
    (all_up, Ops.move "run-1" observing (some 3) "observe")
    ∷ (no_commit, Ops.recover (some 4))
    ∷ (all_up, Ops.delete "run-2")
    ∷ []

later_db : Db
unfolding prepared_db no_commit apply status_eq transition_run can_transition find_run append_event
    update_run last_sequence event_refused recover_interrupted_runs recover_all recover_run
    needs_recovery cleanup_after possible_alert_inputs delete_terminal_run delete_rows verdict_valid
later_db = history steps prepared_db

abbrev observing_row : Row
observing_row = record lively {
  run = record lively.run { status = observing; cleanup_status = unknown; updated_at = some 3 };
}

found : find_run "run-1" (history steps prepared_db).runs ≡ some observing_row
unfolding later_db
found = refl

lost_db : Db
unfolding later_db suspicious_event
lost_db = elim (recover_interrupted_runs all_up (some 5) later_db) [ ok p ↦ p.1 | err e ↦ journal ]

lost : recover_interrupted_runs all_up (some 5) (history steps prepared_db) ≡ ok (1, lost_db)
unfolding lost_db
lost = refl

prepared_stays_owed_example :
    find_run "run-1" lost_db.runs ≡ some (with_run (stopped unknown (some 5)) observing_row)
prepared_stays_owed_example =
    prepared_stays_owed all_up all_up "run-1" (some 2) (some 5) no_detail journal steps
      observing_row (refl, (refl, tt)) prepares refl found (unfold needs_recovery in refl) lost

history-Continues_example : Continues "run-1" journal (history steps journal)
history-Continues_example = history-Continues steps "run-1" journal refl

history-IsKeyed_example : IsKeyed (history steps journal).runs
history-IsKeyed_example = history-IsKeyed steps journal (refl, (refl, tt))

-- ===== src/Examples/Retention.antt =====
-- internal/runtime/runtime.go: a run that was lost before it did anything, offered for deletion.
use oscar_corrtest.Base.{◌≡◌, refl, [], ◌∷◌, some, true, false, ok, err}
use oscar_corrtest.Examples.Store.{lively}
use oscar_corrtest.Run.{preflight, status_eq}
use oscar_corrtest.Run.Responsibility.{possible_alert_inputs}
use oscar_corrtest.Store.{Row, Db, find_run, update_run, append_event, event_refused, last_sequence}
use oscar_corrtest.Store.Deletion.{delete_terminal_run}
use oscar_corrtest.Store.Moves.{all_up}
use oscar_corrtest.Store.Recovery.{
  needs_recovery, recover_run, recover_all, recover_interrupted_runs, cleanup_after, owes_cleanup,
}
use oscar_corrtest.Store.Retention.{is_eligible, recovered_run_stuck}

abbrev early : Row
early = record lively { run = record lively.run { status = preflight } }

abbrev idle : Db
idle = record {
  runs = early ∷ [];
  events = [];
  resources = [];
  children = [];
  targets = [];
  scenarios = [];
}

lost_db : Db
unfolding recover_interrupted_runs recover_all recover_run needs_recovery append_event find_run
    update_run last_sequence event_refused cleanup_after possible_alert_inputs status_eq
lost_db = elim (recover_interrupted_runs all_up (some 3) idle) [ ok p ↦ p.1 | err e ↦ idle ]

lost : recover_interrupted_runs all_up (some 3) idle ≡ ok (1, lost_db)
unfolding lost_db
lost = refl

early_needs : needs_recovery early ≡ true
unfolding needs_recovery
early_needs = refl

early_clear : owes_cleanup early idle ≡ false
unfolding possible_alert_inputs status_eq
early_clear = refl

recovered_run_stuck_example :
    (r : Row) × (find_run "run-1" lost_db.runs ≡ some r)
    × (is_eligible r.run ≡ true)
    × ((final : Db) → ¬ (delete_terminal_run all_up "run-1" lost_db ≡ ok final))
recovered_run_stuck_example =
    recovered_run_stuck all_up all_up (some 3) "run-1" idle early (refl, tt)
      (unfold find_run in refl) early_needs refl early_clear lost

-- ===== src/Store/Retention.antt =====
-- internal/runtime/runtime.go: which runs `PreviewRetention` offers for deletion, against what
-- DeleteTerminalRun accepts.
use oscar_corrtest.Base.{
  ℕ, ◌≡◌, refl, sym, ap, ◌∙◌, String, Bool, true, false, ◌&&◌, Option, some, ok,
}
use oscar_corrtest.Run.{Run, unset, not_required, verdict_valid, status_eq}
use oscar_corrtest.Store.{Row, Db, Call, find_run, is_terminal}
use oscar_corrtest.Store.Deletion.{delete_terminal_run, proven_clean}
use oscar_corrtest.Store.Parts.{delete_parts}
use oscar_corrtest.Store.Recovered.Cleanup.{IsKeyed, recovered_row}
use oscar_corrtest.Store.Recovery.{needs_recovery, recover_interrupted_runs, stopped, owes_cleanup}
use oscar_corrtest.Store.Rows.{with_run}

-- The test of the loop of `PreviewRetention`, which `DeleteRun` repeats.
abbrev pub is_eligible : Run → Bool
is_eligible r = is_terminal r.status && proven_clean r.cleanup_status

some_row : {x y : Row} → ◌≡◌ {A = Option Row} (some x) (some y) → x ≡ y
some_row e = cc

no_verdict_invalid : verdict_valid unset ≡ true → ⊥
unfolding verdict_valid
no_verdict_invalid h = cc

-- A run without a verdict that a recovery interrupts while it owes no cleanup is offered for deletion in
-- the tables that the recovery leaves, and its deletion from these tables is refused whatever calls fail.
pub recovered_run_stuck :
    (broken broken' : Call → Bool) (at : Option ℕ) (id : String) (db : Db) (row : Row) {n : ℕ}
    {after : Db}
    → IsKeyed db.runs
    → find_run id db.runs ≡ some row
    → needs_recovery row ≡ true
    → row.run.verdict ≡ unset
    → owes_cleanup row db ≡ false
    → recover_interrupted_runs broken at db ≡ ok (n, after)
    → (r : Row) × (find_run id after.runs ≡ some r)
      × (is_eligible r.run ≡ true)
      × ((final : Db) → ¬ (delete_terminal_run broken' id after ≡ ok final))
unfolding status_eq
recovered_run_stuck broken broken' at id db row {n} {after} keyed found needs unjudged clear lost =
    let left : find_run id after.runs ≡ some (with_run (stopped not_required at) row) =
      recovered_row broken at id db keyed found lost ∙ rw (needs, clear) refl in
    (
      with_run (stopped not_required at) row,
      left,
      refl,
      λ final gone.
          let (r, there, _, judged, _, _) = delete_parts broken' id after gone in
          let same : r.run.verdict ≡ unset =
            ap (λ (x : Row). x.run.verdict) (some_row (sym there ∙ left)) ∙ unjudged in
          no_verdict_invalid (ap verdict_valid (sym same) ∙ judged),
    )

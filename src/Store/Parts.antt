-- ===== src/Store/Parts.antt =====
-- internal/persistence/sqlite: what a successful operation of the journal has passed on its way.
use oscar_corrtest.Base.{
  ℕ, ◌≡◌, refl, sym, ap, ◌∙◌, ◌∷◌, [], String, Bool, true, false, ◌&&◌, ◌||◌, not, ◌++◌, Option,
  none, some, Result, ok, err, ◌>>=◌, ◌>>◌, str_eq, any, keep, length, >>=-eq-ok, ok-injective,
  refuse_if-eq-ok, arith,
}
use oscar_corrtest.Run.{
  RunStatus, CleanupStatus, unknown, can_transition, is_zero, cleanup_valid, verdict_valid,
}
use oscar_corrtest.Run as Domain
use oscar_corrtest.Run.Responsibility.{RunEvent, Detail}
use oscar_corrtest.Store.{
  Row, Db, Call, Outcome, call, ready, begin_tx, commit, read_run, write_run, insert_run, find_run,
  append_event, rewrite, assertions, alert_attempts, artifacts, run_cases, delete_from,
  delete_events, delete_resources, delete_runs, require, has_id, is_terminal, count_resources,
  read_events, list_active,
}
use oscar_corrtest.Store.Operations.{
  create_run, append_run_event, transition_run, prepare_run_input, set_terminal_run_cleanup,
  transition_event, prepared_event, retry_event, moved, set_cleanup, as_store, run_refused,
}
use oscar_corrtest.Store.Recovery.{
  recover_run, recover_all, recover_interrupted_runs, needs_recovery, cleanup_after, stopped,
  interruption,
}
use oscar_corrtest.Store.Deletion.{
  delete_rows, delete_terminal_run, proven_clean, quieted, cleared, case_in_use,
}

validated : (r : Result Domain.RunError (Unit {0})) {u : Unit {0}} → as_store r ≡ ok u → r ≡ ok tt
validated (ok done) h = refl
validated (err e) h = cc

require_found : (found : Option Row) {row : Row} → require found ≡ ok row → found ≡ some row
require_found (some r) h = ap some (ok-injective h)
require_found none h = cc

module _ (broken : Call → Bool) where
  committed :
      (m : Outcome Db) {after : Db}
      → (m >>= λ written. call broken commit >> ok written) ≡ ok after
      → m ≡ ok after
  committed m h =
      let (written, done, k) = >>=-eq-ok m _ h in
      let (_, same) = refuse_if-eq-ok (broken commit) _ _ k in done ∙ same

  pub append_run_event_parts :
      (e : RunEvent) (db : Db) {after : Db}
      → append_run_event broken e db ≡ ok after
      → append_event broken e db ≡ ok after
  unfolding append_run_event
  append_run_event_parts e db h =
      let (_, h1) = refuse_if-eq-ok (broken ready) _ _ h in
      let (_, h2) = refuse_if-eq-ok (broken begin_tx) _ _ h1 in
      committed (append_event broken e db) h2

  pub transition_parts :
      (id : String) (next : RunStatus) (at : Option ℕ) (summary : String) (db : Db) {after : Db}
      → transition_run broken id next at summary db ≡ ok after
      → (row : Row) × (find_run id db.runs ≡ some row)
        × (can_transition row.run.status next ≡ true)
        × (append_event broken
              (transition_event id row.run.status next at summary)
              (rewrite id (moved next at) db)
            ≡ ok after)
  unfolding transition_run
  transition_parts id next at summary db h =
      let (_, h1) = refuse_if-eq-ok (broken ready) _ _ h in
      let (_, h2) = refuse_if-eq-ok (broken begin_tx) _ _ h1 in
      let (_, h3) = refuse_if-eq-ok (broken (read_run id)) _ _ h2 in
      let (row, found, h4) = >>=-eq-ok (require (find_run id db.runs)) _ h3 in
      let (legal, h5) = refuse_if-eq-ok (not (can_transition row.run.status next)) _ _ h4 in
      let (_, h6) = refuse_if-eq-ok (broken (write_run id)) _ _ h5 in
      (
        row,
        require_found _ found,
        ground arith,
        committed
            (append_event broken (transition_event id row.run.status next at summary)
              (rewrite id (moved next at) db))
            h6,
      )

  pub prepare_parts :
      (id : String) (at : Option ℕ) (detail : Detail) (db : Db) {after : Db}
      → prepare_run_input broken id at detail db ≡ ok after
      → (any (λ r. has_id id r && not (is_terminal r.run.status)) db.runs ≡ true)
        × (append_event broken
              (prepared_event id at detail)
              (rewrite id (set_cleanup unknown at) db)
            ≡ ok after)
  unfolding prepare_run_input
  prepare_parts id at detail db h =
      let (_, h1) = refuse_if-eq-ok (broken ready) _ _ h in
      let (_, h2) = refuse_if-eq-ok (broken begin_tx) _ _ h1 in
      let (_, h3) = refuse_if-eq-ok (broken (write_run id)) _ _ h2 in
      let (live, h4) =
        refuse_if-eq-ok (not (any (λ r. has_id id r && not (is_terminal r.run.status)) db.runs)) _ _
          h3 in
      (
        ground arith,
        committed
            (append_event broken (prepared_event id at detail)
              (rewrite id (set_cleanup unknown at) db))
            h4,
      )

  pub set_cleanup_parts :
      (id : String) (cleanup : CleanupStatus) (at : Option ℕ) (summary : String) (db : Db)
      {after : Db}
      → set_terminal_run_cleanup broken id cleanup at summary db ≡ ok after
      → (any (λ r. has_id id r && is_terminal r.run.status) db.runs ≡ true)
        × (append_event broken (retry_event id at summary) (rewrite id (set_cleanup cleanup at) db)
            ≡ ok after)
  unfolding set_terminal_run_cleanup
  set_cleanup_parts id cleanup at summary db h =
      let (_, h1) =
        refuse_if-eq-ok (not (cleanup_valid cleanup) || is_zero at || str_eq summary "") _ _ h in
      let (_, h2) = refuse_if-eq-ok (broken begin_tx) _ _ h1 in
      let (_, h3) = refuse_if-eq-ok (broken (write_run id)) _ _ h2 in
      let (live, h4) =
        refuse_if-eq-ok (not (any (λ r. has_id id r && is_terminal r.run.status) db.runs)) _ _ h3 in
      (
        ground arith,
        committed
            (append_event broken (retry_event id at summary)
              (rewrite id (set_cleanup cleanup at) db))
            h4,
      )

  pub recover_run_parts :
      (at : Option ℕ) (r : Row) (db : Db) {after : Db}
      → recover_run broken at r db ≡ ok after
      → append_event broken
          (interruption r at)
          (rewrite r.run.id (stopped (cleanup_after r db) at) db)
        ≡ ok after
  unfolding recover_run
  recover_run_parts at r db h =
      let (_, h1) = refuse_if-eq-ok (broken (count_resources r.run.id)) _ _ h in
      let (_, h2) = refuse_if-eq-ok (broken (read_events r.run.id)) _ _ h1 in
      let (_, h3) = refuse_if-eq-ok (broken (write_run r.run.id)) _ _ h2 in h3

  pub recover_parts :
      (at : Option ℕ) (db : Db) {n : ℕ} {after : Db}
      → recover_interrupted_runs broken at db ≡ ok (n, after)
      → (n ≡ length (keep needs_recovery db.runs))
        × (recover_all broken at (keep needs_recovery db.runs) db ≡ ok after)
  unfolding recover_interrupted_runs
  recover_parts at db {n} {after} h =
      let (_, h1) = refuse_if-eq-ok (broken ready) _ _ h in
      let (_, h2) = refuse_if-eq-ok (broken begin_tx) _ _ h1 in
      let (_, h3) = refuse_if-eq-ok (broken list_active) _ _ h2 in
      let (next, done, h4) =
        >>=-eq-ok (recover_all broken at (keep needs_recovery db.runs) db) _ h3 in
      let (_, same) = refuse_if-eq-ok (broken commit) _ _ h4 in
      let pair : (length (keep needs_recovery db.runs), next) ≡ (n, after) = ok-injective same in
      (sym (ap (λ p. p.0) pair), done ∙ ap ok (ap (λ p. p.1) pair))

  -- What a new run must satisfy in the tables.
  pub create_parts :
      (row : Row) (db : Db) {after : Db}
      → create_run broken row db ≡ ok after
      → (Domain.validate row.run ≡ ok tt)
        × (any (λ r. has_id row.run.id r || str_eq r.run.short_token row.run.short_token) db.runs
            ≡ false)
        × (after ≡ record db { runs = db.runs ++ row ∷ [] })
  unfolding create_run
  create_parts row db h =
      let (_, h1) = refuse_if-eq-ok (broken ready) _ _ h in
      let (done, fine, h2) = >>=-eq-ok (as_store (Domain.validate row.run)) _ h1 in
      let (_, h3) = refuse_if-eq-ok (broken insert_run) _ _ h2 in
      let (fits, h4) = refuse_if-eq-ok (run_refused db row) _ _ h3 in
      (validated _ fine, ground arith, sym (ok-injective h4))

  pub delete_parts :
      (id : String) (db : Db) {after : Db}
      → delete_terminal_run broken id db ≡ ok after
      → (row : Row) × (find_run id db.runs ≡ some row)
        × (is_terminal row.run.status ≡ true)
        × (verdict_valid row.run.verdict ≡ true)
        × (proven_clean row.run.cleanup_status ≡ true)
        × (delete_rows broken id db ≡ ok after)
  unfolding delete_terminal_run
  delete_parts id db h =
      let (_, h1) = refuse_if-eq-ok (broken begin_tx) _ _ h in
      let (_, h2) = refuse_if-eq-ok (broken (read_run id)) _ _ h1 in
      let (row, found, h3) = >>=-eq-ok (require (find_run id db.runs)) _ h2 in
      let (safe, h4) =
        refuse_if-eq-ok
          (not (is_terminal row.run.status)
            || not (verdict_valid row.run.verdict)
            || not (proven_clean row.run.cleanup_status))
          _ _ h3 in
      (
        row,
        require_found _ found,
        ground arith,
        ground arith,
        ground arith,
        committed (delete_rows broken id db) h4,
      )

  pub delete_rows_parts :
      (id : String) (db : Db) {after : Db}
      → delete_rows broken id db ≡ ok after
      → (any (λ c. str_eq c.run_id id) (cleared id db).children ≡ false)
        × (after ≡ record (cleared id db) { runs = keep (λ r. not (has_id id r)) db.runs })
  unfolding delete_rows
  delete_rows_parts id db h =
      let (_, h1) = refuse_if-eq-ok (broken (delete_from assertions)) _ _ h in
      let (_, h2) = refuse_if-eq-ok (broken (delete_from alert_attempts)) _ _ h1 in
      let (_, h3) = refuse_if-eq-ok (broken (delete_from artifacts)) _ _ h2 in
      let (_, h4) = refuse_if-eq-ok (broken delete_events) _ _ h3 in
      let (_, h5) = refuse_if-eq-ok (broken (delete_from run_cases)) _ _ h4 in
      let (_, h6) = refuse_if-eq-ok (case_in_use id (quieted id db)) _ _ h5 in
      let (_, h7) = refuse_if-eq-ok (broken delete_resources) _ _ h6 in
      let (_, h8) = refuse_if-eq-ok (broken delete_runs) _ _ h7 in
      let (free, h9) =
        refuse_if-eq-ok (any (λ c. str_eq c.run_id id) (cleared id db).children) _ _ h8 in
      (free, sym (ok-injective h9))

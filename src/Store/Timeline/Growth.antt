-- ===== src/Store/Timeline/Growth.antt =====
-- internal/persistence/sqlite/run_repository.go: the events of a run are only ever added to, until the run
-- is deleted.
use oscar_corrtest.Base.{
  ℕ, ◌≡◌, sym, ap, ◌∙◌, ◌∷◌, [], String, Bool, true, not, List, ◌++◌, Option, ok, str_eq, all, keep,
  inl, inr, >>=-eq-ok, ok-injective, arith, Result-cases, and-eq-true,
}
use mathlib.Core.List.{append_assoc, append-nil}
use mathlib.Core.Path.{subst}
use oscar_corrtest.Run.Responsibility.{RunEvent}
use oscar_corrtest.Store.{Row, Db, Call, of_run, append_event, number_event}
use oscar_corrtest.Store.Frame.{
  Frame, finalize-Frame, documents-Frame, preflight-Frame, ledger-Frame,
}
use oscar_corrtest.Store.Deleted.{delete_terminal_run_lem}
use oscar_corrtest.Store.Parts.{
  append_run_event_parts, transition_parts, prepare_parts, set_cleanup_parts, recover_run_parts,
  recover_parts, create_parts,
}
use oscar_corrtest.Store.Recovery.{
  timeline, needs_recovery, recover_run, recover_all, recover_interrupted_runs,
}
use oscar_corrtest.Store.Timeline.{append_parts, keep-append}
use oscar_corrtest.Store.Timeline.Ops.{
  Op, create, append, move, prepare, set_cleanup, recover, delete, preflight, documents, finalize,
  ledger, apply, settle, history,
}

-- The timeline of a run in the second tables continues that in the first.
abbrev pub Continues : String → Db → Db → Type 0
Continues id db next =
    (more : List RunEvent) × (timeline id next.events ≡ timeline id db.events ++ more)

Continues-refl : (id : String) (db : Db) → Continues id db db
Continues-refl id db = ([], sym (append-nil (timeline id db.events)))

Continues-trans :
    (id : String) (a b c : Db) → Continues id a b → Continues id b c → Continues id a c
Continues-trans id a b c (xs, p) (ys, q) =
    (xs ++ ys, q ∙ ap (λ es. es ++ ys) p ∙ append_assoc (timeline id a.events) xs ys)

-- Is the operation another than the deletion of the run?
abbrev pub spares : String → Op → Bool
spares id (delete j) = not (str_eq j id)
spares id op = true

module _ (broken : Call → Bool) (id : String) where
  append_event-Continues :
      (e : RunEvent) (db : Db) {next : Db}
      → append_event broken e db ≡ ok next
      → Continues id db next
  append_event-Continues e db h =
      let (same, _, _) = append_parts broken e db h in
      (
        keep (of_run id) (number_event db e ∷ []),
        ap (λ (d : Db). timeline id d.events) same
            ∙ keep-append (of_run id) db.events (number_event db e ∷ []),
      )

  recover_all-Continues :
      (at : Option ℕ) (rs : List Row) (db : Db) {next : Db}
      → recover_all broken at rs db ≡ ok next
      → Continues id db next
  unfolding recover_all
  recover_all-Continues at [] db h = subst (Continues id db) (ok-injective h) (Continues-refl id db)
  recover_all-Continues at (r ∷ rs) db {next} h =
      let (mid, done, rest) = >>=-eq-ok (recover_run broken at r db) _ h in
      Continues-trans id db mid next
        (append_event-Continues _ _ (recover_run_parts broken at r db done))
        (recover_all-Continues at rs mid rest)

  Frame-Continues : {db next : Db} → Frame db next → Continues id db next
  Frame-Continues {db} same =
      ([], ap (timeline id) same.events ∙ sym (append-nil (timeline id db.events)))

  apply-Continues :
      (op : Op) (db : Db) {next : Db}
      → spares id op ≡ true
      → apply broken op db ≡ ok next
      → Continues id db next
  unfolding apply
  apply-Continues (create row) db s h =
      let (_, _, same) = create_parts broken row db h in
      ([], ap (λ (d : Db). timeline id d.events) same ∙ sym (append-nil (timeline id db.events)))
  apply-Continues (append e) db s h =
      append_event-Continues e db (append_run_event_parts broken e db h)
  apply-Continues (move j next at summary) db s h =
      let (_, _, _, written) = transition_parts broken j next at summary db h in
      append_event-Continues _ _ written
  apply-Continues (prepare j at detail) db s h =
      let (_, written) = prepare_parts broken j at detail db h in append_event-Continues _ _ written
  apply-Continues (set_cleanup j cleanup at summary) db s h =
      let (_, written) = set_cleanup_parts broken j cleanup at summary db h in
      append_event-Continues _ _ written
  apply-Continues (recover at) db s h =
      let ((n, after), done, same) = >>=-eq-ok (recover_interrupted_runs broken at db) _ h in
      let (_, all_done) = recover_parts broken at db done in
      recover_all-Continues at (keep needs_recovery db.runs) db (all_done ∙ same)
  apply-Continues (delete j) db s h =
      let (_, _, _, _, _, _, _, _, _, _, kept, _, _) =
        delete_terminal_run_lem broken j id db (ground arith) h in
      ([], kept ∙ sym (append-nil (timeline id db.events)))
  apply-Continues (preflight j plan at) db s h =
      Frame-Continues (preflight-Frame broken j plan at db h)
  apply-Continues (documents j capabilities plan at) db s h =
      Frame-Continues (documents-Frame broken j capabilities plan at db h)
  apply-Continues (finalize j facts v c report t at) db {next} s h =
      let (mid, same, written) = finalize-Frame broken j facts v c report t at db h in
      Continues-trans id db mid next (Frame-Continues same) (append_event-Continues _ mid written)
  apply-Continues (ledger op) db s h = Frame-Continues (ledger-Frame broken op db h)

-- Whatever operations run, each with its own failing calls, the events of a run are kept in their place and
-- only added to, if none of the operations deletes the run.
pub history-Continues :
    (ops : List ((Call → Bool) × Op)) (id : String) (db : Db)
    → all (λ s. spares id s.1) ops ≡ true
    → Continues id db (history ops db)
history-Continues [] id db h = Continues-refl id db
history-Continues ((broken, op) ∷ ops) id db h =
    let (spared, rest) = and-eq-true (spares id op) (all (λ s. spares id s.1) ops) h in
    let step : Continues id db (settle db (apply broken op db)) =
      elim (Result-cases (apply broken op db)) [
        | inl (next, done) ↦ rw done (apply-Continues broken id op db spared done)
        | inr (e, failed) ↦ rw failed (Continues-refl id db)
      ] in
    Continues-trans id db (settle db (apply broken op db))
      (history ops (settle db (apply broken op db))) step
      (history-Continues ops id (settle db (apply broken op db)) rest)

-- ===== src/Store/Keyed.antt =====
-- internal/persistence/sqlite/run_repository.go: the ids of the runs stay distinct.
use oscar_corrtest.Base.{
  ℕ, ◌≡◌, refl, sym, ◌∙◌, ◌∷◌, [], String, Bool, false, ◌||◌, not, List, ◌++◌, Option, ok, str_eq,
  any, keep, >>=-eq-ok, ok-injective, arith, inl, inr, Result-cases, eq_iff,
}
use mathlib.Core.Path.{subst}
use oscar_corrtest.Run.Responsibility.{RunEvent}
use oscar_corrtest.Store.{Row, Db, Call, has_id, append_event}
use oscar_corrtest.Store.Frame.{finalize-Frame, documents-Frame, preflight-Frame, ledger-Frame}
use oscar_corrtest.Store.Operations.{moved, set_cleanup}
use oscar_corrtest.Store.Parts.{
  append_run_event_parts, transition_parts, prepare_parts, set_cleanup_parts, recover_parts,
  create_parts, delete_parts, delete_rows_parts,
}
use oscar_corrtest.Store.Recovered.{recover_run_lem}
use oscar_corrtest.Store.Recovered.Cleanup.{IsKeyed, keep-IsKeyed}
use oscar_corrtest.Store.Recovered.Prepared.{update_run-IsKeyed}
use oscar_corrtest.Store.Recovery.{
  needs_recovery, recover_run, recover_all, recover_interrupted_runs, cleanup_after, stopped,
}
use oscar_corrtest.Store.Timeline.{append_parts}
use oscar_corrtest.Store.Timeline.Ops as Ops
use oscar_corrtest.Store.Timeline.Ops.{Op, apply, settle, history}

any_id_snoc :
    (id : String) (rs : List Row) (r : Row)
    → any (has_id id) (rs ++ r ∷ []) ≡ (any (has_id id) rs || has_id id r)
any_id_snoc id [] r = ground arith
any_id_snoc id (x ∷ rs) r = ground (arith, any_id_snoc id rs r)

IsKeyed-snoc :
    (p : Row → Bool) (rs : List Row) (r : Row)
    → IsKeyed rs
    → any (λ x. has_id r.run.id x || p x) rs ≡ false
    → IsKeyed (rs ++ r ∷ [])
IsKeyed-snoc p [] r h free = (refl, tt)
IsKeyed-snoc p (x ∷ rs) r (new, h) free = (
  ground (arith, any_id_snoc x.run.id rs r, eq_iff x.run.id r.run.id, eq_iff r.run.id x.run.id),
  IsKeyed-snoc p rs r h (ground arith),
)

module _ (broken : Call → Bool) where
  pub append_event-IsKeyed :
      (e : RunEvent) (db : Db) {next : Db}
      → IsKeyed db.runs
      → append_event broken e db ≡ ok next
      → IsKeyed next.runs
  append_event-IsKeyed e db h k =
      let (same, _, _) = append_parts broken e db k in
      subst (λ (d : Db). IsKeyed d.runs) (sym same) h

  recover_all-IsKeyed :
      (at : Option ℕ) (rs : List Row) (db : Db) {next : Db}
      → IsKeyed db.runs
      → recover_all broken at rs db ≡ ok next
      → IsKeyed next.runs
  unfolding recover_all
  recover_all-IsKeyed at [] db h k = subst (λ (d : Db). IsKeyed d.runs) (ok-injective k) h
  recover_all-IsKeyed at (r ∷ rs) db h k =
      let (mid, done, rest) = >>=-eq-ok (recover_run broken at r db) _ k in
      let same = recover_run_lem broken at r db done in
      recover_all-IsKeyed at rs mid
        (subst (λ (d : Db). IsKeyed d.runs) (sym same)
          (update_run-IsKeyed (stopped (cleanup_after r db) at) (λ x. refl) r.run.id db.runs h))
        rest

  apply-IsKeyed :
      (op : Op) (db : Db) {next : Db}
      → IsKeyed db.runs
      → apply broken op db ≡ ok next
      → IsKeyed next.runs
  unfolding apply
  apply-IsKeyed (Ops.create row) db h k =
      let (_, free, same) = create_parts broken row db k in
      subst (λ (d : Db). IsKeyed d.runs) (sym same)
        (IsKeyed-snoc (λ r. str_eq r.run.short_token row.run.short_token) db.runs row h free)
  apply-IsKeyed (Ops.append e) db h k =
      append_event-IsKeyed e db h (append_run_event_parts broken e db k)
  apply-IsKeyed (Ops.move id next at summary) db h k =
      let (_, _, _, written) = transition_parts broken id next at summary db k in
      append_event-IsKeyed _ _ (update_run-IsKeyed (moved next at) (λ r. refl) id db.runs h) written
  apply-IsKeyed (Ops.prepare id at detail) db h k =
      let (_, written) = prepare_parts broken id at detail db k in
      append_event-IsKeyed _ _ (update_run-IsKeyed _ (λ r. refl) id db.runs h) written
  apply-IsKeyed (Ops.set_cleanup id cleanup at summary) db h k =
      let (_, written) = set_cleanup_parts broken id cleanup at summary db k in
      append_event-IsKeyed _ _
        (update_run-IsKeyed (set_cleanup cleanup at) (λ r. refl) id db.runs h) written
  apply-IsKeyed (Ops.recover at) db h k =
      let ((n, after), done, same) = >>=-eq-ok (recover_interrupted_runs broken at db) _ k in
      let (_, all_done) = recover_parts broken at db done in
      recover_all-IsKeyed at (keep needs_recovery db.runs) db h (all_done ∙ same)
  apply-IsKeyed (Ops.delete id) db h k =
      let (_, _, _, _, _, rows) = delete_parts broken id db k in
      let (_, same) = delete_rows_parts broken id db rows in
      subst (λ (d : Db). IsKeyed d.runs) (sym same)
        (keep-IsKeyed (λ r. not (has_id id r)) db.runs h)
  apply-IsKeyed (Ops.preflight id plan at) db h k = (preflight-Frame broken id plan at db k).keyed h
  apply-IsKeyed (Ops.documents id capabilities plan at) db h k =
      (documents-Frame broken id capabilities plan at db k).keyed h
  apply-IsKeyed (Ops.finalize id facts v c report t at) db h k =
      let (mid, same, written) = finalize-Frame broken id facts v c report t at db k in
      append_event-IsKeyed _ mid (same.keyed h) written
  apply-IsKeyed (Ops.ledger op) db h k = (ledger-Frame broken op db k).keyed h

-- Whatever operations run, each with its own failing calls, the ids of the runs are distinct, if they were
-- before.
pub history-IsKeyed :
    (ops : List ((Call → Bool) × Op)) (db : Db) → IsKeyed db.runs → IsKeyed (history ops db).runs
history-IsKeyed [] db h = h
history-IsKeyed ((broken, op) ∷ ops) db h =
    history-IsKeyed ops (settle db (apply broken op db)) (elim (Result-cases (apply broken op db)) [
      | inl (next, done) ↦ rw done (apply-IsKeyed broken op db h done)
      | inr (e, failed) ↦ rw failed h
    ])

-- ===== src/Store/Frame.antt =====
-- internal/persistence/sqlite: what a finalization, the documents of a run and the ledger of resources leave of
-- the events and of the ids.
use oscar_corrtest.Base.{
  ℕ, ◌≡◌, refl, sym, ap, String, Bool, ◌||◌, not, List, [], ◌∷◌, Option, ok, ◌==◌, str_eq, tally,
  any, Bool-cases, inl, inr, >>=-eq-ok, ok-injective, refuse_if-eq-ok,
}
use mathlib.Core.Path.{subst}
use oscar_corrtest.Run.{Verdict, CleanupStatus, cleaning_up, completed, is_zero}
use oscar_corrtest.Run.Facts.{ExecutionFacts, Json}
use oscar_corrtest.Run.Responsibility.{Report}
use oscar_corrtest.Store.{
  Db, Row, Call, append_event, has_id, ready, write_run, bad_plan, not_uninitialized, count_names,
  insert_resource, write_resource,
}
use oscar_corrtest.Store.Documents.{
  PlanText, set_ordinary_preflight_plan, set_run_execution_documents, decoded, is_uninitialized,
  with_plan, with_documents,
}
use oscar_corrtest.Store.Documents.Planned.{set_run_execution_documents_lem}
use oscar_corrtest.Store.Execution.{set_where, to_complete, ended, finalize_run}
use oscar_corrtest.Store.Execution.Confined.{
  OnlyRows-trans, write_cases-OnlyRows, write_attempts-OnlyRows,
}
use oscar_corrtest.Store.Execution.Parts.{completed_db, finalize_parts}
use oscar_corrtest.Store.Execution.Rows.{any_same}
use oscar_corrtest.Store.Operations.{transition_event}
use oscar_corrtest.Store.Resources.{
  is_resource, holds_name, resource_refused, adoptable, deletable, create_resource, adopt_resource,
  mark_resource_deleted, mark_resource_cleanup_error,
}
use oscar_corrtest.Store.Resources.Names as Ledger
use oscar_corrtest.Store.Recovered.Cleanup.{IsKeyed}

pub set_where-IsKeyed :
    (p : Row → Bool) (f : Row → Row) (keeps : (r : Row) → (f r).run.id ≡ r.run.id) (rs : List Row)
    → IsKeyed rs
    → IsKeyed (set_where p f rs)
set_where-IsKeyed p f keeps [] h = tt
set_where-IsKeyed p f keeps (r ∷ rs) (new, h) =
    let same = any_same p f (has_id r.run.id) (λ x. ap (λ i. str_eq i r.run.id) (keeps x)) rs in
    elim (Bool-cases (p r)) [
      | inl hit ↦ rw (hit, keeps r, same) (new, set_where-IsKeyed p f keeps rs h)
      | inr miss ↦ rw (miss, same) (new, set_where-IsKeyed p f keeps rs h)
    ]

-- The operation has the events and the keys of the first tables in the second.
pub record Frame (db next : Db) : Type 0 where
  pub events : next.events ≡ db.events
  pub keyed : IsKeyed db.runs → IsKeyed next.runs

module _ (broken : Call → Bool) where
  pub finalize-Frame :
      (id : String) (facts : ExecutionFacts) (v : Verdict) (c : CleanupStatus)
      (report : Option Report) (t : String) (at : Option ℕ) (db : Db) {after : Db}
      → finalize_run broken id facts v c report t at db ≡ ok after
      → (mid : Db) × Frame db mid
        × (append_event broken (transition_event id cleaning_up completed at "Run completed") mid
            ≡ ok after)
  finalize-Frame id facts v c report t at db h =
      let (cases, attempts, r, _, _, cases_done, attempts_done, _, _, written) =
        finalize_parts broken id facts v c report t at db h in
      let only =
        OnlyRows-trans id db cases attempts
          (write_cases-OnlyRows broken id facts.cases db cases_done)
          (write_attempts-OnlyRows broken id at facts.attempts cases attempts_done) in
      (
        completed_db broken id v c r t at attempts,
        record {
          events = ap (λ (d : Db). d.events) only.rest;
          keyed = λ keyed.
              set_where-IsKeyed (to_complete id) (ended v c r t at) (λ x. refl) attempts.runs
                (subst (λ (d : Db). IsKeyed d.runs) (sym only.rest) keyed);
        },
        written,
      )

  pub documents-Frame :
      (id : String) (capabilities : Json) (plan : PlanText) (at : Option ℕ) (db : Db) {after : Db}
      → set_run_execution_documents broken id capabilities plan at db ≡ ok after
      → Frame db after
  documents-Frame id capabilities plan at db h =
      let (document, _, _, _, same) =
        set_run_execution_documents_lem broken id capabilities plan at db h in
      record {
        events = ap (λ (d : Db). d.events) same;
        keyed = λ keyed.
            subst (λ (d : Db). IsKeyed d.runs) (sym same)
              (set_where-IsKeyed (has_id id) (with_documents capabilities plan.text at) (λ x. refl)
                db.runs keyed);
      }

  pub preflight-Frame :
      (id : String) (plan : PlanText) (at : Option ℕ) (db : Db) {after : Db}
      → set_ordinary_preflight_plan broken id plan at db ≡ ok after
      → Frame db after
  unfolding set_ordinary_preflight_plan
  preflight-Frame id plan at db h =
      let (_, h1) = refuse_if-eq-ok (broken ready) _ _ h in
      let ((run_id, path), _, h2) = >>=-eq-ok (decoded plan.route) _ h1 in
      let (_, h3) =
        refuse_if-eq-ok
          (not (str_eq run_id id) || not (str_eq path "ordinary-webhook") || is_zero at) bad_plan _
          h2 in
      let (_, h4) = refuse_if-eq-ok (broken (write_run id)) _ _ h3 in
      let (_, h5) =
        refuse_if-eq-ok (not (tally (is_uninitialized id) db.runs == 1)) not_uninitialized _ h4 in
      subst (Frame db) (ok-injective h5) (record {
        events = refl;
        keyed =
            set_where-IsKeyed (is_uninitialized id) (with_plan plan.text at) (λ x. refl) db.runs;
      })

  pub ledger-Frame :
      (op : Ledger.Op) (db : Db) {after : Db}
      → Ledger.apply broken op db ≡ ok after
      → Frame db after
  unfolding Ledger.apply create_resource adopt_resource mark_resource_deleted
      mark_resource_cleanup_error
  ledger-Frame (Ledger.create r) db k =
      let (_, k1) = refuse_if-eq-ok (resource_refused r) _ _ k in
      let (_, k2) = refuse_if-eq-ok (broken count_names) _ _ k1 in
      let (_, k3) = refuse_if-eq-ok (any (holds_name r.external_name) db.resources) _ _ k2 in
      let (_, k4) = refuse_if-eq-ok (broken insert_resource) _ _ k3 in
      let (_, k5) =
        refuse_if-eq-ok (any (is_resource r.id) db.resources || not (any (has_id r.run_id) db.runs))
          _ _ k4 in
      subst (Frame db) (ok-injective k5) (record { events = refl; keyed = λ h. h })
  ledger-Frame (Ledger.adopt id external_id at) db k =
      let (_, k1) = refuse_if-eq-ok (str_eq external_id "" || is_zero at) _ _ k in
      let (_, k2) = refuse_if-eq-ok (broken write_resource) _ _ k1 in
      let (_, k3) = refuse_if-eq-ok (not (any (adoptable id) db.resources)) _ _ k2 in
      subst (Frame db) (ok-injective k3) (record { events = refl; keyed = λ h. h })
  ledger-Frame (Ledger.delete id at) db k =
      let (_, k1) = refuse_if-eq-ok (is_zero at) _ _ k in
      let (_, k2) = refuse_if-eq-ok (broken write_resource) _ _ k1 in
      let (_, k3) = refuse_if-eq-ok (not (any (deletable id) db.resources)) _ _ k2 in
      subst (Frame db) (ok-injective k3) (record { events = refl; keyed = λ h. h })
  ledger-Frame (Ledger.blame id message) db k =
      let (_, k1) = refuse_if-eq-ok (str_eq message "") _ _ k in
      let (_, k2) = refuse_if-eq-ok (broken write_resource) _ _ k1 in
      subst (Frame db) (ok-injective k2) (record { events = refl; keyed = λ h. h })

-- ===== src/Store/Timeline/Ops.antt =====
-- internal/persistence/sqlite/run_repository.go, input_attempt.go: what every operation of the journal
-- leaves of the timelines, and sequences of operations, each with its own failing calls.
use oscar_corrtest.Base.{
  ℕ, suc, ◌≡◌, sym, ◌∙◌, ◌∷◌, [], String, Bool, false, not, List, Option, ok, err, ◌>>=◌, keep,
  Bool-cases, >>=-eq-ok, ok-injective, arith, inl, inr, eq_iff, Result-cases,
}
use mathlib.Core.Path.{subst}
use oscar_corrtest.Run.{RunStatus, Verdict, CleanupStatus}
use oscar_corrtest.Run.Facts.{ExecutionFacts, Json}
use oscar_corrtest.Run.Responsibility.{RunEvent, Detail, Report}
use oscar_corrtest.Store.{Row, Db, Call, Outcome, of_run, append_event}
use oscar_corrtest.Store.Operations.{
  create_run, append_run_event, transition_run, prepare_run_input, set_terminal_run_cleanup,
}
use oscar_corrtest.Store.Parts.{
  append_run_event_parts, transition_parts, prepare_parts, set_cleanup_parts, recover_run_parts,
  recover_parts, create_parts, delete_parts, delete_rows_parts,
}
use oscar_corrtest.Store.Recovery.{
  timeline, needs_recovery, recover_run, recover_all, recover_interrupted_runs,
}
use oscar_corrtest.Store.Deletion.{delete_terminal_run}
use oscar_corrtest.Store.Documents.{
  PlanText, set_ordinary_preflight_plan, set_run_execution_documents,
}
use oscar_corrtest.Store.Execution.{finalize_run}
use oscar_corrtest.Store.Frame.{
  Frame, finalize-Frame, documents-Frame, preflight-Frame, ledger-Frame,
}
use oscar_corrtest.Store.Resources.Names as Ledger
use oscar_corrtest.Store.Timeline.{IsNumbered, Numbered, append_parts, appended-IsNumbered}

pub data Op : Type 0 where
  create : Row → Op
  append : RunEvent → Op
  move : String → RunStatus → Option ℕ → String → Op
  prepare : String → Option ℕ → Detail → Op
  set_cleanup : String → CleanupStatus → Option ℕ → String → Op
  recover : Option ℕ → Op
  delete : String → Op
  preflight : String → PlanText → Option ℕ → Op
  documents : String → Json → PlanText → Option ℕ → Op
  finalize :
      String → ExecutionFacts → Verdict → CleanupStatus → Option Report → String → Option ℕ → Op
  ledger : Ledger.Op → Op

unfoldable pub apply : (Call → Bool) → Op → Db → Outcome Db
apply broken (create row) db = create_run broken row db
apply broken (append e) db = append_run_event broken e db
apply broken (move id next at summary) db = transition_run broken id next at summary db
apply broken (prepare id at detail) db = prepare_run_input broken id at detail db
apply broken (set_cleanup id cleanup at summary) db =
    set_terminal_run_cleanup broken id cleanup at summary db
apply broken (recover at) db = recover_interrupted_runs broken at db >>= λ (n, next). ok next
apply broken (delete id) db = delete_terminal_run broken id db
apply broken (preflight id plan at) db = set_ordinary_preflight_plan broken id plan at db
apply broken (documents id capabilities plan at) db =
    set_run_execution_documents broken id capabilities plan at db
apply broken (finalize id facts v c report t at) db =
    finalize_run broken id facts v c report t at db
apply broken (ledger op) db = Ledger.apply broken op db

-- A failed operation rolls back.
abbrev pub settle : Db → Outcome Db → Db
settle db (ok next) = next
settle db (err e) = db

abbrev pub history : List ((Call → Bool) × Op) → Db → Db
history [] db = db
history ((broken, op) ∷ ops) db = history ops (settle db (apply broken op db))

module _ (broken : Call → Bool) where
  append_event-IsNumbered :
      (e : RunEvent) (db : Db) {next : Db}
      → IsNumbered db.events
      → append_event broken e db ≡ ok next
      → IsNumbered next.events
  append_event-IsNumbered e db h k =
      let (same, _, _) = append_parts broken e db k in
      subst (λ (d : Db). IsNumbered d.events) (sym same) (appended-IsNumbered db e h)

  recover_all-IsNumbered :
      (at : Option ℕ) (rs : List Row) (db : Db) {next : Db}
      → IsNumbered db.events
      → recover_all broken at rs db ≡ ok next
      → IsNumbered next.events
  unfolding recover_all
  recover_all-IsNumbered at [] db h k = subst (λ (d : Db). IsNumbered d.events) (ok-injective k) h
  recover_all-IsNumbered at (r ∷ rs) db h k =
      let (next, done, k1) = >>=-eq-ok (recover_run broken at r db) _ k in
      let parts = recover_run_parts broken at r db done in
      recover_all-IsNumbered at rs next (append_event-IsNumbered _ _ h parts) k1

-- Without the events of one run, the timeline of another is as it was, and its own is empty.
timeline_kept :
    (id j : String) (n : ℕ) (es : List RunEvent)
    → Numbered n (timeline j es)
    → Numbered n (timeline j (keep (λ e. not (of_run id e)) es))
timeline_kept id j n [] h = tt
timeline_kept id j n (e ∷ es) h = elim (Bool-cases (of_run id e)) [
  | inl gone ↦ elim (Bool-cases (of_run j e)) [
    | inl own ↦
        let same : id ≡ j = ground (arith, eq_iff e.run_id id, eq_iff e.run_id j) in
        rw gone (nothing_left same es n)
    | inr foreign ↦ rw gone (timeline_kept id j n es (rw foreign at h))
  ]
  | inr stays ↦ elim (Bool-cases (of_run j e)) [
    | inl own ↦ let (p, k) = rw own at h in rw (stays, own) (p, timeline_kept id j (suc n) es k)
    | inr foreign ↦ rw (stays, foreign) (timeline_kept id j n es (rw foreign at h))
  ]
]
  where
    nothing_left :
        id ≡ j
        → (xs : List RunEvent) (m : ℕ) → Numbered m (timeline j (keep (λ x. not (of_run id x)) xs))
    nothing_left same [] m = tt
    nothing_left same (x ∷ xs) m = elim (Bool-cases (of_run id x)) [
      | inl gone ↦ rw gone (nothing_left same xs m)
      | inr stays ↦
          let other : of_run j x ≡ false = rw (sym same) stays in
          rw (stays, other) (nothing_left same xs m)
    ]

Frame-IsNumbered : {db next : Db} → Frame db next → IsNumbered db.events → IsNumbered next.events
Frame-IsNumbered same h = subst IsNumbered (sym same.events) h

apply-IsNumbered :
    (broken : Call → Bool) (op : Op) (db : Db) {next : Db}
    → IsNumbered db.events
    → apply broken op db ≡ ok next
    → IsNumbered next.events
unfolding apply create_run
apply-IsNumbered broken (create row) db h k =
    let (_, _, same) = create_parts broken row db k in
    subst (λ (d : Db). IsNumbered d.events) (sym same) h
apply-IsNumbered broken (append e) db h k =
    append_event-IsNumbered broken e db h (append_run_event_parts broken e db k)
apply-IsNumbered broken (move id next at summary) db h k =
    let (_, _, _, written) = transition_parts broken id next at summary db k in
    append_event-IsNumbered broken _ _ h written
apply-IsNumbered broken (prepare id at detail) db h k =
    let (_, written) = prepare_parts broken id at detail db k in
    append_event-IsNumbered broken _ _ h written
apply-IsNumbered broken (set_cleanup id cleanup at summary) db h k =
    let (_, written) = set_cleanup_parts broken id cleanup at summary db k in
    append_event-IsNumbered broken _ _ h written
apply-IsNumbered broken (recover at) db h k =
    let ((n, after), done, same) = >>=-eq-ok (recover_interrupted_runs broken at db) _ k in
    let (_, all_done) = recover_parts broken at db done in
    recover_all-IsNumbered broken at (keep needs_recovery db.runs) db h (all_done ∙ same)
apply-IsNumbered broken (delete id) db h k =
    let (_, _, _, _, _, rows) = delete_parts broken id db k in
    let (_, same) = delete_rows_parts broken id db rows in
    subst (λ (d : Db). IsNumbered d.events) (sym same) (λ j. timeline_kept id j 0 db.events (h j))
apply-IsNumbered broken (preflight id plan at) db h k =
    Frame-IsNumbered (preflight-Frame broken id plan at db k) h
apply-IsNumbered broken (documents id capabilities plan at) db h k =
    Frame-IsNumbered (documents-Frame broken id capabilities plan at db k) h
apply-IsNumbered broken (finalize id facts v c report t at) db h k =
    let (mid, same, written) = finalize-Frame broken id facts v c report t at db k in
    append_event-IsNumbered broken _ mid (Frame-IsNumbered same h) written
apply-IsNumbered broken (ledger op) db h k = Frame-IsNumbered (ledger-Frame broken op db k) h

-- Whatever operations run in whatever order, each with its own failing calls, the events of every run
-- are numbered one, two, three and so on, if they were before.
pub history-IsNumbered :
    (ops : List ((Call → Bool) × Op)) (db : Db)
    → IsNumbered db.events
    → IsNumbered (history ops db).events
history-IsNumbered [] db h = h
history-IsNumbered ((broken, op) ∷ ops) db h =
    history-IsNumbered ops (settle db (apply broken op db))
      (elim (Result-cases (apply broken op db)) [
        | inl (next, done) ↦ rw done (apply-IsNumbered broken op db h done)
        | inr (e, failed) ↦ rw failed h
      ])

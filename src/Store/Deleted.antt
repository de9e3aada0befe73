-- ===== src/Store/Deleted.antt =====
-- internal/persistence/sqlite/run_repository.go: what DeleteTerminalRun needs and what it leaves.
use oscar_corrtest.Base.{
  ◌≡◌, refl, ap, ◌∙◌, ◌∷◌, [], String, Bool, true, false, not, List, none, some, ok, str_eq, any,
  keep, arith, eq_iff, Bool-cases, inl, inr,
}
use oscar_corrtest.Run.{verdict_valid}
use oscar_corrtest.Store.{
  Row, Db, Call, Resource, Table, assertions, alert_attempts, artifacts, run_cases, find_run,
  of_run, is_terminal,
}
use oscar_corrtest.Store.Deletion.{
  delete_terminal_run, proven_clean, row_of, drop_children, quieted, cleared,
}
use oscar_corrtest.Store.Execution.Confined.{children_of}
use oscar_corrtest.Store.Parts.{delete_parts, delete_rows_parts}
use oscar_corrtest.Store.Recovery.{timeline}
use oscar_corrtest.Store.Rows.{find_run-keep}

keep_out {ℓ} : {A : Type ℓ} (p : A → Bool) (xs : List A) → keep p (keep (λ x. not (p x)) xs) ≡ []
keep_out p [] = refl
keep_out p (x ∷ xs) = elim (Bool-cases (p x)) [
  | inl out ↦ rw out (keep_out p xs)
  | inr stays ↦ rw (stays, stays) (keep_out p xs)
]

-- What is dropped for one test leaves what another, disjoint, test keeps.
keep_apart {ℓ} :
    {A : Type ℓ} (p q : A → Bool) (apart : (x : A) → q x ≡ true → p x ≡ false) (xs : List A)
    → keep q (keep (λ x. not (p x)) xs) ≡ keep q xs
keep_apart p q apart [] = refl
keep_apart p q apart (x ∷ xs) = elim (Bool-cases (q x)) [
  | inl wanted ↦ rw (wanted, apart x wanted, wanted) (ap (λ r. x ∷ r) (keep_apart p q apart xs))
  | inr unwanted ↦ elim (Bool-cases (p x)) [
    | inl out ↦ rw (unwanted, out) (keep_apart p q apart xs)
    | inr stays ↦ rw (unwanted, stays, unwanted) (keep_apart p q apart xs)
  ]
]

abbrev pub resources_of : String → List Resource → List Resource
resources_of id rs = keep (λ r. str_eq r.run_id id) rs

-- The four statements on the other tables leave the rows of another run.
drop_others :
    (t : Table) (id j : String) (db : Db)
    → str_eq id j ≡ false
    → children_of j (drop_children t id db) ≡ children_of j db
drop_others t id j db other =
    keep_apart (row_of t id) (λ c. str_eq c.run_id j)
      (λ c own. ground (arith, eq_iff c.run_id j, eq_iff c.run_id id, eq_iff id j)) db.children

cleared_others :
    (id j : String) (db : Db)
    → str_eq id j ≡ false
    → children_of j (cleared id db) ≡ children_of j db
cleared_others id j db other =
    let one = drop_children assertions id db in
    let two = drop_children alert_attempts id one in
    drop_others run_cases id j (quieted id db) other
    ∙ drop_others artifacts id j two other
    ∙ drop_others alert_attempts id j one other
    ∙ drop_others assertions id j db other

-- A deletion that succeeds was of a completed or interrupted run with a verdict and a cleanup state of
-- clean or not required. It leaves no row of the run in any table, and another run keeps its row, its
-- events, its resources and its rows in all other tables: cases, assertions, attempts, artifacts, and
-- those of the other input paths.
pub delete_terminal_run_lem :
    (broken : Call → Bool) (id j : String) (db : Db) {after : Db}
    → str_eq id j ≡ false
    → delete_terminal_run broken id db ≡ ok after
    → (row : Row) × (find_run id db.runs ≡ some row)
      × (is_terminal row.run.status ≡ true)
      × (verdict_valid row.run.verdict ≡ true)
      × (proven_clean row.run.cleanup_status ≡ true)
      × (find_run id after.runs ≡ none)
      × (timeline id after.events ≡ [])
      × (resources_of id after.resources ≡ [])
      × (any (λ c. str_eq c.run_id id) after.children ≡ false)
      × (find_run j after.runs ≡ find_run j db.runs)
      × (timeline j after.events ≡ timeline j db.events)
      × (resources_of j after.resources ≡ resources_of j db.resources)
      × (children_of j after ≡ children_of j db)
delete_terminal_run_lem broken id j db other h =
    let (row, found, ended, judged, clean_enough, rows) = delete_parts broken id db h in
    let (free, same) = delete_rows_parts broken id db rows in
    (
      row,
      found,
      ended,
      judged,
      clean_enough,
      ap (λ (d : Db). find_run id d.runs) same
          ∙ find_run-keep id id db.runs
          ∙ ground (arith, eq_iff id id),
      ap (λ (d : Db). timeline id d.events) same ∙ keep_out (of_run id) db.events,
      ap (λ (d : Db). resources_of id d.resources) same
          ∙ keep_out (λ (r : Resource). str_eq r.run_id id) db.resources,
      ap (λ (d : Db). any (λ c. str_eq c.run_id id) d.children) same ∙ free,
      ap (λ (d : Db). find_run j d.runs) same ∙ find_run-keep id j db.runs ∙ rw other refl,
      ap (λ (d : Db). timeline j d.events) same
          ∙ keep_apart (of_run id) (of_run j)
              (λ e own. ground (arith, eq_iff e.run_id j, eq_iff e.run_id id, eq_iff id j))
              db.events,
      ap (λ (d : Db). resources_of j d.resources) same
          ∙ keep_apart (λ (r : Resource). str_eq r.run_id id) (λ (r : Resource). str_eq r.run_id j)
              (λ r own. ground (arith, eq_iff r.run_id j, eq_iff r.run_id id, eq_iff id j))
              db.resources,
      ap (children_of j) same ∙ cleared_others id j db other,
    )

-- ===== src/Store/Documents/Planned.antt =====
-- internal/persistence/sqlite/run_repository.go: the rows that SetRunExecutionDocuments writes for a plan.
use oscar_corrtest.Base.{
  ℕ, ◌≡◌, refl, sym, ap, ◌∙◌, String, Bool, true, false, ◌&&◌, ◌||◌, not, List, [], ◌∷◌, ◌++◌,
  Option, none, some, ok, str_eq, ◌==◌, tally, any, All, All-map, map, >>=-eq-ok, ok-injective,
  refuse_if-eq-ok, arith, eq_iff,
}
use oscar_corrtest.Base.Assoc.{contains}
use oscar_corrtest.Run.{is_zero}
use oscar_corrtest.Run.Facts.{Json, json_valid}
use oscar_corrtest.Store.{
  Db, Call, Child, Columns, run_cases, begin_tx, commit, write_run, has_id, bad_plan, bad_documents,
  not_found,
}
use oscar_corrtest.Store.Deletion.{same_table}
use oscar_corrtest.Store.Execution.{set_where, case_id_of, case_is}
use oscar_corrtest.Store.Documents.{
  PlanCase, PlanDocument, PlanText, decoded, child_refused, clashes, same_key, case_child,
  with_documents, insert_cases, set_run_execution_documents,
}
use oscar_corrtest.Store.Documents.Inserted.{case_rows, insert_case_parts, insert_cases-rows}

-- A row of the run for a case of this code.
abbrev pub has_code : String → String → Child → Bool
has_code id code c =
    same_table c.table run_cases
    && str_eq c.run_id id
    && case_is (λ r. str_eq r.stable_key code) c.columns

abbrev pub codes_of : List PlanCase → List String
codes_of cs = map (λ (c : PlanCase). c.code) cs

abbrev pub AreDistinct : List String → Type 0
AreDistinct [] = Unit
AreDistinct (x ∷ xs) = (contains x xs ≡ false) × AreDistinct xs

any_less {ℓ} :
    {A : Type ℓ} (p q : A → Bool) (weaker : (x : A) → q x ≡ true → p x ≡ true) (xs : List A)
    → any p xs ≡ false
    → any q xs ≡ false
any_less p q weaker [] h = refl
any_less p q weaker (x ∷ xs) h = ground (arith, weaker x, any_less p q weaker xs)

any_front {ℓ} :
    {A : Type ℓ} (p : A → Bool) (xs ys : List A) → any p (xs ++ ys) ≡ false → any p xs ≡ false
any_front p [] ys h = refl
any_front p (x ∷ xs) ys h = ground (arith, any_front p xs ys)

any_middle {ℓ} :
    {A : Type ℓ} (p : A → Bool) (xs : List A) (y : A) (ys : List A)
    → any p (xs ++ y ∷ ys) ≡ false
    → p y ≡ false
any_middle p [] y ys h = ground arith
any_middle p (x ∷ xs) y ys h = any_middle p xs y ys (ground arith)

clashing :
    (id pattern : String) (c : PlanCase) (x : Child)
    → has_code id c.code x ≡ true
    → clashes (case_child id pattern c) x ≡ true
clashing id pattern c x h = look x.columns h
  where
    look :
        (k : Columns)
        → (same_table x.table run_cases
            && str_eq x.run_id id
            && case_is (λ r. str_eq r.stable_key c.code) k)
          ≡ true
        → (same_table x.table run_cases
            && (str_eq x.id (case_id_of id c.code)
                || same_key x (case_child id pattern c) k (case_child id pattern c).columns))
          ≡ true
    look (Columns.case_columns r) k = ground arith
    look (Columns.assertion_columns r) k = ground arith
    look (Columns.attempt_columns r) k = ground arith
    look Columns.no_columns k = ground arith

unrefused : (db : Db) (c : Child) → child_refused db c ≡ false → any (clashes c) db.children ≡ false
unfolding child_refused
unrefused db c h = ground arith

module _ (broken : Call → Bool) (id pattern : String) (at : Option ℕ) where
  codes_fresh :
      (cs : List PlanCase) (db : Db) {next : Db}
      → insert_cases broken id pattern at cs db ≡ ok next
      → All (λ c. any (has_code id c.code) db.children ≡ false) cs
  codes_fresh [] db h = tt
  codes_fresh (c ∷ more) db h =
      let (mid, _, fits, same, rest) = insert_case_parts broken id pattern at c more db h in
      let child = case_child id pattern c in
      let children : mid.children ≡ db.children ++ _ = ap (λ (d : Db). d.children) same in
      (
        any_less (clashes child) (has_code id c.code) (clashing id pattern c) db.children
            (unrefused db child fits),
        All-map (λ d fresh. any_front (has_code id d.code) db.children _ (rw children at fresh))
            more (codes_fresh more mid rest),
      )

  codes_distinct :
      (cs : List PlanCase) (db : Db) {next : Db}
      → insert_cases broken id pattern at cs db ≡ ok next
      → AreDistinct (codes_of cs)
  codes_distinct [] db h = tt
  codes_distinct (c ∷ more) db h =
      let (mid, _, _, same, rest) = insert_case_parts broken id pattern at c more db h in
      let children : mid.children ≡ db.children ++ _ = ap (λ (d : Db). d.children) same in
      (
        apart more (
            All-map
              (λ d fresh.
                any_middle (has_code id d.code) db.children (case_child id pattern c) _
                  (rw children at fresh))
              more (codes_fresh more mid rest)),
        codes_distinct more mid rest,
      )
    where
      apart :
          (ds : List PlanCase)
          → All (λ (d : PlanCase). (true && str_eq id id && str_eq c.code d.code) ≡ false) ds
          → contains c.code (codes_of ds) ≡ false
      apart [] k = refl
      apart (d ∷ ds) (k, ks) = let tail = apart ds ks in ground (arith, eq_iff id id)

-- Documents that are accepted name a run that is there once and a plan whose cases have distinct codes. The run
-- gets the documents, and to the other tables exactly the rows of the plan are added: a case for each case, and
-- an assertion and an attempt for each of its assertions and alerts, all planned and numbered from one.
pub set_run_execution_documents_lem :
    (broken : Call → Bool) (id : String) (capabilities : Json) (plan : PlanText) (at : Option ℕ)
    (db : Db) {after : Db}
    → set_run_execution_documents broken id capabilities plan at db ≡ ok after
    → (document : PlanDocument) × (plan.document ≡ some document)
      × ((tally (has_id id) db.runs == 1) ≡ true)
      × AreDistinct (codes_of document.cases)
      × (after ≡ record db {
        runs = set_where (has_id id) (with_documents capabilities plan.text at) db.runs;
        children = db.children ++ case_rows id document.pattern at document.cases;
      })
unfolding set_run_execution_documents
set_run_execution_documents_lem broken id capabilities plan at db h =
    let (_, h1) =
      refuse_if-eq-ok (not (json_valid capabilities) || not plan.is_json || is_zero at)
        bad_documents _ h in
    let (document, got, h2) = >>=-eq-ok (decoded plan.document) _ h1 in
    let (_, h3) =
      refuse_if-eq-ok (not (str_eq document.run_id id) || str_eq document.pattern "") bad_plan _
        h2 in
    let (_, h4) = refuse_if-eq-ok (broken begin_tx) _ _ h3 in
    let (_, h5) = refuse_if-eq-ok (broken (write_run id)) _ _ h4 in
    let (one, h6) = refuse_if-eq-ok (not (tally (has_id id) db.runs == 1)) not_found _ h5 in
    let set = record db {
      runs = set_where (has_id id) (with_documents capabilities plan.text at) db.runs;
    } in
    let (written, done, h7) =
      >>=-eq-ok (insert_cases broken id document.pattern at document.cases set) _ h6 in
    let (_, same) = refuse_if-eq-ok (broken commit) _ _ h7 in
    (
      document,
      decoded_some plan.document got,
      ground arith,
      codes_distinct broken id document.pattern at document.cases set done,
      sym (ok-injective same)
          ∙ insert_cases-rows broken id document.pattern at document.cases set done,
    )
  where
    decoded_some : (o : Option PlanDocument) {d : PlanDocument} → decoded o ≡ ok d → o ≡ some d
    decoded_some none k = cc
    decoded_some (some d) k = ap some (ok-injective k)

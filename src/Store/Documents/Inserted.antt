-- ===== src/Store/Documents/Inserted.antt =====
-- internal/persistence/sqlite/run_repository.go: the rows that the cases of a plan add.
use oscar_corrtest.Base.{
  ℕ, suc, ◌≡◌, sym, ap, ◌∙◌, String, Bool, false, ◌||◌, List, [], ◌∷◌, ◌++◌, Option, ok, str_eq,
  >>=-eq-ok, ok-injective, refuse_if-eq-ok,
}
use mathlib.Core.List.{append_assoc, append-nil}
use oscar_corrtest.Store.{Db, Call, Child, insert_row, bad_plan, refused}
use oscar_corrtest.Store.Execution.{case_id_of}
use oscar_corrtest.Store.Documents.{
  PlanAssertion, PlanAlert, PlanCase, child_refused, case_child, assertion_child, attempt_child,
  kind_or, insert_child, insert_assertions, insert_attempts, insert_cases,
}

-- The rows of a plan, written down directly.
abbrev pub assertion_rows : String → String → ℕ → List PlanAssertion → List Child
assertion_rows id case_id n [] = []
assertion_rows id case_id n (a ∷ more) =
    assertion_child id case_id n (kind_or a.kind) a ∷ assertion_rows id case_id (suc n) more

abbrev pub attempt_rows : String → String → ℕ → Option ℕ → List PlanAlert → List Child
attempt_rows id case_id n at [] = []
attempt_rows id case_id n at (a ∷ more) =
    attempt_child id case_id n at a ∷ attempt_rows id case_id (suc n) at more

abbrev pub case_rows : String → String → Option ℕ → List PlanCase → List Child
case_rows id pattern at [] = []
case_rows id pattern at (c ∷ more) =
    case_child id pattern c
    ∷ (assertion_rows id (case_id_of id c.code) 1 c.assertions
        ++ (attempt_rows id (case_id_of id c.code) 1 at c.alerts ++ case_rows id pattern at more))

abbrev pub with_children : List Child → Db → Db
with_children more db = record db { children = db.children ++ more }

with_children-append :
    (xs ys : List Child) (db : Db)
    → with_children ys (with_children xs db) ≡ with_children (xs ++ ys) db
with_children-append xs ys db =
    ap (λ cs. record db { children = cs }) (append_assoc db.children xs ys)

with_children-nil : (db : Db) → with_children [] db ≡ db
with_children-nil db = ap (λ cs. record db { children = cs }) (append-nil db.children)

module _ (broken : Call → Bool) where
  insert_child_parts :
      (c : Child) (db : Db) {next : Db}
      → insert_child broken c db ≡ ok next
      → (next ≡ with_children (c ∷ []) db) × (child_refused db c ≡ false)
  unfolding insert_child
  insert_child_parts c db h =
      let (_, h1) = refuse_if-eq-ok (broken (insert_row c.table)) _ _ h in
      let (fits, same) = refuse_if-eq-ok (child_refused db c) (refused "children") _ h1 in
      (sym (ok-injective same), fits)

  insert_assertions-rows :
      (id case_id : String) (n : ℕ) (as' : List PlanAssertion) (db : Db) {next : Db}
      → insert_assertions broken id case_id n as' db ≡ ok next
      → next ≡ with_children (assertion_rows id case_id n as') db
  unfolding insert_assertions
  insert_assertions-rows id case_id n [] db h = sym (ok-injective h) ∙ sym (with_children-nil db)
  insert_assertions-rows id case_id n (a ∷ more) db h =
      let (_, h1) = refuse_if-eq-ok (str_eq (kind_or a.kind) "") bad_plan _ h in
      let child = assertion_child id case_id n (kind_or a.kind) a in
      let (mid, done, rest) = >>=-eq-ok (insert_child broken child db) _ h1 in
      let (same, _) = insert_child_parts child db done in
      insert_assertions-rows id case_id (suc n) more mid rest
      ∙ ap (with_children (assertion_rows id case_id (suc n) more)) same
      ∙ with_children-append (child ∷ []) (assertion_rows id case_id (suc n) more) db

  insert_attempts-rows :
      (id case_id : String) (n : ℕ) (at : Option ℕ) (as' : List PlanAlert) (db : Db) {next : Db}
      → insert_attempts broken id case_id n at as' db ≡ ok next
      → next ≡ with_children (attempt_rows id case_id n at as') db
  unfolding insert_attempts
  insert_attempts-rows id case_id n at [] db h = sym (ok-injective h) ∙ sym (with_children-nil db)
  insert_attempts-rows id case_id n at (a ∷ more) db h =
      let (_, h1) = refuse_if-eq-ok (str_eq a.name "") bad_plan _ h in
      let child = attempt_child id case_id n at a in
      let (mid, done, rest) = >>=-eq-ok (insert_child broken child db) _ h1 in
      let (same, _) = insert_child_parts child db done in
      insert_attempts-rows id case_id (suc n) at more mid rest
      ∙ ap (with_children (attempt_rows id case_id (suc n) at more)) same
      ∙ with_children-append (child ∷ []) (attempt_rows id case_id (suc n) at more) db

  -- What a case of a plan is written as, and the tables before the other cases.
  pub insert_case_parts :
      (id pattern : String) (at : Option ℕ) (c : PlanCase) (more : List PlanCase) (db : Db)
      {next : Db}
      → insert_cases broken id pattern at (c ∷ more) db ≡ ok next
      → (mid : Db) × ((str_eq c.code "" || str_eq c.name "") ≡ false)
        × (child_refused db (case_child id pattern c) ≡ false)
        × (mid
            ≡ with_children
                (case_child id pattern c
                  ∷ (assertion_rows id (case_id_of id c.code) 1 c.assertions
                      ++ attempt_rows id (case_id_of id c.code) 1 at c.alerts))
                db)
        × (insert_cases broken id pattern at more mid ≡ ok next)
  unfolding insert_cases
  insert_case_parts id pattern at c more db h =
      let (named, h1) = refuse_if-eq-ok (str_eq c.code "" || str_eq c.name "") bad_plan _ h in
      let child = case_child id pattern c in
      let case_id = case_id_of id c.code in
      let (one, done1, h2) = >>=-eq-ok (insert_child broken child db) _ h1 in
      let (two, done2, h3) =
        >>=-eq-ok (insert_assertions broken id case_id 1 c.assertions one) _ h2 in
      let (three, done3, h4) =
        >>=-eq-ok (insert_attempts broken id case_id 1 at c.alerts two) _ h3 in
      let (same, fits) = insert_child_parts child db done1 in
      let xs = assertion_rows id case_id 1 c.assertions in
      let ys = attempt_rows id case_id 1 at c.alerts in
      (
        three,
        named,
        fits,
        insert_attempts-rows id case_id 1 at c.alerts two done3
            ∙ ap (with_children ys) (
                insert_assertions-rows id case_id 1 c.assertions one done2
                ∙ ap (with_children xs) same
                ∙ with_children-append (child ∷ []) xs db)
            ∙ with_children-append (child ∷ xs) ys db,
        h4,
      )

  pub insert_cases-rows :
      (id pattern : String) (at : Option ℕ) (cs : List PlanCase) (db : Db) {next : Db}
      → insert_cases broken id pattern at cs db ≡ ok next
      → next ≡ with_children (case_rows id pattern at cs) db
  unfolding insert_cases
  insert_cases-rows id pattern at [] db h = sym (ok-injective h) ∙ sym (with_children-nil db)
  insert_cases-rows id pattern at (c ∷ more) db h =
      let (mid, _, _, same, rest) = insert_case_parts id pattern at c more db h in
      let xs = assertion_rows id (case_id_of id c.code) 1 c.assertions in
      let ys = attempt_rows id (case_id_of id c.code) 1 at c.alerts in
      insert_cases-rows id pattern at more mid rest
      ∙ ap (with_children (case_rows id pattern at more)) same
      ∙ with_children-append (case_child id pattern c ∷ (xs ++ ys)) (case_rows id pattern at more)
          db
      ∙ ap (λ zs. with_children (case_child id pattern c ∷ zs) db)
          (append_assoc xs ys (case_rows id pattern at more))

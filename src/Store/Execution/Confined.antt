-- ===== src/Store/Execution/Confined.antt =====
-- internal/persistence/sqlite/execution_repository.go: the updates of facts reach the rows of one run only.
use oscar_corrtest.Base.{
  ℕ, ◌≡◌, refl, ap, ◌∙◌, String, Bool, true, false, List, [], ◌∷◌, Option, ok, str_eq, keep,
  ok-injective, arith, eq_iff, Bool-cases, inl, inr,
}
use mathlib.Core.Path.{subst}
use oscar_corrtest.Run.{Verdict}
use oscar_corrtest.Run.Facts.{CaseFact, AssertionFact, AlertAttemptFact}
use oscar_corrtest.Store.{Db, Call, Child, Columns}
use oscar_corrtest.Store.Execution.{
  write_assertions, write_cases, write_attempts, close_planned, close_cases, close_assertions,
  this_assertion, this_case, this_attempt, update_children, on_columns, on_case, on_assertion,
  on_attempt, judged, evaluated, sent, planned_case, unjudged_assertion, planned_attempt,
  unexecuted, unevaluated, unsent,
}
use oscar_corrtest.Store.Execution.Parts.{
  write_assertions_parts, write_cases_parts, write_attempts_parts,
}
use oscar_corrtest.Store.Execution.Rows.{keep_same}

abbrev pub children_of : String → Db → List Child
children_of j db = keep (λ c. str_eq c.run_id j) db.children

-- The two tables differ in the rows of `run_cases`, `assertions` and `alert_attempts` of one run at most.
pub record OnlyRows (id : String) (db next : Db) : Type 0 where
  pub rest : next ≡ record db { children = next.children }
  pub others : (j : String) → str_eq id j ≡ false → children_of j next ≡ children_of j db

pub OnlyRows-refl : (id : String) (db : Db) → OnlyRows id db db
OnlyRows-refl id db = record { rest = refl; others = λ j h. refl }

pub OnlyRows-trans :
    (id : String) (a b c : Db) → OnlyRows id a b → OnlyRows id b c → OnlyRows id a c
OnlyRows-trans id a b c x y = record {
  rest = y.rest ∙ ap (λ (d : Db). record d { children = c.children }) x.rest;
  others = λ j h. y.others j h ∙ x.others j h;
}

-- An update whose rows are all of the run.
pub update_children-OnlyRows :
    (id : String) (p : Child → Bool) (f : Columns → Columns) (db : Db)
    → ((c : Child) → p c ≡ true → str_eq c.run_id id ≡ true)
    → OnlyRows id db (update_children p f db)
update_children-OnlyRows id p f db own = record {
  rest = refl;
  others = λ j h.
      keep_same p (on_columns f) (λ c. str_eq c.run_id j)
        (λ c mine. elim (Bool-cases (p c)) [
          | inl hit ↦ let of_id = own c hit in absurd_run c j h mine of_id
          | inr miss ↦ miss
        ])
        (λ c. refl) db.children;
}
  where
    absurd_run :
        (c : Child) (j : String)
        → str_eq id j ≡ false
        → str_eq c.run_id j ≡ true
        → str_eq c.run_id id ≡ true
        → p c ≡ false
    absurd_run c j h mine of_id = ground (arith, eq_iff c.run_id j, eq_iff c.run_id id, eq_iff id j)

module _ (broken : Call → Bool) (id : String) where
  write_assertions-OnlyRows :
      (f : CaseFact) (as' : List AssertionFact) (db : Db) {next : Db}
      → write_assertions broken id f as' db ≡ ok next
      → OnlyRows id db next
  unfolding write_assertions
  write_assertions-OnlyRows f [] db h =
      subst (OnlyRows id db) (ok-injective h) (OnlyRows-refl id db)
  write_assertions-OnlyRows f (a ∷ more) db {next} h =
      let (_, rest) = write_assertions_parts broken id f a more db h in
      let mid = update_children (this_assertion id f a) (on_assertion (evaluated a)) db in
      OnlyRows-trans id db mid next
        (update_children-OnlyRows id (this_assertion id f a) (on_assertion (evaluated a)) db
          (λ c k. ground arith))
        (write_assertions-OnlyRows f more mid rest)

  pub write_cases-OnlyRows :
      (fs : List CaseFact) (db : Db) {next : Db}
      → write_cases broken id fs db ≡ ok next
      → OnlyRows id db next
  unfolding write_cases
  write_cases-OnlyRows [] db h = subst (OnlyRows id db) (ok-injective h) (OnlyRows-refl id db)
  write_cases-OnlyRows (f ∷ more) db {next} h =
      let (mid, _, done, rest) = write_cases_parts broken id f more db h in
      let first = update_children (this_case id f) (on_case (judged f)) db in
      OnlyRows-trans id db first next
        (update_children-OnlyRows id (this_case id f) (on_case (judged f)) db (λ c k. ground arith))
        (OnlyRows-trans id first mid next (write_assertions-OnlyRows f f.assertions first done)
          (write_cases-OnlyRows more mid rest))

  pub write_attempts-OnlyRows :
      (at : Option ℕ) (fs : List AlertAttemptFact) (db : Db) {next : Db}
      → write_attempts broken id at fs db ≡ ok next
      → OnlyRows id db next
  unfolding write_attempts
  write_attempts-OnlyRows at [] db h = subst (OnlyRows id db) (ok-injective h) (OnlyRows-refl id db)
  write_attempts-OnlyRows at (f ∷ more) db {next} h =
      let (_, rest) = write_attempts_parts broken id at f more db h in
      let mid = update_children (this_attempt id f) (on_attempt (sent f at)) db in
      OnlyRows-trans id db mid next
        (update_children-OnlyRows id (this_attempt id f) (on_attempt (sent f at)) db
          (λ c k. ground arith))
        (write_attempts-OnlyRows at more mid rest)

  pub close_planned-OnlyRows :
      (v : Verdict) (at : Option ℕ) (db : Db) → OnlyRows id db (close_planned id v at db)
  close_planned-OnlyRows v at db =
      let one = close_cases id v at db in
      let two = close_assertions id v at one in
      OnlyRows-trans id db one (close_planned id v at db)
        (update_children-OnlyRows id (planned_case id) (on_case (unexecuted v at)) db
          (λ c k. ground arith))
        (OnlyRows-trans id one two (close_planned id v at db)
          (update_children-OnlyRows id (unjudged_assertion id) (on_assertion (unevaluated v at)) one
            (λ c k. ground arith))
          (update_children-OnlyRows id (planned_attempt id) (on_attempt (unsent at)) two
            (λ c k. ground arith)))

-- ===== src/Runner/Cleanup.antt =====
-- internal/runner/runner.go: `cleanup`, over the operations of the journal. A failure is kept as a flag, its
-- text is left out. What the server answers is the record `World`; the event that the ordinary route
-- records before a clear is not modelled.
pub mod Clean
use oscar_corrtest.Base.{
  ℕ, ◌+◌, ◌-◌, ◌*◌, ◌^◌, String, Bool, true, false, ◌&&◌, ◌||◌, not, List, [], ◌∷◌, ◌++◌, Option,
  none, some, ltb, leb, str_eq, if◌then◌else◌, Result, ok, err, codes,
}
use oscar_corrtest.Run.{CleanupStatus, clean, dirty, not_required, cleaning_up}
use oscar_corrtest.Store.{Db, Call, Outcome, Resource, ResourceState, proposed}
use oscar_corrtest.Store.Operations.{transition_run}
use oscar_corrtest.Store.Resources.{mark_resource_deleted, mark_resource_cleanup_error}

pub record History : Type 0 where
  pub alert_name : String
  pub fingerprint : String
  pub run_id : String

-- Which calls of the journal fail, for the transition and for each resource; whether the server deletes a
-- rule and accepts a resolution; what the discovery of alerts gives, where there is one, and whether it
-- has no error.
pub record World : Type 0 where
  pub transition_faults : Call → Bool
  pub mark_faults : String → Call → Bool
  pub deletes_rule : ℕ → Bool
  pub discovery : Option (List History × Bool)
  pub resolves : History → Bool
  pub now : ℕ

digits_value : ℕ → List ℕ → Option ℕ
digits_value acc [] = some acc
digits_value acc (c ∷ cs) =
    if leb 48 c && leb c 57 then digits_value (acc * 10 + (c - 48)) cs else none

abbrev unsigned : List ℕ → List ℕ
unsigned [] = []
unsigned (c ∷ cs) = if leb 43 c && leb c 43 then cs else c ∷ cs

abbrev digits : List ℕ → Option ℕ
digits [] = none
digits (c ∷ cs) = digits_value 0 (c ∷ cs)

abbrev positive_int : Option ℕ → Option ℕ
positive_int none = none
positive_int (some n) = if ltb 0 n && ltb n (2 ^ 63) then some n else none

-- `strconv.Atoi`, where only a positive number counts: a minus sign leaves none.
unfoldable pub rule_id : String → Option ℕ
unfolding digits_value
rule_id s = positive_int (digits (unsigned (codes s)))

-- A failed write leaves the tables and raises the flag.
abbrev pub written : Db → Outcome Db → Bool × Db
written db (ok next) = (false, next)
written db (err e) = (true, db)

abbrev pub blame : World → Resource → String → Db → Bool × Db
blame w r message db =
    (true, (written db (mark_resource_cleanup_error (w.mark_faults r.id) r.id message db)).1)

abbrev pub forget : World → Resource → Db → Bool × Db
forget w r db = written db (mark_resource_deleted (w.mark_faults r.id) r.id (some w.now) db)

abbrev pub is_proposed : ResourceState → Bool
is_proposed proposed = true
is_proposed s = false

abbrev pub delete_known : World → Resource → Db → Option ℕ → Bool × Db
delete_known w r db none = blame w r "external rule identity is invalid" db
delete_known w r db (some id) =
    if w.deletes_rule id then forget w r db else blame w r "delete failed" db

-- One round of the loop over the resources.
unfoldable pub clean_resource : World → Resource → Db → Bool × Db
unfolding rule_id mark_resource_deleted mark_resource_cleanup_error
clean_resource w r db =
    if str_eq r.external_id ""
    then if is_proposed r.lifecycle_state
      then forget w r db
      else blame w r "external rule identity is unknown" db
    else delete_known w r db (rule_id r.external_id)

unfoldable pub clean_resources : World → List Resource → Db → Bool × Db
unfolding clean_resource
clean_resources w [] db = (false, db)
clean_resources w (r ∷ rs) db =
    let (failed, next) = clean_resource w r db in
    let (more, last) = clean_resources w rs next in (failed || more, last)

abbrev pub discovered : Option (List History × Bool) → List History × Bool
discovered none = ([], true)
discovered (some found) = found

-- `unsafe alert cleanup identity`, or a resolution that is not accepted.
abbrev pub unresolved : World → String → History → Bool
unresolved w id h = not (str_eq h.run_id id) || str_eq h.fingerprint "" || not (w.resolves h)

unfoldable pub any_unresolved : World → String → List History → Bool
any_unresolved w id [] = false
any_unresolved w id (h ∷ hs) = unresolved w id h || any_unresolved w id hs

abbrev pub nothing_to_do : List Resource → List History → Option (List History × Bool) → Bool
nothing_to_do [] [] none = true
nothing_to_do rs hs d = false

abbrev pub graded : Bool → CleanupStatus
graded failed = if failed then dirty else clean

-- What is left after the transition.
abbrev pub clean_up : World → String → List Resource → List History → Bool → Db → CleanupStatus × Db
clean_up w id rs hs failed db =
    let (kept, next) = clean_resources w rs db in
    let (found, complete) = discovered w.discovery in
    (graded (failed || kept || not complete || any_unresolved w id (hs ++ found)), next)

abbrev pub start : World → String → Db → Outcome Db
start w id db =
    transition_run w.transition_faults id cleaning_up (some w.now)
      "Deleting owned temporary rules and resolving test alerts" db

unfoldable pub cleanup : World → String → List Resource → List History → Db → CleanupStatus × Db
unfolding clean_resources any_unresolved transition_run
cleanup w id rs hs db =
    let (failed, next) = written db (start w id db) in
    if nothing_to_do rs hs w.discovery && not failed
    then (not_required, next)
    else clean_up w id rs hs failed next

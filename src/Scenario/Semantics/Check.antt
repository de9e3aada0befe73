-- ===== src/Scenario/Semantics/Check.antt =====
-- internal/scenario/semantics.go: the check of a case and of a document. The texts of the errors are
-- not modelled, only which error it is.
use oscar_corrtest.Base.{
  String, Bool, ◌&&◌, ◌||◌, not, List, [], ◌∷◌, ◌++◌, map, ◌==◌, str_eq, if◌then◌else◌, all, keep,
  length, Result, ok, err, ◌>>◌, refuse_if,
}
use oscar_corrtest.Base.Assoc.{contains, set_of}
use oscar_corrtest.Scenario.{Event, Case, Scenario}
use oscar_corrtest.Scenario.Semantics.Expand.{SemanticEvent, is_firing, expand}
use oscar_corrtest.Scenario.Semantics.Windows.{
  flood_reaches, roles_complete, sources_complete, threshold_reaches,
}
use oscar_corrtest.Scenario.Semantics.Ordered.{
  sequence_valid, persistence_flags, has_gap, Family, family_of,
}

pub data SemanticError : Type 0 where
  not_one_role other_role : SemanticError
  -- `P01` does not do what the pattern needs; `N01` does it.
  positive_misses negative_hits : SemanticError
  unsupported_pattern : String → SemanticError

abbrev pub Check : Type 0
Check = Result SemanticError (Unit {0})

abbrev is_positive : Case → Bool
is_positive c = str_eq c.code "P01"

abbrev is_negative : Case → Bool
is_negative c = str_eq c.code "N01"

-- The last two tests of most patterns.
unfoldable pub expect : Case → Bool → Bool → Check
expect c missed hit = do
  refuse_if (is_positive c && missed) positive_misses
  refuse_if (is_negative c && hit) negative_hits
  ok tt

abbrev firing_roles : List SemanticEvent → List String
firing_roles events = map (λ e. e.role) (keep is_firing events)

unfoldable pub single_source_role : List SemanticEvent → Check
single_source_role events = do
  refuse_if (not (length (set_of (firing_roles events)) == 1)) not_one_role
  refuse_if (not (all (λ e. contains e.role (firing_roles events)) events)) other_role
  ok tt

unfoldable pub check_persistence : Case → Bool × Bool → Check
unfolding expect
check_persistence c (persists, early) = expect c (not persists) (not early || persists)

unfoldable pub check_family : Case → Family → Check
unfolding expect
check_family c f = expect c (not f.matched_child) (f.child_count == 0 || f.matched_child)

unfoldable pub check_flood : Case → List SemanticEvent → Check
unfolding expect
check_flood c events =
    let reached = flood_reaches c.window events in
    if str_eq c.control "downstream-unmatched" then ok tt else expect c (not reached) reached

abbrev pub scored : Case → Bool → Check
scored c found = expect c (not found) found

-- `validateCaseSemantics`, with the required roles of the contract.
unfoldable pub validate_case : String → List String → Case → List SemanticEvent → Check
validate_case pattern required c events =
    if str_eq pattern "flood"
    then single_source_role events >> check_flood c events
    else if str_eq pattern "co_occurrence"
    then scored c (roles_complete required c.window events)
    else if str_eq pattern "sequence"
    then scored c (sequence_valid c.window events)
    else if str_eq pattern "persistence"
    then single_source_role events >> check_persistence c (persistence_flags c.window events)
    else if str_eq pattern "absence"
    then single_source_role events >> scored c (has_gap events)
    else if str_eq pattern "parent_child"
    then check_family c (family_of c.window events)
    else if str_eq pattern "cross_source"
    then single_source_role events >> scored c (sources_complete c.window events)
    else if str_eq pattern "threshold"
    then single_source_role events >> scored c (threshold_reaches c.window events)
    else err (unsupported_pattern pattern)

abbrev declared_role : Case → List String
declared_role c = if str_eq c.role "" then [] else c.role ∷ []

abbrev event_roles : List Event → List String
event_roles events = map (λ e. e.role) (keep (λ e. str_eq e.status "firing") events)

contract_roles : List Case → List String
contract_roles [] = []
contract_roles (c ∷ cs) = declared_role c ++ event_roles c.events ++ contract_roles cs

-- `RequiredRoles`, without its sort: the checks read only which roles it holds.
unfoldable pub required_roles : Scenario → List String
unfolding contract_roles
required_roles d =
    if str_eq d.pattern "co_occurrence"
    then set_of ("disk_full" ∷ "cpu_high" ∷ contract_roles d.cases)
    else []

-- An error is returned with the code of its case.
unfoldable pub in_case : String → Check → Result (String × SemanticError) (Unit {0})
in_case code (ok u) = ok u
in_case code (err e) = err (code, e)

unfoldable pub validate_cases :
    String → List String → List Case → Result (String × SemanticError) (Unit {0})
validate_cases pattern required [] = ok tt
validate_cases pattern required (c ∷ cs) =
    in_case c.code (validate_case pattern required c (expand c))
    >> validate_cases pattern required cs

unfoldable pub validate_pattern_semantics : Scenario → Result (String × SemanticError) (Unit {0})
validate_pattern_semantics d = validate_cases d.pattern (required_roles d) d.cases

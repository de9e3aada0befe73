-- ===== src/Scenario/Semantics/Windows.antt =====
-- internal/scenario/semantics.go: the patterns that look for a window of one group in which enough
-- happens: flood, co-occurrence, cross-source and threshold.
use oscar_corrtest.Base.{
  ℕ, ◌-◌, String, Bool, false, ◌&&◌, ◌||◌, not, List, [], ◌∷◌, ◌++◌, map, ltb, leb, str_eq,
  if◌then◌else◌, any, all, keep, length,
}
use oscar_corrtest.Base.Assoc.{label, contains, set_of}
use oscar_corrtest.Scenario.Semantics.Expand.{SemanticEvent, is_firing, chronological}

abbrev pub Groups : Type 0
Groups = List (String × List SemanticEvent)

abbrev pub group_at : Groups → String → List SemanticEvent
group_at [] k = []
group_at ((j, g) ∷ gs) k = if str_eq j k then g else group_at gs k

-- `groups[event.GroupKey] = append(groups[event.GroupKey], event)`
unfoldable pub insert_group : SemanticEvent → Groups → Groups
insert_group e [] = (e.group_key, e ∷ []) ∷ []
insert_group e ((k, g) ∷ gs) =
    if str_eq k e.group_key then (k, g ++ e ∷ []) ∷ gs else (k, g) ∷ insert_group e gs

unfoldable pub collect : Groups → List SemanticEvent → Groups
unfolding insert_group
collect gs [] = gs
collect gs (e ∷ es) = collect (if is_firing e then insert_group e gs else gs) es

abbrev pub group_keys : Groups → List String
group_keys gs = map (λ g. g.0) gs

-- `for _, group := range groups`, for a flag that any round may set.
abbrev pub any_group : (List SemanticEvent → Bool) → Groups → Bool
any_group test gs = any (λ k. test (group_at gs k)) (group_keys gs)

-- The rounds of the inner loop up to its `break`.
unfoldable pub within : ℕ → ℕ → List SemanticEvent → List SemanticEvent
within window start [] = []
within window start (e ∷ es) = if ltb window (e.at - start) then [] else e ∷ within window start es

-- `for start := range group`
unfoldable pub any_start : ℕ → (List SemanticEvent → Bool) → List SemanticEvent → Bool
unfolding within
any_start window test [] = false
any_start window test (e ∷ es) = test (within window e.at (e ∷ es)) || any_start window test es

unfoldable pub any_window : ℕ → (List SemanticEvent → Bool) → List SemanticEvent → Bool
unfolding collect any_start chronological
any_window window test events =
    any_group (λ g. any_start window test (chronological g)) (collect [] events)

abbrev pub five_identities : List SemanticEvent → Bool
five_identities es = leb 5 (length (set_of (map (λ e. e.identity) es)))

abbrev pub every_role : List String → List SemanticEvent → Bool
every_role required es = all (λ r. contains r (map (λ e. e.role) es)) required

abbrev pub source_of : SemanticEvent → String
source_of e = label e.labels "oscar_source"

abbrev pub both_sources : List SemanticEvent → Bool
both_sources es = contains "snmp" (map source_of es) && contains "api" (map source_of es)

abbrev pub device_of : SemanticEvent → String
device_of e = label e.labels "device"

abbrev pub three_devices : List SemanticEvent → Bool
three_devices es =
    leb 3 (length (set_of (map device_of (keep (λ e. not (str_eq (device_of e) "")) es))))

-- `reachesFive`
unfoldable pub flood_reaches : ℕ → List SemanticEvent → Bool
unfolding any_window
flood_reaches window events = any_window window five_identities events

-- `complete` of the co-occurrence pattern
unfoldable pub roles_complete : List String → ℕ → List SemanticEvent → Bool
unfolding any_window
roles_complete required window events = any_window window (every_role required) events

-- `complete` of the cross-source pattern
unfoldable pub sources_complete : ℕ → List SemanticEvent → Bool
unfolding any_window
sources_complete window events = any_window window both_sources events

-- `reachesThree`
unfoldable pub threshold_reaches : ℕ → List SemanticEvent → Bool
unfolding any_window
threshold_reaches window events = any_window window three_devices events

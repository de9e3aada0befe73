-- ===== src/Scenario/Semantics/Ordered.antt =====
-- internal/scenario/semantics.go: the patterns that follow the events in order: sequence,
-- persistence, absence and parent-child.
use oscar_corrtest.Base.{
  ℕ, ◌+◌, ◌-◌, ◌*◌, String, Bool, false, ◌&&◌, ◌||◌, not, List, [], ◌∷◌, map, Option, none, some,
  ltb, leb, ◌==◌, str_eq, if◌then◌else◌, any,
}
use oscar_corrtest.Base.Assoc.{find, put, remove}
use oscar_corrtest.Scenario.{second}
use oscar_corrtest.Scenario.Semantics.Expand.{SemanticEvent, is_firing, chronological}
use oscar_corrtest.Scenario.Semantics.Windows.{any_group, collect}

unfoldable pub precedes : SemanticEvent → SemanticEvent → Bool
precedes a b = ltb a.at b.at || (a.at == b.at && ltb a.ordinal b.ordinal)

abbrev pub fires_as : String → SemanticEvent → Bool
fires_as role e = is_firing e && str_eq e.role role

abbrev pub follows : ℕ → SemanticEvent → SemanticEvent → Bool
follows window login command =
    fires_as "privileged_command" command
    && str_eq command.group_key login.group_key
    && precedes login command
    && leb (command.at - login.at) window

-- `valid` of the sequence pattern
unfoldable pub sequence_valid : ℕ → List SemanticEvent → Bool
unfolding precedes
sequence_valid window events =
    any (λ login. fires_as "login_failure" login && any (follows window login) events) events

pub record Persistence : Type 0 where
  pub active : List (String × SemanticEvent)
  pub persists : Bool
  pub resolves_early : Bool

abbrev settle : Persistence → SemanticEvent → Option SemanticEvent → Persistence
settle s e none = s
settle s e (some firing) =
    let early = ltb (e.at - firing.at) (30 * second) in
    record s {
      active = remove e.identity s.active;
      persists = s.persists || not early;
      resolves_early = s.resolves_early || early;
    }

unfoldable pub persistence_step : Persistence → SemanticEvent → Persistence
persistence_step s e =
    if is_firing e
    then record s { active = put e.identity e s.active }
    else settle s e (find e.identity s.active)

unfoldable pub persistence_loop : Persistence → List SemanticEvent → Persistence
unfolding persistence_step
persistence_loop s [] = s
persistence_loop s (e ∷ es) = persistence_loop (persistence_step s e) es

abbrev pub lasts : ℕ → SemanticEvent → Bool
lasts window firing = leb (firing.at + 30 * second) (window + 15 * second)

abbrev pub fresh : Persistence
fresh = record { active = []; persists = false; resolves_early = false }

-- `persists` and `resolvesEarly` after both loops.
unfoldable pub persistence_flags : ℕ → List SemanticEvent → Bool × Bool
unfolding persistence_loop
persistence_flags window events =
    let s = persistence_loop fresh (chronological events) in
    (s.persists || any (λ entry. lasts window entry.1) s.active, s.resolves_early)

unfoldable pub gap_in : List ℕ → Bool
gap_in [] = false
gap_in (t ∷ []) = leb (30 * second) (55 * second - t)
gap_in (t ∷ u ∷ ts) = leb (30 * second) (u - t) || gap_in (u ∷ ts)

-- `hasGap`
unfoldable pub has_gap : List SemanticEvent → Bool
unfolding gap_in
has_gap events = any_group (λ g. gap_in (map (λ e. e.at) (chronological g))) (collect [] events)

pub record Family : Type 0 where
  pub parents : List (String × List (String × SemanticEvent))
  pub child_count : ℕ
  pub matched_child : Bool

abbrev pub parents_of :
    List (String × List (String × SemanticEvent)) → String → List (String × SemanticEvent)
parents_of ps g = elim (find g ps) [ none ↦ [] | some m ↦ m ]

abbrev pub adopts : ℕ → SemanticEvent → SemanticEvent → Bool
adopts window child parent = precedes parent child && leb (child.at - parent.at) window

unfoldable pub family_step : ℕ → Family → SemanticEvent → Family
unfolding precedes
family_step window f e =
    if fires_as "parent" e
    then record f {
      parents = put e.group_key (put e.identity e (parents_of f.parents e.group_key)) f.parents;
    }
    else if str_eq e.role "parent" && str_eq e.status "resolved"
    then record f {
      parents = put e.group_key (remove e.identity (parents_of f.parents e.group_key)) f.parents;
    }
    else if fires_as "child" e
    then record f {
      child_count = f.child_count + 1;
      matched_child =
          f.matched_child
          || any (λ entry. adopts window e entry.1) (parents_of f.parents e.group_key);
    }
    else f

unfoldable pub family_loop : ℕ → Family → List SemanticEvent → Family
unfolding family_step
family_loop window f [] = f
family_loop window f (e ∷ es) = family_loop window (family_step window f e) es

abbrev pub no_family : Family
no_family = record { parents = []; child_count = 0; matched_child = false }

unfoldable pub family_of : ℕ → List SemanticEvent → Family
unfolding family_loop
family_of window events = family_loop window no_family (chronological events)

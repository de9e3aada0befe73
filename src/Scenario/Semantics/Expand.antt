-- ===== src/Scenario/Semantics/Expand.antt =====
-- internal/scenario/semantics.go: the observations that a case's events give.
use oscar_corrtest.Base.{
  ℕ, zero, suc, ◌+◌, String, Bool, List, [], ◌∷◌, Option, none, some, str_eq, if◌then◌else◌, ◌⧺◌,
  decimal, leb,
}
use oscar_corrtest.Base.Assoc.{find, put, remove, label}
use oscar_corrtest.Scenario.{Labels, Event, Case, identity_key}

pub record SemanticEvent : Type 0 where
  pub role : String
  pub status : String
  pub labels : Labels
  pub at : ℕ
  pub ordinal : ℕ
  pub group_key : String
  pub identity : String

abbrev pub is_firing : SemanticEvent → Bool
is_firing e = str_eq e.status "firing"

join_parts : List String → Labels → String
join_parts [] labels = ""
join_parts (key ∷ []) labels = key ⧺ "=" ⧺ label labels key
join_parts (key ∷ more) labels = key ⧺ "=" ⧺ label labels key ⧺ "\0" ⧺ join_parts more labels

unfoldable pub semantic_group_key : List String → Labels → String
unfolding join_parts
semantic_group_key [] labels = "*"
semantic_group_key (key ∷ more) labels = join_parts (key ∷ more) labels

-- `for key, value := range event.Labels { labels[key] = value }` on a clone of the case's labels.
unfoldable pub merge_labels : Labels → Labels → Labels
unfolding put
merge_labels base [] = base
merge_labels base ((key, value) ∷ more) = merge_labels (put key value base) more

unfoldable pub firing_events : ℕ → String → List Event
firing_events zero role = []
firing_events (suc n) role =
    record { role = role; source = ""; status = "firing"; labels = []; delay = 0 }
    ∷ firing_events n role

abbrev pub repeated : List Event → ℕ → String → List Event
repeated [] n role = firing_events n role
repeated events n role = events

-- The events of a case: the declared ones, or `Repeat` firings of its role.
unfoldable pub stimuli : Case → List Event
unfolding firing_events
stimuli c = repeated c.events c.repeat c.role

abbrev Active : Type 0
Active = List (String × SemanticEvent)

pub record Tables : Type 0 where
  pub active : Active
  pub retained : Active

unfoldable pub observation : Case → ℕ → Event → SemanticEvent
unfolding semantic_group_key merge_labels
observation c index event =
    let labels = merge_labels c.labels event.labels in
    record {
      role = event.role;
      status = event.status;
      labels = labels;
      at = event.delay;
      ordinal = index;
      group_key = semantic_group_key c.group_by labels;
      identity = "";
    }

abbrev adopt : SemanticEvent → SemanticEvent → SemanticEvent
adopt firing o = record o { labels = firing.labels; group_key = firing.group_key }

abbrev numbered : Event → ℕ → String
numbered event index = event.role ⧺ "#" ⧺ decimal index

-- One round of the loop, for the observation that the event gives by itself.
observe_resolved : Tables → String → SemanticEvent → Option SemanticEvent → SemanticEvent × Tables
observe_resolved t key o none = (o, t)
observe_resolved t key o (some firing) = (
  record o { labels = firing.labels; group_key = firing.group_key; identity = firing.identity },
  record t { active = remove key t.active },
)

observe_named : Tables → String → SemanticEvent → Option SemanticEvent → SemanticEvent × Tables
observe_named t key o none =
    (o, record { active = put key o t.active; retained = put key o t.retained })
observe_named t key o (some previous) =
    let o' = adopt previous o in (o', record t { active = put key o' t.active })

observe_plain : Tables → String → SemanticEvent → SemanticEvent × Tables
observe_plain t key o = (o, record t { active = put key o t.active })

unfoldable pub observe_event : Case → Tables → ℕ → Event → SemanticEvent × Tables
unfolding observation observe_resolved observe_named observe_plain
observe_event c t index event =
    let o = observation c index event in
    let key = identity_key event in
    (if str_eq event.status "resolved"
      then observe_resolved t key o (find key t.active)
      else if str_eq event.source ""
      then observe_plain t key (record o { identity = numbered event index })
      else observe_named t key (record o { identity = key }) (find key t.retained))

unfoldable pub expand_from : Case → Tables → ℕ → List Event → List SemanticEvent
expand_from c t index [] = []
expand_from c t index (event ∷ events) =
    let (o, t') = observe_event c t index event in o ∷ expand_from c t' (index + 1) events

unfoldable pub expand : Case → List SemanticEvent
expand c = expand_from c (record { active = []; retained = [] }) 0 (stimuli c)

-- `sort.SliceStable` by time: what comes first among equal times stays first.
unfoldable pub insert_at : SemanticEvent → List SemanticEvent → List SemanticEvent
insert_at e [] = e ∷ []
insert_at e (x ∷ xs) = if leb e.at x.at then e ∷ x ∷ xs else x ∷ insert_at e xs

unfoldable pub chronological : List SemanticEvent → List SemanticEvent
unfolding insert_at
chronological [] = []
chronological (e ∷ es) = insert_at e (chronological es)

-- ===== src/Scenario/Semantics/Reach.antt =====
-- internal/scenario/semantics.go: what the four window patterns look for.
use oscar_corrtest.Base.{
  ℕ, ◌+◌, ◌≤◌, ◌≡◌, refl, sym, ap, ◌↔◌, inl, inr, String, Bool, true, ◌||◌, not, List, [], ◌∷◌,
  ◌++◌, map, str_eq, if◌then◌else◌, all, keep, All, length, leb, Bool-cases, and-eq-true, arith,
  eq_iff, leb→le, le→leb,
}
use mathlib.Core.Path.{subst}
use mathlib.Core.List.{append-nil}
use oscar_corrtest.Base.Assoc.{contains, set_of}
use oscar_corrtest.Scenario.Semantics.Expand.{SemanticEvent}
use oscar_corrtest.Scenario.Semantics.Windows.{
  five_identities, every_role, both_sources, three_devices, source_of, device_of, flood_reaches,
  roles_complete, sources_complete, threshold_reaches,
}
use oscar_corrtest.Scenario.Semantics.Spec.{IsSorted, fired}
use oscar_corrtest.Scenario.Semantics.Groups.{any_window_iff}

map_snoc :
    (f : SemanticEvent → String) (xs : List SemanticEvent) (x : SemanticEvent)
    → map f (xs ++ x ∷ []) ≡ map f xs ++ f x ∷ []
map_snoc f [] x = refl
map_snoc f (y ∷ xs) x = ap (λ r. f y ∷ r) (map_snoc f xs x)

contains-append :
    (k : String) (xs ys : List String) → contains k (xs ++ ys) ≡ (contains k xs || contains k ys)
contains-append k [] ys = refl
contains-append k (x ∷ xs) ys = ground (arith, contains-append k xs ys)

-- One more value makes the set grow exactly if it is new.
length-set_of_snoc :
    (xs : List String) (z : String)
    → length (set_of (xs ++ z ∷ [])) ≡ (if contains z xs then 0 else 1) + length (set_of xs)
length-set_of_snoc [] z = omega arith
length-set_of_snoc (x ∷ xs) z =
    ground (arith, eq_iff x z, eq_iff z x, contains-append x xs (z ∷ []), length-set_of_snoc xs z)

enough_front :
    (n : ℕ) (x : String) (xs : List String)
    → leb n (length (set_of xs)) ≡ true
    → leb n (length (set_of (x ∷ xs))) ≡ true
enough_front n x xs h = ground arith

enough_back :
    (n : ℕ) (xs : List String) (x : String)
    → leb n (length (set_of xs)) ≡ true
    → leb n (length (set_of (xs ++ x ∷ []))) ≡ true
enough_back n xs x h = ground (arith, length-set_of_snoc xs x)

-- Where the events are in order of time, the flood scan succeeds exactly if some group fires five
-- distinct identities in an interval of the window's length.
pub flood_iff :
    (window : ℕ) (es : List SemanticEvent)
    → IsSorted es
    → (flood_reaches window es ≡ true) ↔ (
        (k : String) × (t : ℕ) × (5
          ≤ length (set_of (map (λ e. e.identity) (fired k t window es)))))
unfolding flood_reaches
flood_iff window es h =
    let (to, from) =
      any_window_iff window five_identities
        (λ x xs. enough_front 5 x.identity (map (λ e. e.identity) xs))
        (λ xs x p.
          rw (map_snoc (λ e. e.identity) xs x)
            (enough_back 5 (map (λ e. e.identity) xs) x.identity p))
        refl es h in
    (λ p. let (k, t, q) = to p in (k, t, ground arith), λ (k, t, q). from (k, t, ground arith))

all_front :
    (required : List String) (x : String) (xs : List String)
    → all (λ r. contains r xs) required ≡ true
    → all (λ r. contains r (x ∷ xs)) required ≡ true
all_front [] x xs h = refl
all_front (r ∷ rs) x xs h = ground (arith, all_front rs x xs)

all_back :
    (required : List String) (xs : List String) (x : String)
    → all (λ r. contains r xs) required ≡ true
    → all (λ r. contains r (xs ++ x ∷ [])) required ≡ true
all_back [] xs x h = refl
all_back (r ∷ rs) xs x h = ground (arith, contains-append r xs (x ∷ []), all_back rs xs x)

all→All : {A : Type 0} (f : A → Bool) (xs : List A) → all f xs ≡ true → All (λ x. f x ≡ true) xs
all→All f [] h = tt
all→All f (x ∷ xs) h = let (p, q) = and-eq-true (f x) (all f xs) h in (p, all→All f xs q)

All→all : {A : Type 0} (f : A → Bool) (xs : List A) → All (λ x. f x ≡ true) xs → all f xs ≡ true
All→all f [] h = refl
All→all f (x ∷ xs) (p, h) = ground (arith, All→all f xs h)

-- Where the events are in order of time and some role is required, the co-occurrence scan succeeds
-- exactly if some group fires every required role in an interval of the window's length.
pub co_occurrence_iff :
    (first : String) (more : List String) (window : ℕ) (es : List SemanticEvent)
    → IsSorted es
    → (roles_complete (first ∷ more) window es ≡ true) ↔ (
        (k : String) × (t : ℕ) × All
          (λ r. contains r (map (λ e. e.role) (fired k t window es)) ≡ true)
          (first ∷ more))
unfolding roles_complete
co_occurrence_iff first more window es h =
    let (to, from) =
      any_window_iff window (every_role (first ∷ more))
        (λ x xs. all_front (first ∷ more) x.role (map (λ e. e.role) xs))
        (λ xs x p.
          subst (λ ys. all (λ r. contains r ys) (first ∷ more) ≡ true)
            (sym (map_snoc (λ e. e.role) xs x))
            (all_back (first ∷ more) (map (λ e. e.role) xs) x.role p))
        refl es h in
    (
      λ p. let (k, t, q) = to p in (k, t, all→All _ (first ∷ more) q),
      λ (k, t, q). from (k, t, All→all _ (first ∷ more) q),
    )

-- Where the events are in order of time, the cross-source scan succeeds exactly if some group fires
-- from both `snmp` and `api` in an interval of the window's length.
pub cross_source_iff :
    (window : ℕ) (es : List SemanticEvent)
    → IsSorted es
    → (sources_complete window es ≡ true) ↔ (
        (k : String) × (t : ℕ) × (contains "snmp" (map source_of (fired k t window es)) ≡ true)
        × (contains "api" (map source_of (fired k t window es)) ≡ true))
unfolding sources_complete
cross_source_iff window es h =
    let (to, from) =
      any_window_iff window both_sources (λ x xs p. ground arith)
        (λ xs x p. rw (map_snoc source_of xs x) (
          ground (
            arith,
            contains-append "snmp" (map source_of xs) (source_of x ∷ []),
            contains-append "api" (map source_of xs) (source_of x ∷ []),
          )))
        refl es h in
    (
      λ p.
          let (k, t, q) = to p in
          let (snmp, api) =
            and-eq-true (contains "snmp" (map source_of (fired k t window es)))
              (contains "api" (map source_of (fired k t window es))) q in
          (k, t, snmp, api),
      λ (k, t, q, r). from (k, t, ground arith),
    )

abbrev pub devices : List SemanticEvent → List String
devices es = map device_of (keep (λ e. not (str_eq (device_of e) "")) es)

devices_snoc :
    (xs : List SemanticEvent) (x : SemanticEvent)
    → devices (xs ++ x ∷ [])
      ≡ devices xs ++ (if str_eq (device_of x) "" then [] else device_of x ∷ [])
devices_snoc [] x = elim (Bool-cases (str_eq (device_of x) "")) [ inl e ↦ rw e | inr e ↦ rw e ]
devices_snoc (y ∷ xs) x = elim (Bool-cases (str_eq (device_of y) "")) [
  | inl e ↦ rw e (devices_snoc xs x)
  | inr e ↦ rw e (ap (λ r. device_of y ∷ r) (devices_snoc xs x))
]

devices_front :
    (x : SemanticEvent) (xs : List SemanticEvent)
    → three_devices xs ≡ true
    → three_devices (x ∷ xs) ≡ true
devices_front x xs h = elim (Bool-cases (str_eq (device_of x) "")) [
  | inl e ↦ rw e h
  | inr e ↦ rw e (enough_front 3 (device_of x) (devices xs) h)
]

devices_back :
    (xs : List SemanticEvent) (x : SemanticEvent)
    → three_devices xs ≡ true
    → three_devices (xs ++ x ∷ []) ≡ true
devices_back xs x h = rw (devices_snoc xs x) (elim (Bool-cases (str_eq (device_of x) "")) [
  | inl e ↦ rw (e, append-nil) h
  | inr e ↦ rw e (enough_back 3 (devices xs) (device_of x) h)
])

-- Where the events are in order of time, the threshold scan succeeds exactly if some group fires
-- three distinct nonempty devices in an interval of the window's length.
pub threshold_iff :
    (window : ℕ) (es : List SemanticEvent)
    → IsSorted es
    → (threshold_reaches window es ≡ true)
      ↔ ((k : String) × (t : ℕ) × (3 ≤ length (set_of (devices (fired k t window es)))))
unfolding threshold_reaches
threshold_iff window es h =
    let (to, from) = any_window_iff window three_devices devices_front devices_back refl es h in
    (λ p. let (k, t, q) = to p in (k, t, leb→le _ _ q), λ (k, t, q). from (k, t, le→leb _ _ q))

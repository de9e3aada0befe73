-- ===== src/Control/Excluded.antt =====
-- internal/compiler/no_match.go: no rule of an accepted plan takes an alert of a control.
use mathlib.Core.List.{Memᴰ}
use mathlib.Core.Path.{subst}
use oscar_corrtest.Base.{
  ◌≡◌, refl, sym, ap, ◌∙◌, String, Bool, true, false, List, [], ◌∷◌, Option, none, some, ok, str_eq,
  all, arith, eq_iff, Bool-cases, inl, inr,
}
use oscar_corrtest.Base.Assoc.{find, label}
use oscar_corrtest.Control.{
  Criterion, texts, values, nil, other_value, AlertPlan, CasePlan, Plan, match_name, exclude,
  check_inputs, check_control, check_case, check_cases, validate_control_exclusion,
}

abbrev is_value : String → Option String → Bool
is_value s none = false
is_value s (some v) = str_eq s v

-- Does a rule with this criterion take an alert with these labels? It takes every alert whose labels have all of
-- the entries; of a criterion that is no map it is assumed that it takes every alert.
abbrev pub takes : Option Criterion → List (String × String) → Bool
takes (some (texts m)) labels = all (λ (e : String × String). str_eq (label labels e.0) e.1) m
takes (some (values m)) labels =
    all (λ (e : String × Option String). is_value (label labels e.0) e.1) m
takes c labels = true

not_taken :
    (c : Option Criterion) (labels : List (String × String))
    → str_eq (match_name c) "" ≡ false
    → str_eq (label labels "alertname") (match_name c) ≡ false
    → takes c labels ≡ false
unfolding find
not_taken none labels named apart = cc
not_taken (some nil) labels named apart = cc
not_taken (some other_value) labels named apart = cc
not_taken (some (texts [])) labels named apart = cc
not_taken (some (texts (e ∷ f ∷ m))) labels named apart = cc
not_taken (some (values [])) labels named apart = cc
not_taken (some (values (e ∷ f ∷ m))) labels named apart = cc
not_taken (some (texts ((k, v) ∷ []))) labels named apart =
    elim (Bool-cases (str_eq k "alertname")) [
      | inr other ↦ cc (rw other at named)
      | inl own ↦ rw ((eq_iff k "alertname").0 own) (rw (rw own at apart) refl)
    ]
not_taken (some (values ((k, none) ∷ []))) labels named apart = refl
not_taken (some (values ((k, some v) ∷ []))) labels named apart =
    elim (Bool-cases (str_eq k "alertname")) [
      | inr other ↦ cc (rw other at named)
      | inl own ↦ rw ((eq_iff k "alertname").0 own) (rw (rw own at apart) refl)
    ]

excluded :
    (a : AlertPlan) (fixtures : List CasePlan) (f : CasePlan)
    → exclude a fixtures ≡ ok tt
    → str_eq (label a.labels "alertname") a.name ≡ true
    → Memᴰ f fixtures
    → takes (find "match" f.rule.match_criteria) a.labels ≡ false
unfolding exclude
excluded a [] f h named m = elim m [ ]
excluded a (x ∷ more) f h named (Memᴰ.head same) =
    subst (λ y. takes (find "match" y.rule.match_criteria) a.labels ≡ false) (sym same)
      (not_taken (find "match" x.rule.match_criteria) a.labels (ground arith) (
        ap (λ s. str_eq s (match_name (find "match" x.rule.match_criteria)))
          ((eq_iff (label a.labels "alertname") a.name).0 named)
        ∙ ground arith))
excluded a (x ∷ more) f h named (Memᴰ.tail m) = excluded a more f (ground arith) named m

-- An alert that passes is excluded and tells its name in its labels.
checked :
    (fixtures : List CasePlan) (alerts : List AlertPlan) (seen : List String)
    (sources : List (String × String)) (a : AlertPlan)
    → check_inputs fixtures alerts seen sources ≡ ok tt
    → Memᴰ a alerts
    → (exclude a fixtures ≡ ok tt) × (str_eq (label a.labels "alertname") a.name ≡ true)
unfolding check_inputs
checked fixtures [] seen sources a h m = elim m [ ]
checked fixtures (x ∷ more) seen sources a h (Memᴰ.head same) =
    subst (λ y. (exclude y fixtures ≡ ok tt) × (str_eq (label y.labels "alertname") y.name ≡ true))
      (sym same) (ground arith, ground arith)
checked fixtures (x ∷ more) seen sources a h (Memᴰ.tail m) =
    checked fixtures more (label x.labels "oscar_test_event_id" ∷ seen)
      ((x.name, x.source) ∷ sources) a (ground arith) m

case_checked :
    (plan : Plan) (items : List CasePlan) (item : CasePlan)
    → check_cases plan items ≡ ok tt
    → Memᴰ item items
    → check_case plan item ≡ ok tt
unfolding check_cases
case_checked plan [] item h m = elim m [ ]
case_checked plan (x ∷ more) item h (Memᴰ.head same) =
    subst (λ y. check_case plan y ≡ ok tt) (sym same) (ground arith)
case_checked plan (x ∷ more) item h (Memᴰ.tail m) = case_checked plan more item (ground arith) m

-- In a plan that is accepted no rule, of whichever case, takes an alert of a case that is a control, if a rule
-- takes the alerts whose labels have all entries of its match.
pub control_excluded :
    (plan : Plan) (item fixture : CasePlan) (a : AlertPlan)
    → validate_control_exclusion plan ≡ ok tt
    → Memᴰ item plan.cases
    → str_eq item.control "" ≡ false
    → Memᴰ a item.alerts
    → Memᴰ fixture plan.cases
    → takes (find "match" fixture.rule.match_criteria) a.labels ≡ false
unfolding validate_control_exclusion
control_excluded plan item fixture a h in_plan is_control in_case is_fixture =
    let done : check_control plan item ≡ ok tt =
      rw is_control at (case_checked plan plan.cases item h in_plan) in
    let (out, named) = checked plan.cases item.alerts [] [] a (ground arith) in_case in
    excluded a plan.cases fixture out named is_fixture

-- ===== src/Scenario/Validate/Accepted.antt =====
-- internal/scenario/decode.go, semantics.go: what an accepted scenario gives for each of its cases.
use oscar_corrtest.Base.{◌≡◌, sym, String, List, [], ◌∷◌, ok, >>=-eq-ok, arith}
use mathlib.Core.List.{Memᴰ}
use mathlib.Core.Path.{subst}
use oscar_corrtest.Scenario.{Case, Scenario}
use oscar_corrtest.Scenario.Semantics.Expand.{expand}
use oscar_corrtest.Scenario.Semantics.Check
use oscar_corrtest.Scenario.Semantics.Check.{
  SemanticError, required_roles, validate_pattern_semantics, in_case,
}
use oscar_corrtest.Scenario.Validate.{
  Seen, nothing_seen, validate_case_body, validate_case, validate_cases, validate,
}
use oscar_corrtest.Scenario.Validate.Events.{validate_stimuli}

pub accepted_parts :
    (d : Scenario)
    → validate d ≡ ok tt
    → ((seen : Seen) × (validate_cases d nothing_seen d.cases ≡ ok seen))
      × (validate_pattern_semantics d ≡ ok tt)
unfolding validate
accepted_parts d h = (ground arith, ground arith)

case-body :
    (d : Scenario) (seen seen' : Seen) (c : Case)
    → validate_case d seen c ≡ ok seen'
    → validate_case_body d c ≡ ok tt
unfolding validate_case
case-body d seen seen' c h = ground arith

body-stimuli :
    (d : Scenario) (c : Case)
    → validate_case_body d c ≡ ok tt
    → validate_stimuli d.max_duration c ≡ ok tt
unfolding validate_case_body
body-stimuli d c h = ground arith

cases-body :
    (d : Scenario) (seen seen' : Seen) (cs : List Case) (c : Case)
    → validate_cases d seen cs ≡ ok seen'
    → Memᴰ c cs
    → validate_case_body d c ≡ ok tt
unfolding validate_cases
cases-body d seen seen' [] c h m = elim m [ ]
cases-body d seen seen' (x ∷ cs) c h (Memᴰ.head same) =
    let (next, here, rest) = >>=-eq-ok (validate_case d seen x) _ h in
    subst (λ y. validate_case_body d y ≡ ok tt) (sym same) (case-body d seen next x here)
cases-body d seen seen' (x ∷ cs) c h (Memᴰ.tail m) =
    let (next, here, rest) = >>=-eq-ok (validate_case d seen x) _ h in
    cases-body d next seen' cs c rest m

in_case-ok : (code : String) (r : Check.Check) → in_case code r ≡ ok tt → r ≡ ok tt
unfolding in_case
in_case-ok code r h = ground arith

semantic_cases :
    (pattern : String) (required : List String) (cs : List Case) (c : Case)
    → Check.validate_cases pattern required cs ≡ ok tt
    → Memᴰ c cs
    → Check.validate_case pattern required c (expand c) ≡ ok tt
unfolding Check.validate_cases
semantic_cases pattern required [] c h m = elim m [ ]
semantic_cases pattern required (x ∷ cs) c h (Memᴰ.head same) = in_case-ok c.code _ (
    subst (λ y. in_case y.code (Check.validate_case pattern required y (expand y)) ≡ ok tt)
      (sym same) (ground arith))
semantic_cases pattern required (x ∷ cs) c h (Memᴰ.tail m) =
    semantic_cases pattern required cs c (ground arith) m

-- Each case of an accepted scenario has passed its own checks and the check of its meaning.
pub accepted_case :
    (d : Scenario) (c : Case)
    → validate d ≡ ok tt
    → Memᴰ c d.cases
    → (validate_stimuli d.max_duration c ≡ ok tt)
      × (Check.validate_case d.pattern (required_roles d) c (expand c) ≡ ok tt)
unfolding validate_pattern_semantics
accepted_case d c h m =
    let ((seen, cases), meaning) = accepted_parts d h in
    (
      body-stimuli d c (cases-body d nothing_seen seen d.cases c cases m),
      semantic_cases d.pattern (required_roles d) d.cases c meaning m,
    )

-- ===== src/Run/Facts.antt =====
-- internal/domain/evidence.go and artifact.go: the facts that finalize a run, and their validation. A JSON
-- document is its text, or `none` where the text is not JSON.
use oscar_corrtest.Base.{
  ℕ, String, Bool, true, false, ◌&&◌, ◌||◌, not, List, [], ◌∷◌, ◌==◌, leb, ltb, str_eq, Option,
  none, some, Result, ok, ◌>>◌, refuse_if,
}
use oscar_corrtest.Run.{Verdict, verdict_valid, is_zero}

abbrev pub Json : Type 0
Json = Option String

abbrev pub json_valid : Json → Bool
json_valid none = false
json_valid (some text) = true

abbrev pub json_text : Json → String
json_text none = ""
json_text (some text) = text

pub record AssertionFact : Type 0 where
  pub stable_key : String
  pub kind : String
  pub expected : Json
  pub observed : Json
  pub verdict : Verdict
  pub explanation : String
  pub observation_start : Option ℕ
  pub observation_end : Option ℕ

pub record CaseFact : Type 0 where
  pub stable_key : String
  pub verdict : Verdict
  pub started_at : Option ℕ
  pub ended_at : Option ℕ
  pub assertions : List AssertionFact
  pub evidence : Json

pub record AlertAttemptFact : Type 0 where
  pub starts_at : Option ℕ
  pub case_stable_key : String
  pub event_id : String
  pub event_index : ℕ
  pub send_state : String
  pub injection_class : String
  pub status_code : ℕ
  pub fingerprint : String

pub record AlertResolutionFact : Type 0 where
  pub alert_name : String
  pub fingerprint : String
  pub injection_class : String
  pub status_code : ℕ
  pub accepted : Bool

pub record Artifact : Type 0 where
  pub id : String
  pub run_id : String
  pub case_id : String
  pub kind : String
  pub relative_path : String
  pub mime_type : String
  pub sha256 : String
  pub byte_size : ℕ
  pub redaction_state : String
  pub availability : String
  pub created_at : Option ℕ

pub record ExecutionFacts : Type 0 where
  pub cases : List CaseFact
  pub attempts : List AlertAttemptFact
  pub resolutions : List AlertResolutionFact
  pub artifacts : List Artifact

pub data FactError : Type 0 where
  bad_case bad_assertion bad_attempt bad_resolution bad_artifact : FactError

-- `time.Time.Before`; the zero time is before every other.
abbrev pub before : Option ℕ → Option ℕ → Bool
before none none = false
before none (some t) = true
before (some s) none = false
before (some s) (some t) = ltb s t

abbrev pub assertion_refused : AssertionFact → Bool
assertion_refused a =
    str_eq a.stable_key ""
    || str_eq a.kind ""
    || not (verdict_valid a.verdict)
    || not (json_valid a.expected)
    || not (json_valid a.observed)
    || is_zero a.observation_start
    || before a.observation_end a.observation_start

abbrev pub case_refused : CaseFact → Bool
case_refused c =
    str_eq c.stable_key ""
    || not (verdict_valid c.verdict)
    || is_zero c.started_at
    || before c.ended_at c.started_at
    || not (json_valid c.evidence)

abbrev pub is_status_code : ℕ → Bool
is_status_code n = leb 100 n && leb n 599

abbrev pub attempt_refused : AlertAttemptFact → Bool
attempt_refused a =
    str_eq a.case_stable_key ""
    || str_eq a.event_id ""
    || (a.event_index == 0)
    || str_eq a.send_state ""
    || str_eq a.injection_class ""
    || not (
        is_status_code a.status_code
        || ((a.status_code == 0)
            && str_eq a.send_state "ATTEMPTED"
            && str_eq a.injection_class "indeterminate"))

abbrev pub resolution_refused : AlertResolutionFact → Bool
resolution_refused r =
    str_eq r.alert_name ""
    || str_eq r.fingerprint ""
    || str_eq r.injection_class ""
    || not (is_status_code r.status_code)

-- `Artifact.Validate`.
abbrev pub artifact_refused : Artifact → Bool
artifact_refused a =
    str_eq a.id ""
    || str_eq a.run_id ""
    || str_eq a.kind ""
    || str_eq a.relative_path ""
    || str_eq a.mime_type ""
    || str_eq a.redaction_state ""
    || is_zero a.created_at
    || (str_eq a.availability "PENDING" && (not (str_eq a.sha256 "") || not (a.byte_size == 0)))
    || (str_eq a.availability "AVAILABLE" && str_eq a.sha256 "")
    || not (str_eq a.availability "PENDING" || str_eq a.availability "AVAILABLE")

abbrev pub each {ℓ} : {A : Type ℓ} → (A → Bool) → FactError → List A → Result FactError (Unit {0})
each refused e [] = ok tt
each refused e (x ∷ xs) = refuse_if (refused x) e >> each refused e xs

abbrev pub each_case : List CaseFact → Result FactError (Unit {0})
each_case [] = ok tt
each_case (c ∷ cs) = do
  refuse_if (case_refused c) bad_case
  each assertion_refused bad_assertion c.assertions
  each_case cs

-- `ExecutionFacts.Validate`.
unfoldable pub validate_facts : ExecutionFacts → Result FactError (Unit {0})
unfolding verdict_valid
validate_facts f = do
  each_case f.cases
  each attempt_refused bad_attempt f.attempts
  each resolution_refused bad_resolution f.resolutions
  each artifact_refused bad_artifact f.artifacts

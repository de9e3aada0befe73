-- ===== src/Run.antt =====
-- internal/domain/run.go: the lifecycle of a run, its verdict and its cleanup state.
pub mod Graph
pub mod History
pub mod Responsibility
pub mod Facts
pub mod Ids
use oscar_corrtest.Base.{
  ℕ, String, Bool, true, false, ◌&&◌, ◌||◌, not, List, [], ◌∷◌, ◌==◌, str_eq, any, Option, none,
  some, Result, ok, ◌>>=◌, ◌>>◌, refuse_if,
}
use Prim.Native.String.{len}

-- A Go string type; `other` is any text that is not one of the documented names.
pub data RunStatus : Type 0 where
  queued preflight setting_up injecting observing asserting : RunStatus
  cancelling cleaning_up interrupted recovering completed : RunStatus
  other : String → RunStatus

pub data Verdict : Type 0 where
  pass fail inconclusive error skipped : Verdict
  unset : Verdict
  other_verdict : String → Verdict

pub data CleanupStatus : Type 0 where
  clean dirty not_required unknown : CleanupStatus
  other_cleanup : String → CleanupStatus

abbrev code : RunStatus → ℕ
code queued = 0
code preflight = 1
code setting_up = 2
code injecting = 3
code observing = 4
code asserting = 5
code cancelling = 6
code cleaning_up = 7
code interrupted = 8
code recovering = 9
code completed = 10
code (other s) = 11

-- `==` on the Go strings.
unfoldable pub status_eq : RunStatus → RunStatus → Bool
status_eq (other s) (other t) = str_eq s t
status_eq a b = code a == code b

unfoldable pub valid : RunStatus → Bool
valid (other s) = false
valid _ = true

unfoldable pub active : RunStatus → Bool
unfolding valid status_eq
active s = valid s && not (status_eq s interrupted) && not (status_eq s completed)

-- The map literal of `CanTransition`; a missing key gives the nil slice.
unfoldable pub allowed : RunStatus → List RunStatus
allowed queued = preflight ∷ cancelling ∷ []
allowed preflight = setting_up ∷ cancelling ∷ []
allowed setting_up = injecting ∷ cancelling ∷ []
allowed injecting = observing ∷ cancelling ∷ []
allowed observing = asserting ∷ cancelling ∷ []
allowed asserting = cleaning_up ∷ cancelling ∷ []
allowed cancelling = cleaning_up ∷ []
allowed cleaning_up = completed ∷ []
allowed interrupted = recovering ∷ []
allowed recovering = cleaning_up ∷ []
allowed _ = []

unfoldable pub can_transition : RunStatus → RunStatus → Bool
unfolding status_eq active allowed
can_transition from to =
    (status_eq to interrupted && active from) || any (λ c. status_eq c to) (allowed from)

unfoldable pub verdict_valid : Verdict → Bool
verdict_valid unset = false
verdict_valid (other_verdict s) = false
verdict_valid _ = true

-- `==` on the Go strings.
unfoldable pub same_verdict : Verdict → Verdict → Bool
same_verdict pass pass = true
same_verdict fail fail = true
same_verdict inconclusive inconclusive = true
same_verdict error error = true
same_verdict skipped skipped = true
same_verdict unset unset = true
same_verdict (other_verdict s) (other_verdict t) = str_eq s t
same_verdict v w = false

unfoldable pub cleanup_valid : CleanupStatus → Bool
cleanup_valid (other_cleanup s) = false
cleanup_valid _ = true

-- A time is a count of nanoseconds; the zero `time.Time` is `none`. JSON documents are kept as the
-- views that the code decodes from them (Run/Responsibility), and are not part of this record.
pub record Run : Type 0 where
  pub id : String
  pub short_token : String
  pub target_id : String
  pub scenario_id : String
  pub status : RunStatus
  pub verdict : Verdict
  pub cleanup_status : CleanupStatus
  pub harness_version : String
  pub started_at : Option ℕ
  pub ended_at : Option ℕ
  pub created_at : Option ℕ
  pub updated_at : Option ℕ
  pub terminal_error : String

pub data RunError : Type 0 where
  bad_identity bad_status bad_verdict bad_cleanup bad_metadata : RunError

abbrev pub is_zero : Option ℕ → Bool
is_zero none = true
is_zero (some t) = false

abbrev has_verdict : Verdict → Bool
has_verdict unset = false
has_verdict v = true

unfoldable pub validate : Run → Result RunError (Unit {0})
validate r = do
  refuse_if (str_eq r.id "" || not (len r.short_token == 8)) bad_identity
  refuse_if (not (valid r.status)) bad_status
  refuse_if (has_verdict r.verdict && not (verdict_valid r.verdict)) bad_verdict
  refuse_if (not (cleanup_valid r.cleanup_status)) bad_cleanup
  refuse_if (str_eq r.harness_version "" || is_zero r.created_at || is_zero r.updated_at)
      bad_metadata
  ok tt

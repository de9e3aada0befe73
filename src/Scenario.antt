-- ===== src/Scenario.antt =====
-- internal/scenario/model.go: a declarative correlation scenario. Durations count nanoseconds; a
-- negative offset, window or count is refused by `Validate` and is not represented.
pub mod Semantics
pub mod Names
pub mod Validate
use oscar_corrtest.Base.{ℕ, ◌*◌, String, List, [], ◌∷◌, ◌⧺◌}

abbrev pub second : ℕ
second = 1000000000

abbrev pub millisecond : ℕ
millisecond = 1000000

abbrev pub Labels : Type 0
Labels = List (String × String)

pub record Assertion : Type 0 where
  pub kind : String
  pub outcome : String
  pub equals : ℕ

pub record Checkpoint : Type 0 where
  pub name : String
  pub after_event : ℕ
  pub window : ℕ
  pub assertions : List Assertion

pub record Event : Type 0 where
  pub role : String
  pub source : String
  pub status : String
  pub labels : Labels
  pub delay : ℕ

pub record Case : Type 0 where
  pub control : String
  pub name : String
  pub code : String
  pub polarity : String
  pub role : String
  pub repeat : ℕ
  pub window : ℕ
  pub group_by : List String
  pub labels : Labels
  pub suppress_for_notifiers : List String
  pub tag_for_notifiers : List String
  pub assertions : List Assertion
  pub checkpoints : List Checkpoint
  pub events : List Event

pub record Scenario : Type 0 where
  pub api_version : String
  pub kind : String
  pub name : String
  pub suite : String
  pub input_path : String
  pub pattern : String
  pub max_duration : ℕ
  pub cases : List Case

unfoldable pub identity_key : Event → String
identity_key e = e.role ⧺ "\0" ⧺ e.source

-- ===== src/Run/Responsibility.antt =====
-- internal/domain/input_responsibility.go: whether a run may have sent alerts. The documents are read
-- through what `json.Unmarshal` gives: an error, or the fields that the code declares.
use oscar_corrtest.Base.{
  ℕ, String, Bool, true, false, ◌&&◌, ◌||◌, not, List, Option, ◌==◌, str_eq, any,
}
use oscar_corrtest.Run.{
  RunStatus, injecting, observing, asserting, cleaning_up, recovering, status_eq,
}

-- The report: absent, malformed, or with a number of attempts.
pub data Report : Type 0 where
  no_report malformed_report : Report
  attempts : ℕ → Report

-- The detail of an event: none, no JSON, JSON that does not decode into the fields, or the transition
-- that it records; a field that is not there decodes to the empty status, `other ""`.
pub data Detail : Type 0 where
  no_detail malformed_detail foreign_detail : Detail
  transition : RunStatus → RunStatus → RunStatus → Detail

pub record RunEvent : Type 0 where
  pub run_id : String
  pub case_id : String
  pub sequence : ℕ
  pub type : String
  pub level : String
  pub occurred_at : Option ℕ
  pub summary : String
  pub detail : Detail

unfoldable pub after_ingest : RunStatus → Bool
after_ingest s = status_eq s injecting || status_eq s observing || status_eq s asserting

unfoldable pub suspicious_report : Report → Bool
suspicious_report no_report = false
suspicious_report malformed_report = true
suspicious_report (attempts n) = not (n == 0)

-- An empty detail is no JSON document, so `json.Unmarshal` fails on it.
unfoldable pub suspicious_detail : Detail → Bool
suspicious_detail no_detail = true
suspicious_detail malformed_detail = true
suspicious_detail foreign_detail = true
suspicious_detail (transition from to previous) =
    after_ingest from
    || after_ingest to
    || after_ingest previous
    || status_eq previous cleaning_up
    || status_eq previous recovering

abbrev sends_input : String → Bool
sends_input t =
    str_eq t "alert.attempting"
    || str_eq t "alert.prepared"
    || str_eq t "checkpoint.started"
    || str_eq t "checkpoint.completed"

abbrev moves_run : String → Bool
moves_run t = str_eq t "run.transition" || str_eq t "run.interrupted"

unfoldable pub suspicious_event : RunEvent → Bool
unfolding suspicious_detail
suspicious_event e = sends_input e.type || (moves_run e.type && suspicious_detail e.detail)

unfoldable pub possible_alert_inputs : RunStatus → Report → List RunEvent → Bool
unfolding after_ingest suspicious_report
possible_alert_inputs status report events =
    after_ingest status
    || status_eq status cleaning_up
    || status_eq status recovering
    || suspicious_report report
    || any suspicious_event events

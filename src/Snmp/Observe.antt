-- ===== src/Snmp/Observe.antt =====
-- internal/snmpload/observe.go: `Reconcile`, which tells from the rows of the history what became of each
-- episode. A Go map is the list of its entries in the order of their keys, so that equal maps are equal lists;
-- `strings.EqualFold`, which goes by a table of the Go library, is a parameter.
pub mod Reconciled
pub mod Overlap
use oscar_corrtest.Base.{
  ℕ, suc, String, Bool, true, false, ◌&&◌, ◌||◌, not, List, [], ◌∷◌, ◌++◌, Option, none, some,
  str_eq, ◌==◌, any, all, keep, if◌then◌else◌, codes,
}
use oscar_corrtest.Base.Assoc.{label}
use oscar_corrtest.Snmp.Fixture.{Episode}

-- `oscar.HistoryRecord`.
pub record HistoryRecord : Type 0 where
  pub original_severity : Option String
  pub severity : Option String
  pub starts_at : Option ℕ
  pub id : String
  pub alert_name : String
  pub fingerprint : String
  pub status : String
  pub created_at : Option ℕ
  pub labels : List (String × String)
  pub annotations : List (String × String)

pub record Observation : Type 0 where
  pub problem_firing : Bool
  pub episode : ℕ
  pub state : String
  pub history_id : String
  pub fingerprint : String
  pub clear_history_id : String
  pub clear_fingerprint : String

abbrev pub same_text : Option String → Option String → Bool
same_text none none = true
same_text (some s) (some t) = str_eq s t
same_text s t = false

abbrev pub same_time : Option ℕ → Option ℕ → Bool
same_time none none = true
same_time (some s) (some t) = s == t
same_time s t = false

unfoldable pub same_entries : List (String × String) → List (String × String) → Bool
same_entries [] [] = true
same_entries ((k, v) ∷ m) ((j, w) ∷ n) = str_eq k j && str_eq v w && same_entries m n
same_entries m n = false

-- `reflect.DeepEqual` on two rows.
unfoldable pub deep_equal : HistoryRecord → HistoryRecord → Bool
unfolding same_entries
deep_equal a b =
    same_text a.original_severity b.original_severity
    && same_text a.severity b.severity
    && same_time a.starts_at b.starts_at
    && str_eq a.id b.id
    && str_eq a.alert_name b.alert_name
    && str_eq a.fingerprint b.fingerprint
    && str_eq a.status b.status
    && same_time a.created_at b.created_at
    && same_entries a.labels b.labels
    && same_entries a.annotations b.annotations

abbrev pub has_identity : HistoryRecord → Bool
has_identity r = not (str_eq r.id "") && not (str_eq r.id "<nil>")

-- The key of a row is its alert's name with its alert key; the source joins them by a zero byte.
abbrev pub of_alert : String → String → HistoryRecord → Bool
of_alert name key r = str_eq r.alert_name name && str_eq (label r.labels "alert_key") key

-- Was the row read before, on a page that overlaps?
abbrev pub is_overlap : HistoryRecord → List HistoryRecord → Bool
is_overlap r kept = any (λ x. has_identity r && deep_equal x r) kept

abbrev pub take_row : String → String → HistoryRecord → List HistoryRecord → List HistoryRecord
take_row name key r kept =
    if of_alert name key r && not (is_overlap r kept) then kept ++ r ∷ [] else kept

-- The rows of one key, each once.
unfoldable pub indexed :
    String → String → List HistoryRecord → List HistoryRecord → List HistoryRecord
unfolding deep_equal
indexed name key kept [] = kept
indexed name key kept (r ∷ rows) = indexed name key (take_row name key r kept) rows

abbrev pub begins_with : List ℕ → List ℕ → Bool
begins_with [] s = true
begins_with (p ∷ ps) [] = false
begins_with (p ∷ ps) (c ∷ s) = (p == c) && begins_with ps s

abbrev pub holds_codes : List ℕ → List ℕ → Bool
holds_codes t [] = begins_with t []
holds_codes t (c ∷ s) = begins_with t (c ∷ s) || holds_codes t s

-- `strings.Contains`.
abbrev pub contains_text : String → String → Bool
contains_text s t = holds_codes (codes t) (codes s)

abbrev pub is_clear : HistoryRecord → Bool
is_clear r = str_eq (label r.labels "is_resolution") "true"

abbrev pub is_problem : HistoryRecord → Bool
is_problem r = not (is_clear r)

abbrev pub severity_is : String → Option String → Bool
severity_is s none = false
severity_is s (some t) = str_eq t s

abbrev pub owns : String → HistoryRecord → Bool
owns token r =
    any (λ (e : String × String). contains_text e.1 token) r.labels
    || any (λ (e : String × String). contains_text e.1 token) r.annotations

-- `unstable` where all rows have the first one's identity, `duplicate` otherwise.
abbrev pub many_state : HistoryRecord → List HistoryRecord → String
many_state first more =
    if has_identity first && all (λ r. str_eq r.id first.id) more then "unstable" else "duplicate"

abbrev pub blank : ℕ → Observation
blank n = record {
  problem_firing = false;
  episode = n;
  state = "missing";
  history_id = "";
  fingerprint = "";
  clear_history_id = "";
  clear_fingerprint = "";
}

abbrev pub is_settled : String → Bool
is_settled s = str_eq s "resolved" || str_eq s "firing"

module _ (equal_fold : String → String → Bool) where
  abbrev pub is_episode_row : Episode → HistoryRecord → Bool
  is_episode_row e r =
      owns e.token r
      && has_identity r
      && not (str_eq r.fingerprint "")
      && str_eq (label r.labels "agent") e.agent
      && equal_fold (label r.labels "alert_group") e.alert_group
      && severity_is e.severity r.original_severity

  abbrev pub single_state : Episode → HistoryRecord → String
  single_state e r =
      if is_episode_row e r && (str_eq r.status "resolved" || str_eq r.status "firing")
      then r.status
      else "mismatch"

  -- Does the clear row belong to the problem row?
  abbrev pub clears_problem : Episode → HistoryRecord → HistoryRecord → Bool
  clears_problem e problem clear =
      let key = label problem.labels "correlation_key" in
      has_identity clear
      && not (str_eq clear.id problem.id)
      && not (str_eq clear.fingerprint "")
      && not (str_eq clear.fingerprint problem.fingerprint)
      && severity_is "info" clear.original_severity
      && str_eq clear.status "resolved"
      && str_eq (label clear.labels "agent") e.agent
      && equal_fold (label clear.labels "alert_group") e.alert_group
      && not (str_eq key "")
      && str_eq (label clear.labels "correlation_key") key
      && str_eq (label clear.labels "correlation_value") key
      && str_eq (label clear.labels "correlation_status") "success"
      && str_eq (label clear.labels "correlation_resolved_count") "1"

  -- What the problem rows show.
  abbrev pub of_matches : Episode → List HistoryRecord → Observation → Observation
  of_matches e [] o = o
  of_matches e (r ∷ []) o = record o {
    history_id = r.id;
    fingerprint = r.fingerprint;
    state = single_state e r;
  }
  of_matches e (r ∷ s ∷ more) o = record o { state = many_state r (s ∷ more) }

  abbrev pub one_clear : Episode → List HistoryRecord → HistoryRecord → Observation → Observation
  one_clear e (problem ∷ []) clear o =
      if is_settled o.state
      then record o {
        clear_history_id = clear.id;
        clear_fingerprint = clear.fingerprint;
        state = if clears_problem e problem clear then o.state else "mismatch";
      }
      else o
  one_clear e matches clear o = o

  -- What the clear rows add.
  abbrev pub of_clears :
      Episode → List HistoryRecord → List HistoryRecord → Observation → Observation
  of_clears e matches [] o =
      if str_eq o.state "resolved" then record o { state = "clear-missing" } else o
  of_clears e matches (clear ∷ []) o = one_clear e matches clear o
  of_clears e matches (c ∷ d ∷ more) o =
      if str_eq (many_state c (d ∷ more)) "duplicate"
        || (not (str_eq o.state "duplicate") && not (str_eq o.state "mismatch"))
      then record o { state = many_state c (d ∷ more) }
      else o

  abbrev pub observe_rows : ℕ → Episode → List HistoryRecord → Observation
  observe_rows n e rows = of_clears e (keep is_problem rows) (keep is_clear rows) (
      of_matches e (keep is_problem rows) (record (blank n) {
        problem_firing = any (λ r. is_problem r && str_eq r.status "firing") rows;
      }))

  unfoldable pub reconcile_from : ℕ → List Episode → List HistoryRecord → List Observation
  unfolding indexed
  reconcile_from n [] rows = []
  reconcile_from n (e ∷ es) rows =
      observe_rows n e (indexed e.alert_name e.alert_key [] rows) ∷ reconcile_from (suc n) es rows

  unfoldable pub reconcile : List Episode → List HistoryRecord → List Observation
  unfolding reconcile_from
  reconcile es rows = reconcile_from 0 es rows

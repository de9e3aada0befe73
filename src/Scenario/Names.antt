-- ===== src/Scenario/Names.antt =====
-- internal/scenario/decode.go, contract.go: names, labels and their limits.
use Prim.Native.String.{len}
use oscar_corrtest.Base.{
  ℕ, String, Bool, true, false, ◌&&◌, ◌||◌, not, List, [], ◌∷◌, ltb, leb, ◌==◌, str_eq, any, all,
  codes,
}
use oscar_corrtest.Base.Assoc.{contains}
use oscar_corrtest.Scenario.{Labels}

abbrev pub max_name : ℕ
max_name = 100

abbrev pub max_case_name : ℕ
max_case_name = 120

abbrev pub max_label_value : ℕ
max_label_value = 500

abbrev pub supported_patterns : List String
supported_patterns =
    "flood" ∷ "co_occurrence" ∷ "sequence" ∷ "persistence" ∷ "absence" ∷ "parent_child"
    ∷ "cross_source" ∷ "threshold" ∷ []

unfoldable pub is_supported_pattern : String → Bool
is_supported_pattern pattern = any (λ s. str_eq pattern s) supported_patterns

abbrev pub reserved_labels : List String
reserved_labels =
    "alertname" ∷ "am_fingerprint" ∷ "category" ∷ "oscar_fingerprint" ∷ "oscar_test"
    ∷ "oscar_test_alert_class" ∷ "oscar_test_alert_role" ∷ "oscar_test_case"
    ∷ "oscar_test_case_code" ∷ "oscar_test_event_id" ∷ "oscar_test_event_index"
    ∷ "oscar_test_harness" ∷ "oscar_test_pattern" ∷ "oscar_test_polarity" ∷ "oscar_test_rule_name"
    ∷ "oscar_test_run_id" ∷ "oscar_test_run_short" ∷ "oscar_test_scenario"
    ∷ "oscar_test_schema_version" ∷ "oscar_test_suite" ∷ "severity" ∷ []

unfoldable pub is_reserved_label : String → Bool
is_reserved_label name = contains name reserved_labels

-- `unicode.IsSpace`
is_space : ℕ → Bool
is_space c =
    (leb 9 c && leb c 13)
    || c == 32
    || c == 0x85
    || c == 0xa0
    || c == 0x1680
    || (leb 0x2000 c && leb c 0x200a)
    || c == 0x2028
    || c == 0x2029
    || c == 0x202f
    || c == 0x205f
    || c == 0x3000

ends_open : List ℕ → Bool
ends_open [] = true
ends_open (c ∷ []) = not (is_space c)
ends_open (c ∷ more) = ends_open more

starts_open : List ℕ → Bool
starts_open [] = true
starts_open (c ∷ more) = not (is_space c)

-- `strings.TrimSpace(s) == s`
unfoldable pub is_trimmed : String → Bool
unfolding is_space ends_open starts_open
is_trimmed s = starts_open (codes s) && ends_open (codes s)

-- `strings.TrimSpace(s) == ""`
unfoldable pub is_blank : String → Bool
unfolding is_space
is_blank s = all is_space (codes s)

abbrev letter : ℕ → Bool
letter c = (leb b'A' c && leb c b'Z') || (leb b'a' c && leb c b'z') || c == b'_'

name_codes : List ℕ → Bool
name_codes [] = false
name_codes (c ∷ more) = letter c && all (λ d. letter d || (leb b'0' d && leb d b'9')) more

-- `labelName`: ^[A-Za-z_][A-Za-z0-9_]*$
unfoldable pub is_label_name : String → Bool
unfolding name_codes
is_label_name s = name_codes (codes s)

-- `strings.ContainsAny(value, "\r\n\x00")`
unfoldable pub has_control : String → Bool
has_control value = any (λ c. c == 13 || c == 10 || c == 0) (codes value)

-- `len(s) > limit`, in bytes.
abbrev pub too_long : ℕ → String → Bool
too_long limit s = ltb limit (len s)

-- A name that is present, trimmed and bounded.
unfoldable pub bad_name : ℕ → String → Bool
bad_name limit s = not (is_trimmed s) || str_eq s "" || too_long limit s

-- `validateNames` with the names that were seen.
unfoldable pub names_ok : ℕ → List String → List String → Bool
unfolding bad_name
names_ok limit seen [] = true
names_ok limit seen (v ∷ vs) =
    not (bad_name limit v || contains v seen) && names_ok limit (v ∷ seen) vs

-- `validateLabels`
unfoldable pub labels_ok : Labels → Bool
labels_ok labels =
    all
      (λ l. not (
        is_reserved_label l.0
        || not (is_label_name l.0)
        || too_long max_name l.0
        || too_long max_label_value l.1
        || has_control l.1))
      labels

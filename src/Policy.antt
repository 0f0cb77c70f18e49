-- ===== src/Policy.antt =====
-- policies.py: rules and policies, what they are equal by, and the tests that need no other service.
pub mod Loading
pub mod Services
pub mod Remote
pub mod Matching
pub mod Checking
pub mod Verified
pub mod Reported
pub mod Versions
use greenwave.Prelude.{
  ℕ, String, Bool, true, false, not, ◌&&◌, ◌||◌, List, [], ◌∷◌, Option, none, some, ◌==◌, string_eq,
  elem, any, is_empty, given, ◌<>◌, if◌then◌else◌,
}
use greenwave.Outcome.{Result, ok, raise, safe_yaml, ◌>>=◌}
use greenwave.Json.{Json, str, bool, arr, obj, Object, of_entries, str_array, opt_str, json_eq}
use greenwave.Fnmatch.{fnmatch}
use greenwave.Subject.{Subject, type_matches}

pub data Rule : Type 0 where
  -- sources, required
  remote_rule : List String → Bool → Rule
  -- test_case_name, scenario, valid_since, valid_until
  passing_test_case_rule : String → Option String → Option ℕ → Option ℕ → Rule

unfoldable pub rule_to_json : Rule → Object
rule_to_json (remote_rule sources required) = of_entries (
    ("rule", str "RemoteRule")
    ∷ ("required", bool required)
    ∷ ("sources", arr (str_array sources))
    ∷ [])
rule_to_json (passing_test_case_rule name scenario since until) = of_entries (
    ("rule", str "PassingTestCaseRule")
    ∷ ("test_case_name", str name)
    ∷ ("scenario", opt_str scenario)
    ∷ [])

-- `Rule.__eq__`
unfoldable pub rule_eq : Rule → Rule → Bool
unfolding rule_to_json json_eq
rule_eq r s = json_eq (obj (rule_to_json r)) (obj (rule_to_json s))

-- `Policy` and its subclasses.
pub data PolicyClass : Type 0 where
  local on_demand remote : PolicyClass

pub record Policy : Type 0 where
  pub policy_class : PolicyClass
  pub id : Option String
  pub product_versions : List String
  pub decision_context : Option String
  pub decision_contexts : List String
  pub subject_type : String
  pub rules : List Rule
  pub excluded_packages : List String
  pub packages : List String
  pub relevance_key : Option String
  pub relevance_value : Option String
  pub source : Option String

unfoldable pub all_decision_contexts : Policy → Result (List String)
all_decision_contexts p =
    if not (is_empty p.decision_contexts) then ok p.decision_contexts else elim p.decision_context [
      | none ↦ raise (safe_yaml "No decision contexts provided")
      | some c ↦
          if given (some c) then ok (c ∷ []) else raise (safe_yaml "No decision contexts provided")
    ]

-- `Policy.validate`
abbrev pub validate_contexts : Policy → Result (Unit {0})
validate_contexts p =
    if not (given p.decision_context) && is_empty p.decision_contexts
    then raise (safe_yaml "No decision contexts provided")
    else if given p.decision_context && not (is_empty p.decision_contexts)
    then raise (safe_yaml "Both properties \"decision_contexts\" and \"decision_context\" were set")
    else ok tt

abbrev pub is_remote : Rule → Bool
is_remote (remote_rule sources required) = true
is_remote _ = false

-- `validate` by class; only `RemotePolicy` adds a test of its own.
unfoldable pub validate : Policy → Result (Unit {0})
validate p = elim p.policy_class [
  | remote ↦
      if any is_remote p.rules
      then raise (safe_yaml "RemoteRule is not allowed in remote policies")
      else validate_contexts p
  | _ ↦ validate_contexts p
]

unfoldable pub matches_product_version : Policy → String → Bool
matches_product_version p product_version = any (fnmatch product_version) p.product_versions

-- `matches_subject_type` by class
unfoldable pub matches_subject_type : Policy → Option Subject → Bool
matches_subject_type p none = true
matches_subject_type p (some s) = elim p.policy_class [
  | on_demand ↦ true
  | _ ↦ type_matches s.subject_type p.subject_type
]

-- `matches_sub_policy` by class: a common decision context, or for an on-demand policy a product
-- version that the other accepts.
unfoldable pub matches_sub_policy : Policy → Policy → Result Bool
matches_sub_policy p sub = elim p.policy_class [
  | on_demand ↦ ok (any (matches_product_version sub) p.product_versions)
  | _ ↦ do
    theirs ← all_decision_contexts sub
    ours ← all_decision_contexts p
    ok (any (λ c. elem c ours) theirs)
]

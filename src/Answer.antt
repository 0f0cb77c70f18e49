-- ===== src/Answer.antt =====
-- policies.py: the answers of rules. The class hierarchy is two data types, for the subclasses of
-- `RuleNotSatisfied` and of `RuleSatisfied`, and their union.
pub mod Waived
use greenwave.Prelude.{
  ℕ, String, Bool, true, false, List, [], ◌∷◌, Option, none, some, Dict, get, string_eq,
  if◌then◌else◌, ◌<>◌,
}
use greenwave.Json.{
  Json, null, num, str, arr, obj, Object, lookup, assign, delete, has_key, of_entries, str_array,
  opt_str,
}
use greenwave.Subject.{Subject, to_dict}

-- `{key: (result["data"].get(key) or [None])[0] for key in additional_keys}`
abbrev pub ResultData : Type 0
ResultData = Dict String (Option String)

pub data RuleNotSatisfied : Type 0 where
  -- subject, test_case_name, scenario, source
  test_result_missing : Subject → String → Option String → Option String → RuleNotSatisfied
  -- subject, test_case_name, source, result_id, data
  test_result_incomplete : Subject → String → Option String → ℕ → ResultData → RuleNotSatisfied
  test_result_failed : Subject → String → Option String → ℕ → ResultData → RuleNotSatisfied
  -- the same, and error_reason
  test_result_errored :
      Subject → String → Option String → ℕ → ResultData → Option String → RuleNotSatisfied
  -- subject, test_case_name, details, source
  invalid_remote_rule_yaml : Subject → String → String → String → RuleNotSatisfied
  -- subject, sources
  missing_remote_rule_yaml : Subject → List String → RuleNotSatisfied
  -- subject, sources, error
  failed_fetch_remote_rule_yaml : Subject → List String → String → RuleNotSatisfied

pub data RuleSatisfied : Type 0 where
  -- subject, source
  fetched_remote_rule_yaml : Subject → String → RuleSatisfied
  -- subject, test_case_name, source, result_id, data
  test_result_passed : Subject → String → Option String → ℕ → ResultData → RuleSatisfied
  -- subject_identifier, and the id and the source of the policy
  excluded_in_policy : String → Option String → Option String → RuleSatisfied
  -- unsatisfied_rule, waiver_id
  test_result_waived : RuleNotSatisfied → ℕ → RuleSatisfied

pub data Answer : Type 0 where
  satisfied : RuleSatisfied → Answer
  unsatisfied : RuleNotSatisfied → Answer

unfoldable pub is_satisfied : Answer → Bool
is_satisfied (satisfied a) = true
is_satisfied (unsatisfied a) = false

unfoldable pub subject : RuleNotSatisfied → Subject
subject (test_result_missing s t sc src) = s
subject (test_result_incomplete s t src id d) = s
subject (test_result_failed s t src id d) = s
subject (test_result_errored s t src id d e) = s
subject (invalid_remote_rule_yaml s t de src) = s
subject (missing_remote_rule_yaml s srcs) = s
subject (failed_fetch_remote_rule_yaml s srcs e) = s

unfoldable pub test_case_name : RuleNotSatisfied → String
test_case_name (test_result_missing s t sc src) = t
test_case_name (test_result_incomplete s t src id d) = t
test_case_name (test_result_failed s t src id d) = t
test_case_name (test_result_errored s t src id d e) = t
test_case_name (invalid_remote_rule_yaml s t de src) = t
test_case_name (missing_remote_rule_yaml s srcs) = "missing-gating-yaml"
test_case_name (failed_fetch_remote_rule_yaml s srcs e) = "failed-fetch-gating-yaml"

-- `self.data.get("scenario")`
data_scenario : ResultData → Option String
data_scenario d = elim (get "scenario" d) [ none ↦ none | some s ↦ s ]

unfoldable pub scenario : RuleNotSatisfied → Option String
unfolding data_scenario
scenario (test_result_missing s t sc src) = sc
scenario (test_result_incomplete s t src id d) = data_scenario d
scenario (test_result_failed s t src id d) = data_scenario d
scenario (test_result_errored s t src id d e) = data_scenario d
scenario (invalid_remote_rule_yaml s t de src) = none
scenario (missing_remote_rule_yaml s srcs) = none
scenario (failed_fetch_remote_rule_yaml s srcs e) = none

-- The class attribute, false for what is about a remote rule file.
unfoldable pub is_test_result : RuleNotSatisfied → Bool
is_test_result (test_result_missing s t sc src) = true
is_test_result (test_result_incomplete s t src id d) = true
is_test_result (test_result_failed s t src id d) = true
is_test_result (test_result_errored s t src id d e) = true
is_test_result (invalid_remote_rule_yaml s t de src) = false
is_test_result (missing_remote_rule_yaml s srcs) = false
is_test_result (failed_fetch_remote_rule_yaml s srcs e) = false

-- None drops the answer.
unfoldable pub to_waived : RuleNotSatisfied → ℕ → Option RuleSatisfied
unfolding is_test_result
to_waived a waiver_id = if is_test_result a then some (test_result_waived a waiver_id) else none

-- The entries that every answer about a subject begins with.
abbrev head_entries : String → String → Subject → List (String × Json) → Object
head_entries type testcase s rest = of_entries (
    ("type", str type)
    ∷ ("testcase", str testcase)
    ∷ ("subject_type", str s.subject_type.id)
    ∷ ("subject_identifier", str s.item)
    ∷ rest)

-- `data.update(self.data)`
abbrev update_data : Object → ResultData → Object
update_data o [] = o
update_data o ((k, v) ∷ d) = update_data (assign k (opt_str v) o) d

not_satisfied_to_json : RuleNotSatisfied → Object
unfolding to_dict
not_satisfied_to_json (test_result_missing s t sc src) =
    head_entries "test-result-missing" t s
      (("scenario", opt_str sc) ∷ ("source", opt_str src) ∷ ("item", obj (to_dict s)) ∷ [])
not_satisfied_to_json (test_result_incomplete s t src id d) =
    update_data
      (head_entries "test-result-missing" t s
        (("source", opt_str src) ∷ ("result_id", num id) ∷ ("item", obj (to_dict s)) ∷ []))
      d
not_satisfied_to_json (test_result_failed s t src id d) =
    update_data
      (head_entries "test-result-failed" t s
        (("source", opt_str src) ∷ ("result_id", num id) ∷ ("item", obj (to_dict s)) ∷ []))
      d
not_satisfied_to_json (test_result_errored s t src id d e) =
    update_data
      (head_entries "test-result-errored" t s (
        ("source", opt_str src)
        ∷ ("result_id", num id)
        ∷ ("error_reason", opt_str e)
        ∷ ("item", obj (to_dict s))
        ∷ []))
      d
not_satisfied_to_json (invalid_remote_rule_yaml s t de src) =
    head_entries "invalid-gating-yaml" t s
      (("scenario", null) ∷ ("source", str src) ∷ ("details", str de) ∷ [])
not_satisfied_to_json (missing_remote_rule_yaml s srcs) =
    head_entries "missing-gating-yaml" "missing-gating-yaml" s
      (("scenario", null) ∷ ("sources", arr (str_array srcs)) ∷ [])
not_satisfied_to_json (failed_fetch_remote_rule_yaml s srcs e) =
    head_entries "failed-fetch-gating-yaml" "failed-fetch-gating-yaml" s
      (("scenario", null) ∷ ("sources", arr (str_array srcs)) ∷ ("error", str e) ∷ [])

-- `satisfied_rule["type"] += "-waived"`
abbrev mark_waived : Option Json → Object → Object
mark_waived (some (str type)) o = assign "type" (str (type <> "-waived")) o
mark_waived _ o = o

waived_to_json : Object → ℕ → Object
waived_to_json o waiver_id =
    let waived = assign "waiver_id" (num waiver_id) (mark_waived (lookup "type" o) o) in
    if has_key "item" waived then delete "item" waived else waived

satisfied_to_json : RuleSatisfied → Object
unfolding not_satisfied_to_json waived_to_json
satisfied_to_json (fetched_remote_rule_yaml s src) =
    head_entries "fetched-gating-yaml" "fetched-gating-yaml" s (("source", str src) ∷ [])
satisfied_to_json (test_result_passed s t src id d) =
    update_data
      (head_entries "test-result-passed" t s (("source", opt_str src) ∷ ("result_id", num id) ∷ []))
      d
satisfied_to_json (excluded_in_policy identifier policy source) = of_entries (
    ("type", str "excluded")
    ∷ ("subject_identifier", str identifier)
    ∷ ("policy", opt_str policy)
    ∷ ("source", opt_str source)
    ∷ [])
satisfied_to_json (test_result_waived a waiver_id) =
    waived_to_json (not_satisfied_to_json a) waiver_id

unfoldable pub to_json : Answer → Object
unfolding satisfied_to_json not_satisfied_to_json
to_json (satisfied a) = satisfied_to_json a
to_json (unsatisfied a) = not_satisfied_to_json a

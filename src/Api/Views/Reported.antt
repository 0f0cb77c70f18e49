-- ===== src/Api/Views/Reported.antt =====
-- What a report of policies tells of them.
use greenwave.Prelude.{
  All, ◌↔◌, String, ◌≡◌, refl, ap, sym, ◌∙◌, Bool, false, List, [], ◌∷◌, Option, none, some, map,
}
use greenwave.Json.{
  Json, bool, str, arr, obj, Array, nil, cons, Object, empty, entry, lookup, str_array, opt_str,
}
use greenwave.Policy.{Rule, remote_rule, passing_test_case_rule, rule_to_json, local, Policy}
use greenwave.Api.Views.{
  full_policy_to_json, rules_to_json, policy_to_json, policies_to_json, policies_data,
}

-- A rule without its times of validity.
abbrev pub timeless : Rule → Rule
timeless (remote_rule sources required) = remote_rule sources required
timeless (passing_test_case_rule name scenario since until) =
    passing_test_case_rule name scenario none none

-- A policy without its source and the times of validity of its rules.
abbrev pub reported_policy : Policy → Policy
reported_policy p = record p { rules = map timeless p.rules; source = none }

-- The policies of the configuration are of the class `Policy`.
abbrev pub IsLocal : Policy → Type 0
IsLocal p = p.policy_class ≡ local

abbrev as_text : Option Json → String
as_text (some (str s)) = s
as_text v = ""

abbrev as_optional : Option Json → Option String
as_optional (some (str s)) = some s
as_optional v = none

abbrev as_flag : Option Json → Bool
as_flag (some (bool b)) = b
as_flag v = false

abbrev texts_in : Array → List String
texts_in nil = []
texts_in (cons (str s) a) = s ∷ texts_in a
texts_in (cons v a) = texts_in a

abbrev as_texts : Option Json → List String
as_texts (some (arr a)) = texts_in a
as_texts v = []

-- A rule with "sources" is a remote rule.
abbrev rule_in : Object → Rule
rule_in d = elim (lookup "sources" d) [
  | none ↦
      passing_test_case_rule (as_text (lookup "test_case_name" d))
        (as_optional (lookup "scenario" d)) none none
  | some sources ↦ remote_rule (as_texts (some sources)) (as_flag (lookup "required" d))
]

abbrev rules_in : Array → List Rule
rules_in nil = []
rules_in (cons (obj d) a) = rule_in d ∷ rules_in a
rules_in (cons v a) = rules_in a

abbrev as_rules : Option Json → List Rule
as_rules (some (arr a)) = rules_in a
as_rules v = []

abbrev policy_in : Object → Policy
policy_in d = record {
  policy_class = local;
  id = as_optional (lookup "id" d);
  product_versions = as_texts (lookup "product_versions" d);
  decision_context = as_optional (lookup "decision_context" d);
  decision_contexts = as_texts (lookup "decision_contexts" d);
  subject_type = as_text (lookup "subject_type" d);
  rules = as_rules (lookup "rules" d);
  excluded_packages = as_texts (lookup "excluded_packages" d);
  packages = as_texts (lookup "packages" d);
  relevance_key = as_optional (lookup "relevance_key" d);
  relevance_value = as_optional (lookup "relevance_value" d);
  source = none;
}

abbrev policies_in : Array → List Policy
policies_in nil = []
policies_in (cons (obj d) a) = policy_in d ∷ policies_in a
policies_in (cons v a) = policies_in a

abbrev as_policies : Option Json → List Policy
as_policies (some (arr a)) = policies_in a
as_policies v = []

texts_in-str_array : (texts : List String) → texts_in (str_array texts) ≡ texts
texts_in-str_array [] = refl
texts_in-str_array (s ∷ texts) = rw (texts_in-str_array texts) refl

as_optional-opt_str : (m : Option String) → as_optional (some (opt_str m)) ≡ m
as_optional-opt_str none = refl
as_optional-opt_str (some s) = refl

rule_in-rule_to_json : (r : Rule) → rule_in (rule_to_json r) ≡ timeless r
unfolding rule_to_json
rule_in-rule_to_json (remote_rule sources required) = rw (texts_in-str_array sources) refl
rule_in-rule_to_json (passing_test_case_rule name scenario since until) =
    rw (as_optional-opt_str scenario) refl

rules_in-rules_to_json : (rules : List Rule) → rules_in (rules_to_json rules) ≡ map timeless rules
rules_in-rules_to_json [] = refl
rules_in-rules_to_json (r ∷ rules) = rw (rule_in-rule_to_json r, rules_in-rules_to_json rules) refl

policy_to_json-IsLocal : (p : Policy) → IsLocal p → policy_to_json p ≡ full_policy_to_json p
unfolding full_policy_to_json
policy_to_json-IsLocal p is_local = rw (is_local, policy_to_json) refl

policy_in-policy_to_json :
    (p : Policy) → IsLocal p → policy_in (policy_to_json p) ≡ reported_policy p
unfolding full_policy_to_json
policy_in-policy_to_json p is_local =
    rw
      (
        policy_to_json-IsLocal p is_local,
        as_optional-opt_str p.id,
        texts_in-str_array p.product_versions,
        as_optional-opt_str p.decision_context,
        texts_in-str_array p.decision_contexts,
        rules_in-rules_to_json p.rules,
        texts_in-str_array p.excluded_packages,
        texts_in-str_array p.packages,
        as_optional-opt_str p.relevance_key,
        as_optional-opt_str p.relevance_value,
        is_local,
      )
      refl

policies_in-policies_to_json :
    (ps : List Policy) → All IsLocal ps → policies_in (policies_to_json ps) ≡ map reported_policy ps
policies_in-policies_to_json [] h = refl
policies_in-policies_to_json (p ∷ ps) h =
    rw (policy_in-policy_to_json p h.0, policies_in-policies_to_json ps h.1) refl

rule_to_json-timeless : (r : Rule) → rule_to_json (timeless r) ≡ rule_to_json r
unfolding rule_to_json
rule_to_json-timeless (remote_rule sources required) = refl
rule_to_json-timeless (passing_test_case_rule name scenario since until) = refl

rules_to_json-timeless :
    (rules : List Rule) → rules_to_json (map timeless rules) ≡ rules_to_json rules
rules_to_json-timeless [] = refl
rules_to_json-timeless (r ∷ rules) = rw (rule_to_json-timeless r, rules_to_json-timeless rules) refl

policy_to_json-reported_policy :
    (p : Policy) → IsLocal p → policy_to_json (reported_policy p) ≡ policy_to_json p
unfolding full_policy_to_json
policy_to_json-reported_policy p is_local =
    rw
      (
        policy_to_json-IsLocal p is_local,
        policy_to_json-IsLocal (reported_policy p) is_local,
        rules_to_json-timeless p.rules,
      )
      refl

policies_to_json-reported_policy :
    (ps : List Policy)
    → All IsLocal ps
    → policies_to_json (map reported_policy ps) ≡ policies_to_json ps
policies_to_json-reported_policy [] h = refl
policies_to_json-reported_policy (p ∷ ps) h =
    rw (policy_to_json-reported_policy p h.0, policies_to_json-reported_policy ps h.1) refl

-- Two lists of policies of the class `Policy`, as the configuration has them, are reported alike if and only
-- if they are the same policies, in the same order, but for their sources and the times of validity of
-- their rules.
pub policies_data_iff :
    (ps qs : List Policy)
    → All IsLocal ps
    → All IsLocal qs
    → (policies_data ps ≡ policies_data qs) ↔ (map reported_policy ps ≡ map reported_policy qs)
policies_data_iff ps qs h k = (
  λ same.
      sym (policies_in-policies_to_json ps h)
      ∙ ap (λ d. as_policies (lookup "policies" d)) same
      ∙ policies_in-policies_to_json qs k,
  λ same.
      ap (λ a. entry "policies" (arr a) empty)
        (sym (policies_to_json-reported_policy ps h)
          ∙ ap policies_to_json same
          ∙ policies_to_json-reported_policy qs k),
)

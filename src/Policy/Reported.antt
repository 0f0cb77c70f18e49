-- ===== src/Policy/Reported.antt =====
-- Rules as `to_json` reports them (`GET /policies`), in requests for on-demand policies.
use greenwave.Prelude.{
  String, ◌≡◌, refl, Bool, List, [], ◌∷◌, Option, none, some, string_eq, All, map,
}
use greenwave.Outcome.{ok, ◌>>=◌}
use greenwave.Json.{str, obj, arr, Array, nil, cons, Object, assign, str_array}
use greenwave.SafeYaml.{
  Formats, text, object, json_value, json_values, json_items, json_fields, by_type, attribute,
  about, all_texts, all_objects, as_object, bool_value,
}
use greenwave.Policy.{Rule, remote_rule, passing_test_case_rule, rule_to_json}
use greenwave.Policy.Loading.{rule_classes, make_remote_rule, make_passing_test_case_rule}

-- The name of the class of a rule.
abbrev pub class_name : Rule → String
class_name (remote_rule sources required) = "RemoteRule"
class_name (passing_test_case_rule name scenario since until) = "PassingTestCaseRule"

-- A reported rule, with its class under the key that requests have it under.
abbrev pub requested : Rule → Object
requested r = assign "type" (str (class_name r)) (rule_to_json r)

abbrev pub requested_rules : List Rule → Array
requested_rules [] = nil
requested_rules (r ∷ rules) = cons (obj (requested r)) (requested_rules rules)

-- Times of validity are not reported.
abbrev pub IsTimeless : Rule → Type 0
IsTimeless (remote_rule sources required) = Unit
IsTimeless (passing_test_case_rule name scenario since until) = (since ≡ none) × (until ≡ none)

module _ (formats : Formats) where
  json_values-str_array :
      (texts : List String)
      → json_values formats rule_classes (str_array texts) ≡ ok (map text texts)
  unfolding json_values json_value
  json_values-str_array [] = refl
  json_values-str_array (s ∷ texts) = rw (json_values-str_array texts) refl

  all_texts-map : (texts : List String) → all_texts {O = Rule} (map text texts) ≡ ok texts
  unfolding all_texts
  all_texts-map [] = refl
  all_texts-map (s ∷ texts) = rw (all_texts-map texts) refl

  -- What is read of a reported rule.
  read_remote_rule :
      (sources : List String) (required : Bool)
      → json_value formats rule_classes (obj (requested (remote_rule sources required)))
        ≡ as_object (
            about "" "sources" (json_values formats rule_classes (str_array sources) >>= all_texts)
            >>= λ texts. ok (remote_rule texts required))
  unfolding json_value json_fields by_type rule_classes make_remote_rule rule_to_json attribute
      about json_items bool_value
  read_remote_rule sources required = refl

  read_passing_test_case_rule :
      (name : String) (scenario : Option String)
      → json_value formats rule_classes
          (obj (requested (passing_test_case_rule name scenario none none)))
        ≡ ok (object (passing_test_case_rule name scenario none none))
  unfolding json_value json_fields by_type rule_classes make_passing_test_case_rule rule_to_json
      attribute about
  read_passing_test_case_rule name none = refl
  read_passing_test_case_rule name (some scenario) = refl

  json_value-requested :
      (r : Rule)
      → IsTimeless r
      → json_value formats rule_classes (obj (requested r)) ≡ ok (object r)
  unfolding about
  json_value-requested (remote_rule sources required) h =
      rw (read_remote_rule sources required, json_values-str_array sources, all_texts-map sources)
        refl
  json_value-requested (passing_test_case_rule name scenario since until) (h, k) =
      rw (h, k) (read_passing_test_case_rule name scenario)

  json_values-requested_rules :
      (rules : List Rule)
      → All IsTimeless rules
      → json_values formats rule_classes (requested_rules rules) ≡ ok (map object rules)
  unfolding json_values
  json_values-requested_rules [] h = refl
  json_values-requested_rules (r ∷ rules) h =
      rw (json_value-requested r h.0, json_values-requested_rules rules h.1) refl

  all_objects-map : (rules : List Rule) → all_objects "Rule" (map object rules) ≡ ok rules
  unfolding all_objects
  all_objects-map [] = refl
  all_objects-map (r ∷ rules) = rw (all_objects-map rules) refl

  json_items-arr :
      (a : Array) → json_items formats rule_classes (arr a) ≡ json_values formats rule_classes a
  unfolding json_items
  json_items-arr a = refl

  -- Rules without times of validity come back as they are when what `to_json` reports of them is sent as
  -- the rules of a request, with the class of each under the key "type".
  pub requested_rules_read :
      (rules : List Rule)
      → All IsTimeless rules
      → (json_items formats rule_classes (arr (requested_rules rules)) >>= all_objects "Rule")
        ≡ ok rules
  requested_rules_read rules h =
      rw (json_items-arr (requested_rules rules), json_values-requested_rules rules h)
        (all_objects-map rules)

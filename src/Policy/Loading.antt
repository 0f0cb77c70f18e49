-- ===== src/Policy/Loading.antt =====
-- Rules and policies from YAML files (`from_yaml`, `safe_load_all`, `load_policies`) and from requests
-- (`from_value`, `OnDemandPolicy.create_from_json`).
pub mod Loaded
use greenwave.Prelude.{
  ℕ, String, false, List, [], ◌∷◌, ◌++◌, Option, none, some, ◌==◌, string_eq, truthy, ◌<>◌,
  if◌then◌else◌,
}
use greenwave.Outcome.{safe_yaml, yaml, bad_request, Result, ok, raise, ◌>>=◌}
use greenwave.Json.{Json, str, arr, cons, nil, Object, update, of_entries}
use greenwave.SafeYaml.{
  Formats, Node, mapping, Loader, by_yaml, by_value, Field, Fields, Registry, entry_fields,
  json_fields, attribute, all_texts, all_objects,
}
use greenwave.Policy.{
  Rule, remote_rule, passing_test_case_rule, PolicyClass, local, on_demand, remote, Policy,
  validate,
}

-- Before a message of `from_yaml` stands the label of the object.
abbrev prefix : Loader → String → String
prefix by_yaml label = label <> ": "
prefix by_value label = ""

abbrev texts : Field Rule → Result (List String)
texts field = do values ← field.items; all_texts values

abbrev optional_text : Field Rule → Result (Option String)
optional_text field = do s ← field.string; ok (some s)

abbrev optional_time : Field Rule → Result (Option ℕ)
optional_time field = do time ← field.date_time; ok (some time)

unfoldable pub make_remote_rule : Loader → Fields Rule → Result Rule
make_remote_rule loader fields = do
  sources ← attribute before "sources" (some []) texts fields
  required ← attribute before "required" (some false) (λ field. field.boolean) fields
  ok (remote_rule sources required)
  where
    before : String
    before = prefix loader "YAML object !RemoteRule"

unfoldable pub make_passing_test_case_rule : Loader → Fields Rule → Result Rule
make_passing_test_case_rule loader fields = do
  name ← attribute before "test_case_name" none (λ field. field.string) fields
  scenario ← attribute before "scenario" (some none) optional_text fields
  since ← attribute before "valid_since" (some none) optional_time fields
  until ← attribute before "valid_until" (some none) optional_time fields
  ok (passing_test_case_rule name scenario since until)
  where
    before : String
    before = prefix loader "YAML object !PassingTestCaseRule"

-- `ObsoleteRule.__init__`
abbrev obsolete : String → Fields Rule → Result Rule
obsolete tag fields =
    raise (safe_yaml ("!" <> tag <> " is obsolete. Please use the \"packages\" allowlist instead."))

-- `safe_yaml_tag_to_class`, and the constructors of the loader: the classes with a tag.
unfoldable pub rule_classes : Registry Rule
rule_classes loader tag =
    if tag == "RemoteRule"
    then some (make_remote_rule loader)
    else if tag == "PassingTestCaseRule"
    then some (make_passing_test_case_rule loader)
    else if tag == "PackageSpecificBuild"
    then some (obsolete tag)
    else if tag == "FedoraAtomicCi"
    then some (obsolete tag)
    else none

-- `Policy.safe_yaml_label`
abbrev pub label : Option String → String
label none = "Policy 'untitled'"
label (some id) = if truthy id then "Policy '" <> id <> "'" else "Policy 'untitled'"

-- What `RemotePolicy` takes for attributes that `Policy` requires.
abbrev default_in {ℓ} : {A : Type ℓ} → PolicyClass → A → Option A
default_in remote value = some value
default_in local value = none
default_in on_demand value = none

-- `RemotePolicy` has the subject type before the contexts, so its failure comes first.
abbrev read_early {ℓ} : {A : Type ℓ} → PolicyClass → Result A → Result (Unit {0})
read_early remote first = do value ← first; ok tt
read_early _ first = ok tt

-- The loop over the attributes of a policy, after the one for the id.
unfoldable pub make_titled_policy :
    PolicyClass → Loader → Option String → Fields Rule → Result Policy
make_titled_policy policy_class loader id fields = do
  product_versions ←
      attribute before "product_versions" (default_in policy_class ("*" ∷ [])) texts fields
  early ← read_early policy_class read_subject_type
  decision_context ← attribute before "decision_context" (some none) optional_text fields
  decision_contexts ← attribute before "decision_contexts" (some []) texts fields
  subject_type ← read_subject_type
  rules ←
      attribute before "rules" none (λ field. do values ← field.items; all_objects "Rule" values)
        fields
  excluded_packages ← attribute before "excluded_packages" (some []) texts fields
  packages ← attribute before "packages" (some []) texts fields
  ok (record {
    policy_class = policy_class;
    id = id;
    product_versions = product_versions;
    decision_context = decision_context;
    decision_contexts = decision_contexts;
    subject_type = subject_type;
    rules = rules;
    excluded_packages = excluded_packages;
    packages = packages;
    relevance_key = none;
    relevance_value = none;
    source = none;
  })
  where
    before : String
    before = prefix loader (label id)

    read_subject_type : Result String
    read_subject_type =
        attribute before "subject_type" (default_in policy_class "koji_build")
          (λ field. field.string) fields

-- The attributes of `Policy` that only its report has.
unfoldable pub read_relevance :
    PolicyClass → String → Fields Rule → Result (Option String × Option String)
read_relevance remote before fields = ok (none, none)
read_relevance _ before fields = do
  key ← attribute before "relevance_key" (some none) optional_text fields
  value ← attribute before "relevance_value" (some none) optional_text fields
  ok (key, value)

unfoldable pub make_policy : PolicyClass → Loader → Fields Rule → Result Policy
make_policy policy_class loader fields = do
  id ←
      attribute (prefix loader (label none)) "id" (default_in policy_class none) optional_text
        fields
  p ← make_titled_policy policy_class loader id fields
  (key, value) ← read_relevance policy_class (prefix loader (label id)) fields
  ok (record p { relevance_key = key; relevance_value = value })

-- The end of `from_yaml`: the message of a failed validation names the policy.
unfoldable pub validated : Policy → Result Policy
validated p = elim (validate p) [
  | ok _ ↦ ok p
  | raise (safe_yaml message) ↦ raise (safe_yaml (label p.id <> ": " <> message))
  | raise e ↦ raise e
]

-- `get_node` of the loader and `from_yaml`: the root of a document is a mapping, whatever its tag.
unfoldable pub policy_from_node : Formats → PolicyClass → Node → Result Policy
policy_from_node formats policy_class (mapping tag es) = do
  p ← make_policy policy_class by_yaml (entry_fields formats rule_classes es)
  validated (record p { policy_class = policy_class })
policy_from_node formats policy_class _ =
    raise (safe_yaml "Expected mapping for !Policy tagged object")

-- The loop of `yaml.load_all`: the first document that fails decides.
unfoldable pub load_each : Formats → PolicyClass → List (Result Node) → Result (List Policy)
load_each formats policy_class [] = ok []
load_each formats policy_class (document ∷ rest) = do
  root ← document
  p ← policy_from_node formats policy_class root
  ps ← load_each formats policy_class rest
  ok (p ∷ ps)

-- `safe_load_all`
abbrev pub as_safe_yaml {ℓ} : {A : Type ℓ} → Result A → Result A
as_safe_yaml (raise (yaml message)) = raise (safe_yaml ("YAML Parser Error: " <> message))
as_safe_yaml outcome = outcome

unfoldable pub load_documents : Formats → PolicyClass → List (Result Node) → Result (List Policy)
load_documents formats policy_class documents =
    as_safe_yaml (load_each formats policy_class documents)

-- `load_policies`, of the contents of the files.
unfoldable pub load_policies : Formats → List String → Result (List Policy)
load_policies formats [] = ok []
load_policies formats (content ∷ files) = do
  ps ← load_documents formats local (formats.compose content)
  more ← load_policies formats files
  ok (ps ++ more)

-- `data2` of `create_from_json`; only requests with a product version get there.
unfoldable pub on_demand_data : Json → Object → Object
on_demand_data product_version request =
    update
      (of_entries (
        ("id", str "on-demand-policy")
        ∷ ("product_versions", arr (cons product_version nil))
        ∷ ("decision_context", str "on-demand-policy")
        ∷ ("subject_type", str "unused")
        ∷ []))
      request

abbrev as_bad_request {ℓ} : {A : Type ℓ} → Result A → Result A
as_bad_request (raise (safe_yaml message)) =
    raise (bad_request ("Failed to parse on demand policy: " <> message))
as_bad_request outcome = outcome

-- `OnDemandPolicy.create_from_json`
unfoldable pub create_from_json : Formats → Json → Object → Result Policy
create_from_json formats product_version request = as_bad_request (
    make_policy on_demand by_value
      (json_fields formats rule_classes (on_demand_data product_version request)))

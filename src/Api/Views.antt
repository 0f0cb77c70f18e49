-- ===== src/Api/Views.antt =====
-- The views that report what is configured (api_v1.py: `landing_page`, `about`, `get_policies`), with the
-- headers and the JSONP of utils.py, and the handlers of app_factory.py. `SafeYAMLObject.to_json` is that of
-- policies. The text of JSON data is a parameter.
pub mod Reported
use greenwave.Prelude.{
  ℕ, String, Bool, true, false, List, [], ◌∷◌, Option, none, some, ◌<>◌, truthy, if◌then◌else◌,
}
use greenwave.Outcome.{Result, ok, raise, ◌>>=◌}
use greenwave.Json.{
  Json, str, arr, obj, Array, nil, cons, Object, of_entries, lookup, assign, update, str_array,
  opt_str, truthy_json,
}
use greenwave.Announcement.{at}
use greenwave.Policy.{local, on_demand, remote, Rule, rule_to_json, Policy}

abbrev pub rules_to_json : List Rule → Array
rules_to_json [] = nil
rules_to_json (r ∷ rules) = cons (obj (rule_to_json r)) (rules_to_json rules)

-- `to_json` of a `Policy`, and of an `OnDemandPolicy`, which has the same attributes.
unfoldable pub full_policy_to_json : Policy → Object
full_policy_to_json p = of_entries (
    ("id", opt_str p.id)
    ∷ ("product_versions", arr (str_array p.product_versions))
    ∷ ("decision_context", opt_str p.decision_context)
    ∷ ("decision_contexts", arr (str_array p.decision_contexts))
    ∷ ("subject_type", str p.subject_type)
    ∷ ("rules", arr (rules_to_json p.rules))
    ∷ ("excluded_packages", arr (str_array p.excluded_packages))
    ∷ ("packages", arr (str_array p.packages))
    ∷ ("relevance_key", opt_str p.relevance_key)
    ∷ ("relevance_value", opt_str p.relevance_value)
    ∷ [])

-- `to_json` of a `RemotePolicy`
unfoldable pub remote_policy_to_json : Policy → Object
remote_policy_to_json p = of_entries (
    ("id", opt_str p.id)
    ∷ ("product_versions", arr (str_array p.product_versions))
    ∷ ("subject_type", str p.subject_type)
    ∷ ("decision_context", opt_str p.decision_context)
    ∷ ("decision_contexts", arr (str_array p.decision_contexts))
    ∷ ("rules", arr (rules_to_json p.rules))
    ∷ ("excluded_packages", arr (str_array p.excluded_packages))
    ∷ ("packages", arr (str_array p.packages))
    ∷ [])

-- `to_json` of a policy: the attributes of its class.
abbrev pub policy_to_json : Policy → Object
policy_to_json p = elim p.policy_class [
  | remote ↦ remote_policy_to_json p
  | local ↦ full_policy_to_json p
  | on_demand ↦ full_policy_to_json p
]

abbrev pub policies_to_json : List Policy → Array
policies_to_json [] = nil
policies_to_json (p ∷ ps) = cons (obj (policy_to_json p)) (policies_to_json ps)

-- The data of `GET /policies`.
abbrev pub policies_data : List Policy → Object
policies_data ps = of_entries (("policies", arr (policies_to_json ps)) ∷ [])

-- The settings that the landing page shows.
unfoldable pub landing_page : Object → Result Object
landing_page config = do
  documentation ← at "DOCUMENTATION_URL" (obj config)
  api_v1 ← at "GREENWAVE_API_URL" (obj config)
  resultsdb_api ← at "RESULTSDB_API_URL" (obj config)
  waiverdb_api ← at "WAIVERDB_API_URL" (obj config)
  koji_api ← at "KOJI_BASE_URL" (obj config)
  outcomes_passed ← at "OUTCOMES_PASSED" (obj config)
  outcomes_error ← at "OUTCOMES_ERROR" (obj config)
  outcomes_incomplete ← at "OUTCOMES_INCOMPLETE" (obj config)
  remote_rule_policies ← at "REMOTE_RULE_POLICIES" (obj config)
  ok (
      of_entries (
        ("documentation", documentation)
        ∷ ("api_v1", api_v1)
        ∷ ("resultsdb_api", resultsdb_api)
        ∷ ("waiverdb_api", waiverdb_api)
        ∷ ("koji_api", koji_api)
        ∷ ("outcomes_passed", outcomes_passed)
        ∷ ("outcomes_error", outcomes_error)
        ∷ ("outcomes_incomplete", outcomes_incomplete)
        ∷ ("remote_rule_policies", remote_rule_policies)
        ∷ []))

pub record WebResponse : Type 0 where
  pub status_code : ℕ
  pub text : String
  pub mimetype : String
  pub headers : Object

-- `insert_headers`, of the value of "CORS_URL"
unfoldable pub insert_headers : Option Json → WebResponse → WebResponse
insert_headers none reply = reply
insert_headers (some url) reply =
    if truthy_json url
    then record reply {
      headers = assign "Access-Control-Allow-Method" (str "POST, OPTIONS") (
          assign "Access-Control-Allow-Headers" (str "Content-Type")
            (assign "Access-Control-Allow-Origin" url reply.headers));
    }
    else reply

-- `jsonp`, of the argument "callback" of the request
unfoldable pub jsonp : Option String → WebResponse → WebResponse
jsonp none reply = reply
jsonp (some callback) reply =
    if truthy callback
    then record reply {
      text = callback <> "(" <> reply.text <> ");";
      mimetype = "application/javascript";
    }
    else reply

-- `add_headers`, of the setting "RESPONSE_HEADERS"
unfoldable pub add_headers : Object → WebResponse → WebResponse
add_headers headers reply = record reply { headers = update reply.headers headers }

module _ (dumps : Object → String) where
  -- `jsonify`, with status 200
  abbrev pub jsonify : Object → WebResponse
  jsonify contents = record {
    status_code = 200;
    text = dumps contents;
    mimetype = "application/json";
    headers = of_entries [];
  }

  unfoldable pub get_policies : Object → List Policy → Option String → WebResponse
  get_policies config ps callback =
      jsonp callback (insert_headers (lookup "CORS_URL" config) (jsonify (policies_data ps)))

  unfoldable pub about : Object → String → Option String → WebResponse
  about config version callback = jsonp callback (
      insert_headers (lookup "CORS_URL" config)
        (jsonify (of_entries (("version", str version) ∷ []))))

unfoldable pub healthcheck : WebResponse
healthcheck = record {
  status_code = 200;
  text = "Health check OK";
  mimetype = "text/plain";
  headers = of_entries [];
}

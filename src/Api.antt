-- ===== src/Api.antt =====
-- api_v1.py: the requests for a decision and for the validation of a gating.yaml file, with the error
-- responses of utils.py. A response is its status code and its body.
pub mod Validated
pub mod Views
use greenwave.Prelude.{
  ℕ, String, Bool, true, false, not, List, [], ◌∷◌, ◌++◌, ◌==◌, string_eq, string_order, elem,
  select, is_empty, join, sort, unique, ◌<>◌, if◌then◌else◌,
}
use greenwave.Outcome.{
  Error, bad_request, not_found, bad_gateway, unsupported_media_type, koji_scm_url_parse, safe_yaml,
  connection, timeout, Result, ok, raise, ◌>>=◌,
}
use greenwave.Json.{Object}
use greenwave.Policy.{Policy, all_decision_contexts}
use greenwave.Policy.Services.{Services}
use greenwave.Policy.Remote.{safe_load_all}
use greenwave.Decision.Request.{Application, DecisionResponse, make_decision}

-- `json_error`: the status code and the message. The first five are HTTPExceptions.
unfoldable pub json_error : Error → ℕ × String
json_error (bad_request message) = (400, message)
json_error (not_found message) = (404, message)
json_error (unsupported_media_type message) = (415, message)
json_error (bad_gateway message) = (502, message)
json_error (koji_scm_url_parse message) = (502, message)
json_error (connection message) = (502, "Error connecting to upstream server: " <> message)
json_error (timeout message) = (504, "Timeout connecting to upstream server: " <> message)
json_error e = (500, "Server encountered unexpected error")

-- A body, or the message of an error.
pub data Body {ℓ} (A : Type ℓ) : Type ℓ where
  content : A → Body A
  message : String → Body A

-- What a view and the error handlers answer.
abbrev pub answer {ℓ} : {A : Type ℓ} → Result A → ℕ × Body A
answer (ok a) = (200, content a)
answer (raise e) = ((json_error e).0, message (json_error e).1)

-- `POST /decision`
unfoldable pub post_decision : Application → Object → ℕ × Body DecisionResponse
post_decision app request = answer (make_decision app request)

-- The contexts of all the policies, in order.
unfoldable pub contexts_in : List Policy → Result (List String)
contexts_in [] = ok []
contexts_in (p ∷ ps) = do
  contexts ← all_decision_contexts p
  rest ← contexts_in ps
  ok (contexts ++ rest)

-- `_missing_decision_contexts_in_parent_policies`, sorted as its caller sorts it.
unfoldable pub missing_decision_contexts : List Policy → List Policy → Result (List String)
missing_decision_contexts parents policies = do
  known ← contexts_in parents
  used ← contexts_in policies
  ok (sort (unique (select (λ c. not (elem c known)) used)))

abbrev pub verdict : List String → String
verdict [] = "All OK"
verdict (c ∷ cs) =
    "Greenwave could not find a parent policy(ies) for following decision context(s): "
    <> join ", " (c ∷ cs)
    <> ". Please change your policy so that it will match a decision context in the parent policies."

-- `except SafeYAMLError`
abbrev pub as_bad_request {ℓ} : {A : Type ℓ} → Result A → Result A
as_bad_request (raise (safe_yaml text)) = raise (bad_request text)
as_bad_request outcome = outcome

-- What follows the loading of the file: the message of the response.
abbrev pub check_contexts : List Policy → List Policy → Result String
check_contexts parents [] = raise (bad_request "No policies defined")
check_contexts parents (p ∷ ps) = do
  missing ← missing_decision_contexts parents (p ∷ ps)
  ok (verdict missing)

-- `validate_gating_yaml_post`, for the policies of the configuration
unfoldable pub validate_gating_yaml_post : Services → List Policy → String → Result String
validate_gating_yaml_post services parents text = do
  policies ← as_bad_request (safe_load_all services text)
  check_contexts parents policies

-- ===== src/Decision/Request.antt =====
-- `make_decision` of decision.py: from the data of a request to the response. Texts of the request
-- are JSON texts: where the source would go on with another value as an item, a context or a product
-- version, the model raises `unexpected`.
pub mod Valid
pub mod Answered
pub mod Each
use greenwave.Prelude.{
  ℕ, String, Bool, true, false, not, ◌&&◌, ◌||◌, List, [], ◌∷◌, map, Option, none, some, Dict, put,
  ◌==◌, nat_eq, string_eq, is_empty, is_some, truthy, if◌then◌else◌,
}
use greenwave.Outcome.{Result, ok, raise, ◌>>=◌, bad_request, unsupported_media_type, unexpected}
use greenwave.Json.{
  Json, null, bool, num, str, arr, obj, Array, nil, cons, Object, empty, entry, lookup, assign,
  truthy_json, has_key,
}
use greenwave.SafeYaml.{Formats}
use greenwave.Subject.{SubjectType, Subject}
use greenwave.Subject.Requested.{decision_subjects}
use greenwave.Subject.Factory.{create_subject, create_subject_from_data}
use greenwave.Waiver.{Waiver}
use greenwave.Policy.{Policy}
use greenwave.Policy.Services.{TestResult, Services}
use greenwave.Policy.Loading.{create_from_json}
use greenwave.Decision.{
  Decision, new_decision, check, waive, policies_satisfied, summary, satisfied_requirements,
  unsatisfied_requirements,
}

-- What a request is decided with. `services` are those of the retrievers that leave out these results
-- and waivers, and those after the time, if any. `is_time` is `strptime` with the format of a request.
pub record Application : Type 0 where
  pub subject_types : List SubjectType
  pub policies : List Policy
  pub formats : Formats
  pub is_time : String → Bool
  pub services : List ℕ → List ℕ → Option String → Services

pub record DecisionResponse : Type 0 where
  pub policies_satisfied : Bool
  pub summary : String
  pub satisfied_requirements : List Object
  pub unsatisfied_requirements : List Object
  pub applicable_policies : Option (List (Option String))
  pub results : Option (List TestResult)
  pub waivers : Option (List Waiver)

-- `bool(data.get(key))`
abbrev pub has_value : String → Object → Bool
has_value key request = elim (lookup key request) [ none ↦ false | some v ↦ truthy_json v ]

-- `decision_contexts`, as a list of any values.
unfoldable pub contexts_of : Object → Array
contexts_of request = elim (lookup "decision_context" request) [
  | none ↦ nil
  | some (arr a) ↦ a
  | some v ↦ cons v nil
]

abbrev pub no_items : Array → Bool
no_items nil = true
no_items (cons v a) = false

-- The tests before anything is computed.
unfoldable pub check_request : Object → Result (Unit {0})
check_request empty = raise (unsupported_media_type "No JSON payload in request")
check_request (entry k v d) =
    if not (has_value "product_version" (entry k v d))
    then raise (bad_request "Missing required product version")
    else if not (has_value "decision_context" (entry k v d))
        && not (has_value "rules" (entry k v d))
    then raise (bad_request "Either decision_context or rules is required.")
    else if not (no_items (contexts_of (entry k v d))) && has_value "rules" (entry k v d)
    then raise (bad_request "Cannot have both decision_context and rules")
    else ok tt

-- `request_data`: the request without the keys of its subjects.
unfoldable pub request_data : Object → Object
request_data empty = empty
request_data (entry k v d) =
    let rest = request_data d in
    if (k == "subject") || (k == "subject_type") then rest else entry k v rest

abbrev value_at : String → Object → Json
value_at key request = elim (lookup key request) [ none ↦ null | some v ↦ v ]

-- One policy for each subject. The dictionary is one for the whole loop.
unfoldable pub policies_for : Formats → Object → List (Result Subject) → Result (List Policy)
policies_for formats fields [] = ok []
policies_for formats fields (next ∷ rest) = do
  s ← next
  p ← create_from_json formats (value_at "product_version" fields) (with_subject s)
  ps ← policies_for formats (with_subject s) rest
  ok (p ∷ ps)
  where
    with_subject : Subject → Object
    with_subject s =
        assign "subject_identifier" (str s.item)
          (assign "subject_type" (str s.subject_type.id) fields)

-- `on_demand_policies`
unfoldable pub on_demand_policies : Application → Object → Result (List Policy)
on_demand_policies app request =
    if has_value "rules" request
    then policies_for app.formats (request_data request)
        (decision_subjects app.subject_types request)
    else ok []

-- The flag: absent is False, and any value but a Boolean is refused.
unfoldable pub verbose_of : Object → Result Bool
verbose_of request = elim (lookup "verbose" request) [
  | none ↦ ok false
  | some (bool b) ↦ ok b
  | some _ ↦ raise (bad_request "Invalid verbose flag, must be a bool")
]

unfoldable pub when_of : (String → Bool) → Option Json → Result (Option String)
when_of is_time none = ok none
when_of is_time (some (str s)) =
    if truthy s
    then if is_time s
      then ok (some s)
      else raise (bad_request "Invalid \"when\" parameter, must be in ISO8601 format")
    else ok none
when_of is_time (some v) = if truthy_json v then raise (unexpected "TypeError") else ok none

-- The numbers that an identifier can be equal to: True is 1 and False is 0.
abbrev numbers : Array → List ℕ
numbers nil = []
numbers (cons (num n) a) = n ∷ numbers a
numbers (cons (bool true) a) = 1 ∷ numbers a
numbers (cons (bool false) a) = 0 ∷ numbers a
numbers (cons _ a) = numbers a

-- `ignore_result` and `ignore_waiver`: identifiers to leave out.
unfoldable pub ids_of : String → Object → Result (List ℕ)
ids_of key request = elim (lookup key request) [
  | none ↦ ok []
  | some (arr a) ↦ ok (numbers a)
  | some _ ↦ raise (unexpected "TypeError")
]

abbrev pub text_value : Json → Result String
text_value (str s) = ok s
text_value _ = raise (unexpected "TypeError")

abbrev pub text_values : Array → Result (List String)
text_values nil = ok []
text_values (cons v a) = do s ← text_value v; rest ← text_values a; ok (s ∷ rest)

-- `policies`
abbrev pub policies_or : List Policy → List Policy → List Policy
policies_or [] configured = configured
policies_or (p ∷ ps) configured = p ∷ ps

-- The loop over the subjects.
unfoldable pub check_subjects :
    Services → List Policy → List (Result Subject) → Decision → Result Decision
check_subjects services policies [] d = ok d
check_subjects services policies (next ∷ rest) d = do
  s ← next
  d' ← check services d s policies
  check_subjects services policies rest d'

-- `list({x["id"]: x for x in xs}.values())`
abbrev pub value_list {ℓ} : {A : Type ℓ} → Dict ℕ A → List A
value_list [] = []
value_list ((id, x) ∷ rest) = x ∷ value_list rest

unfoldable pub by_id {ℓ} : {A : Type ℓ} → (A → ℕ) → List A → Dict ℕ A → Dict ℕ A
by_id id [] d = d
by_id id (x ∷ xs) d = by_id id xs (put (id x) x d)

unfoldable pub response_of : Object → Decision → DecisionResponse
response_of request d = record {
  policies_satisfied = policies_satisfied d;
  summary = summary d;
  satisfied_requirements = satisfied_requirements d;
  unsatisfied_requirements = unsatisfied_requirements d;
  applicable_policies =
      if has_value "rules" request
      then none
      else some (map (λ (p : Policy). p.id) d.applicable_policies);
  results =
      if d.verbose
      then some (value_list (by_id (λ (r : TestResult). r.id) d.verbose_results []))
      else none;
  waivers =
      if d.verbose then some (value_list (by_id (λ (w : Waiver). w.id) d.waivers [])) else none;
}

-- What is read from a request before its subjects are checked.
pub record Options : Type 0 where
  pub on_demand : List Policy
  pub verbose : Bool
  pub when : Option String
  pub ignore_results : List ℕ
  pub ignore_waivers : List ℕ
  pub contexts : List String
  pub product_version : String

unfoldable pub read_options : Application → Object → Bool → List Policy → Result Options
read_options app request verbose on_demand = do
  when ← when_of app.is_time (lookup "when" request)
  ignore_results ← ids_of "ignore_result" request
  ignore_waivers ← ids_of "ignore_waiver" request
  contexts ← text_values (contexts_of request)
  product_version ← text_value (value_at "product_version" request)
  ok (record {
    on_demand = on_demand;
    verbose = verbose;
    when = when;
    ignore_results = ignore_results;
    ignore_waivers = ignore_waivers;
    contexts = contexts;
    product_version = product_version;
  })

-- The decision before its loop, with the services of the retrievers that are made for it.
abbrev pub decision_for : Options → Decision
decision_for options = new_decision options.contexts options.product_version options.verbose

abbrev pub services_for : Application → Options → Services
services_for app options = app.services options.ignore_results options.ignore_waivers options.when

abbrev pub subjects_checked : Application → Object → Options → Result Decision
subjects_checked app request options =
    check_subjects (services_for app options) (policies_or options.on_demand app.policies)
      (decision_subjects app.subject_types request) (decision_for options)

unfoldable pub decide : Application → Object → Options → Result DecisionResponse
decide app request options = do
  checked ← subjects_checked app request options
  waived ← waive (services_for app options) checked
  ok (response_of request waived)

unfoldable pub make_decision : Application → Object → Result DecisionResponse
make_decision app request = do
  valid ← check_request request
  on_demand ← on_demand_policies app request
  verbose ← verbose_of request
  options ← read_options app request verbose on_demand
  decide app request options

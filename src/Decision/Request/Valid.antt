-- ===== src/Decision/Request/Valid.antt =====
-- Which requests are refused.
use greenwave.Prelude.{
  ◌≡◌, refl, Bool, true, false, not, ◌&&◌, ◌||◌, Option, none, some, arith, List, [], ◌∷◌, all, inl,
  inr, Bool-cases,
}
use greenwave.Outcome.{
  Error, bad_request, unsupported_media_type, Result, ok, raise, ◌>>=◌, bind-eq-ok,
}
use greenwave.Json.{Json, bool, Object, empty, entry, lookup}
use greenwave.Subject.{Subject}
use greenwave.Policy.{Policy}
use greenwave.Policy.Services.{Services}
use greenwave.Decision.{Decision, check, waive}
use greenwave.Decision.Request.{
  Application, DecisionResponse, services_for, decision_for, subjects_checked, policies_or,
  check_subjects, response_of, Options, read_options, on_demand_policies, decide, has_value,
  no_items, contexts_of, check_request, verbose_of, make_decision,
}
use greenwave.Subject.Requested.{decision_subjects}

-- A product version, and either contexts or rules.
abbrev pub asks_once : Object → Bool
asks_once request =
    has_value "product_version" request
    && (has_value "decision_context" request || has_value "rules" request)
    && (no_items (contexts_of request) || not (has_value "rules" request))

abbrev pub is_flag : Option Json → Bool
is_flag none = true
is_flag (some (bool b)) = true
is_flag (some v) = false

-- HTTP 415 for the empty request, and HTTP 400 for any other.
abbrev pub refuses : Object → Error → Bool
refuses empty (unsupported_media_type message) = true
refuses (entry k v d) (bad_request message) = true
refuses request e = false

check_request-asks_once :
    (request : Object) → check_request request ≡ ok tt → asks_once request ≡ true
unfolding check_request
check_request-asks_once empty h = absurd (ground arith)
check_request-asks_once (entry k v d) h = ground arith

check_request_refused :
    (request : Object)
    → asks_once request ≡ false
    → (e : Error) × (check_request request ≡ raise e) × (refuses request e ≡ true)
unfolding check_request
check_request_refused empty h = (unsupported_media_type _, refl, refl)
check_request_refused (entry k v d) h =
    elim (Bool-cases (has_value "product_version" (entry k v d))) [
      | inr unversioned ↦
          (bad_request "Missing required product version", rw unversioned refl, refl)
      | inl version ↦
          elim (Bool-cases
            (has_value "decision_context" (entry k v d) || has_value "rules" (entry k v d))) [
              | inr neither ↦
                  (bad_request "Either decision_context or rules is required.", ground arith, refl)
              | inl one ↦
                  (bad_request "Cannot have both decision_context and rules", ground arith, refl)
            ]
    ]

-- A request without a product version, without both contexts and rules, or with both, is refused, whatever
-- the configuration and the services are: with HTTP 415 when it is empty, and otherwise with HTTP 400.
pub make_decision_refused :
    (app : Application) (request : Object)
    → asks_once request ≡ false
    → (e : Error) × (make_decision app request ≡ raise e) × (refuses request e ≡ true)
unfolding make_decision
make_decision_refused app request h =
    let (e, refused, kind) = check_request_refused request h in (e, rw refused refl, kind)

verbose_of-is_flag :
    (request : Object) (verbose : Bool)
    → verbose_of request ≡ ok verbose
    → is_flag (lookup "verbose" request) ≡ true
unfolding verbose_of
verbose_of-is_flag request verbose h = ground arith

-- The steps of a request that is decided.
pub record Steps (app : Application) (request : Object) (response : DecisionResponse) : Type 0 where
  pub options : Options
  pub valid : check_request request ≡ ok tt
  pub policies_made : on_demand_policies app request ≡ ok options.on_demand
  pub flag : verbose_of request ≡ ok options.verbose
  pub read : read_options app request options.verbose options.on_demand ≡ ok options
  pub decided : decide app request options ≡ ok response

read_options-verbose :
    (app : Application) (request : Object) (verbose : Bool) (on_demand : List Policy)
    (options : Options)
    → read_options app request verbose on_demand ≡ ok options
    → (options.verbose ≡ verbose) × (options.on_demand ≡ on_demand)
unfolding read_options
read_options-verbose app request verbose on_demand options h = ground arith

pub make_decision-Steps :
    (app : Application) (request : Object) (response : DecisionResponse)
    → make_decision app request ≡ ok response
    → Steps app request response
unfolding make_decision
make_decision-Steps app request response h =
    let (valid, passed, h1) =
      bind-eq-ok (check_request request)
        (λ valid. on_demand_policies app request >>= λ on_demand. verbose_of request >>= λ verbose.
          read_options app request verbose on_demand >>= decide app request)
        h in
    let (on_demand, made, h2) =
      bind-eq-ok (on_demand_policies app request)
        (λ on_demand. verbose_of request >>= λ verbose.
          read_options app request verbose on_demand >>= decide app request)
        h1 in
    let (verbose, flag, h3) =
      bind-eq-ok (verbose_of request)
        (λ verbose. read_options app request verbose on_demand >>= decide app request) h2 in
    let (options, read, decided) =
      bind-eq-ok (read_options app request verbose on_demand) (decide app request) h3 in
    let (same, kept) = read_options-verbose app request verbose on_demand options read in
    record {
      options = options;
      valid = passed;
      policies_made = rw kept made;
      flag = rw same flag;
      read = rw (same, kept) read;
      decided = decided;
    }

abbrev pub is_ok {ℓ} : {A : Type ℓ} → Result A → Bool
is_ok (ok a) = true
is_ok (raise e) = false

check_subjects-is_ok :
    (services : Services) (policies : List Policy) (subjects : List (Result Subject))
    (d d' : Decision)
    → check_subjects services policies subjects d ≡ ok d'
    → all is_ok subjects ≡ true
unfolding check_subjects
check_subjects-is_ok services policies [] d d' h = refl
check_subjects-is_ok services policies (raise e ∷ rest) d d' h = absurd (ground arith)
check_subjects-is_ok services policies (ok s ∷ rest) d d' h =
    let (next, checked, h') =
      bind-eq-ok (check services d s policies) (check_subjects services policies rest) h in
    check_subjects-is_ok services policies rest next d' h'

-- A request that is decided has been checked and waived.
pub decide-waived :
    (app : Application) (request : Object) (options : Options) (response : DecisionResponse)
    → decide app request options ≡ ok response
    → (d d' : Decision) × (subjects_checked app request options ≡ ok d)
      × (waive (services_for app options) d ≡ ok d')
      × (response_of request d' ≡ response)
unfolding decide
decide-waived app request options response h =
    let (d, checked, h') =
      bind-eq-ok (subjects_checked app request options)
        (λ d. waive (services_for app options) d >>= λ d'. ok (response_of request d')) h in
    let (d', waived, made) =
      bind-eq-ok (waive (services_for app options) d) (λ d'. ok (response_of request d')) h' in
    (d, d', checked, waived, ground arith)

-- A decision is returned only for a request with a product version and with either decision contexts
-- or rules, whose verbose flag, if it has one, is a Boolean; and each subject that the request names
-- could be read.
pub make_decision_valid :
    (app : Application) (request : Object) (response : DecisionResponse)
    → make_decision app request ≡ ok response
    → (asks_once request ≡ true)
      × (is_flag (lookup "verbose" request) ≡ true)
      × (all is_ok (decision_subjects app.subject_types request) ≡ true)
make_decision_valid app request response h =
    let steps = make_decision-Steps app request response h in
    let (d, d', checked, waived, made) =
      decide-waived app request steps.options response steps.decided in
    (
      check_request-asks_once request steps.valid,
      verbose_of-is_flag request steps.options.verbose steps.flag,
      check_subjects-is_ok (services_for app steps.options)
          (policies_or steps.options.on_demand app.policies)
          (decision_subjects app.subject_types request) (decision_for steps.options) d checked,
    )

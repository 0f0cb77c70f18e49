-- ===== src/Consumers/Deciding/Asked.antt =====
-- What a decision is made of that a consumer asks for.
use greenwave.Prelude.{
  String, ◌≡◌, refl, true, false, List, [], ◌∷◌, map, Option, none, some, truthy, inl, inr,
  string_eq,
}
use greenwave.Outcome.{Result, ok, raise, ◌>>=◌, Result-cases}
use greenwave.Json.{bool, str, arr, Object, of_entries}
use greenwave.Subject.{Subject}
use greenwave.Subject.Factory.{create_subject}
use greenwave.Subject.Requested.{decision_subjects, named_subject}
use greenwave.Policy.{Policy}
use greenwave.Policy.Services.{Services}
use greenwave.Policy.Matching.Pairs.{Pair}
use greenwave.Decision.{
  Decision, new_decision, check, waive, policies_satisfied, summary, satisfied_requirements,
  unsatisfied_requirements,
}
use greenwave.Decision.Request.{
  Application, Options, check_request, contexts_of, on_demand_policies, verbose_of, when_of, ids_of,
  read_options, check_subjects, response_of, decide, make_decision,
}
use greenwave.Consumers.{Delivery}
use greenwave.Consumers.Deciding.{
  change_request, requirements_to_json, ids_to_json, response_data, in_process,
}

-- A time that a request may have.
abbrev pub IsWhen : Application → Option String → Type 0
IsWhen app none = Unit
IsWhen app (some time) = (truthy time ≡ true) × (app.is_time time ≡ true)

-- The policies of the application, checked for one subject, decision context and product version, and
-- waived, with nothing left out.
abbrev pub decision_at : Application → Subject → Pair → Option String → Result Decision
decision_at app s pair when = do
  checked ← check (app.services [] [] when) (new_decision (pair.0 ∷ []) pair.1 false) s app.policies
  waive (app.services [] [] when) checked

-- The report of a decision.
abbrev pub report_of : Decision → Object
report_of d = of_entries (
    ("policies_satisfied", bool (policies_satisfied d))
    ∷ ("summary", str (summary d))
    ∷ ("satisfied_requirements", arr (requirements_to_json (satisfied_requirements d)))
    ∷ ("unsatisfied_requirements", arr (requirements_to_json (unsatisfied_requirements d)))
    ∷ ("applicable_policies", arr (ids_to_json (map (λ (p : Policy). p.id) d.applicable_policies)))
    ∷ [])

-- The subject that the application makes of the names in the request.
abbrev pub as_requested : Application → Subject → Subject
as_requested app s = create_subject app.subject_types s.subject_type.id s.item

module _ (app : Application) (s : Subject) (pair : Pair) where
  options_at : Option String → Options
  options_at when = record {
    on_demand = [];
    verbose = false;
    when = when;
    ignore_results = [];
    ignore_waivers = [];
    contexts = pair.0 ∷ [];
    product_version = pair.1;
  }

  check_request-change_request :
      (when : Option String)
      → truthy pair.0 ≡ true
      → truthy pair.1 ≡ true
      → check_request (change_request s pair when) ≡ ok tt
  unfolding check_request change_request contexts_of
  check_request-change_request none context version = rw (context, version) refl
  check_request-change_request (some time) context version = rw (context, version) refl

  read_options-change_request :
      (when : Option String)
      → IsWhen app when
      → read_options app (change_request s pair when) false [] ≡ ok (options_at when)
  unfolding read_options change_request when_of ids_of contexts_of options_at
  read_options-change_request none h = refl
  read_options-change_request (some time) (h, k) = rw (h, k) refl

  on_demand_policies-change_request :
      (when : Option String) → on_demand_policies app (change_request s pair when) ≡ ok []
  unfolding on_demand_policies change_request
  on_demand_policies-change_request none = refl
  on_demand_policies-change_request (some time) = refl

  verbose_of-change_request :
      (when : Option String) → verbose_of (change_request s pair when) ≡ ok false
  unfolding verbose_of change_request
  verbose_of-change_request none = refl
  verbose_of-change_request (some time) = refl

  decision_subjects-change_request :
      (when : Option String)
      → decision_subjects app.subject_types (change_request s pair when)
        ≡ ok (as_requested app s) ∷ []
  unfolding decision_subjects named_subject change_request
  decision_subjects-change_request none = refl
  decision_subjects-change_request (some time) = refl

  response_data-response_of :
      (when : Option String) (d : Decision)
      → response_data (response_of (change_request s pair when) d) ≡ report_of d
  unfolding response_data response_of change_request
  response_data-response_of none d = refl
  response_data-response_of (some time) d = refl

  make_decision-change_request :
      (when : Option String)
      → truthy pair.0 ≡ true
      → truthy pair.1 ≡ true
      → IsWhen app when
      → make_decision app (change_request s pair when)
        ≡ decide app (change_request s pair when) (options_at when)
  unfolding make_decision
  make_decision-change_request when context version time =
      rw
        (
          check_request-change_request when context version,
          on_demand_policies-change_request when,
          verbose_of-change_request when,
          read_options-change_request when time,
        )
        refl

  -- The report of a decision, after the checks and the waivers.
  reports :
      (when : Option String) (checked : Result Decision)
      → ((checked >>= λ d. waive (app.services [] [] when) d >>= λ w.
            ok (response_of (change_request s pair when) w))
          >>= λ r. ok (response_data r))
        ≡ ((checked >>= waive (app.services [] [] when)) >>= λ d. ok (report_of d))
  reports when (raise e) = refl
  reports when (ok d) = elim (Result-cases (waive (app.services [] [] when) d)) [
    | inl (waived, h) ↦ rw (h, response_data-response_of when waived) refl
    | inr (e, h) ↦ rw h refl
  ]

  check_subjects-single :
      (services : Services) (policies : List Policy) (t : Subject) (d : Decision)
      → check_subjects services policies (ok t ∷ []) d ≡ check services d t policies
  unfolding check_subjects
  check_subjects-single services policies t d = elim (Result-cases (check services d t policies)) [
    | inl (checked, h) ↦ rw h refl
    | inr (e, h) ↦ rw h refl
  ]

  decide-change_request :
      (when : Option String)
      → (decide app (change_request s pair when) (options_at when) >>= λ r. ok (response_data r))
        ≡ (decision_at app (as_requested app s) pair when >>= λ d. ok (report_of d))
  unfolding decide options_at
  decide-change_request when =
      let services = app.services [] [] when in
      let start = new_decision (pair.0 ∷ []) pair.1 false in
      rw
        (
          decision_subjects-change_request when,
          check_subjects-single services app.policies (as_requested app s) start,
        )
        (reports when (check services start (as_requested app s) app.policies))

-- A decision that a consumer asks for is never refused as a bad request: it is the report of the policies of
-- the application, checked for the subject of the message, the decision context and the product version
-- and waived, with no results or waivers left out, at the time or for now. This is so for a context and a
-- version that are not empty, and a time that requests may have.
pub make_decision-decision_at :
    (app : Application) (publish : Object → Delivery) (s : Subject) (pair : Pair)
    (when : Option String)
    → truthy pair.0 ≡ true
    → truthy pair.1 ≡ true
    → IsWhen app when
    → (in_process app publish s).make_decision pair when
      ≡ (decision_at app (as_requested app s) pair when >>= λ d. ok (report_of d))
unfolding in_process
make_decision-decision_at app publish s pair when context version time =
    rw (make_decision-change_request app s pair when context version time)
      (decide-change_request app s pair when)

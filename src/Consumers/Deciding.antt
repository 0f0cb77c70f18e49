-- ===== src/Consumers/Deciding.antt =====
-- The decisions that consumers ask for (`_old_and_new_decisions` of consumers/consumer.py): the request, and
-- `make_decision` of decision.py as it is called in the process.
pub mod Asked
pub mod Compared
use greenwave.Prelude.{String, List, [], ◌∷◌, Option, none, some, Dict}
use greenwave.Outcome.{Result, ok, raise, ◌>>=◌}
use greenwave.Json.{
  Json, bool, str, arr, obj, Array, nil, cons, Object, of_entries, assign, update, opt_str,
}
use greenwave.Subject.{Subject}
use greenwave.Policy.Matching.Pairs.{Pair}
use greenwave.Decision.Request.{Application, DecisionResponse, make_decision}
use greenwave.Consumers.{Delivery, Environment}

-- `request_data`, with "when" for the decision before the message.
unfoldable pub change_request : Subject → Pair → Option String → Object
change_request s pair when =
    let request = of_entries (
      ("decision_context", str pair.0)
      ∷ ("product_version", str pair.1)
      ∷ ("subject_type", str s.subject_type.id)
      ∷ ("subject_identifier", str s.item)
      ∷ []) in
    elim when [ none ↦ request | some time ↦ assign "when" (str time) request ]

abbrev pub requirements_to_json : List Object → Array
requirements_to_json [] = nil
requirements_to_json (d ∷ ds) = cons (obj d) (requirements_to_json ds)

abbrev pub ids_to_json : List (Option String) → Array
ids_to_json [] = nil
ids_to_json (id ∷ ids) = cons (opt_str id) (ids_to_json ids)

abbrev pub policies_entry : Option (List (Option String)) → Object
policies_entry none = of_entries []
policies_entry (some ids) = of_entries (("applicable_policies", arr (ids_to_json ids)) ∷ [])

-- The dictionary of a response without the entries of a verbose one, which consumers do not ask for.
unfoldable pub response_data : DecisionResponse → Object
response_data r =
    update
      (of_entries (
        ("policies_satisfied", bool r.policies_satisfied)
        ∷ ("summary", str r.summary)
        ∷ ("satisfied_requirements", arr (requirements_to_json r.satisfied_requirements))
        ∷ ("unsatisfied_requirements", arr (requirements_to_json r.unsatisfied_requirements))
        ∷ []))
      (policies_entry r.applicable_policies)

-- Decisions of the application, and a broker.
unfoldable pub in_process : Application → (Object → Delivery) → Subject → Environment
in_process app publish s = record {
  make_decision = λ pair when. do
    response ← make_decision app (change_request s pair when)
    ok (response_data response);
  publish = publish;
}

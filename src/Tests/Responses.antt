-- ===== src/Tests/Responses.antt =====
-- Responses of the HTTP API.
use greenwave.Prelude.{◌≡◌, refl, [], ◌∷◌, pair_order, string_order}
use greenwave.Prelude.Sorting.{sort, insert_sorted}
use greenwave.Prelude.Sets.{unique}
use greenwave.Outcome.{ok}
use greenwave.Json.{empty}
use greenwave.Api.{
  content, message, json_error, post_decision, contexts_in, missing_decision_contexts,
  validate_gating_yaml_post,
}
use greenwave.Policy.{PolicyClass, Policy}
use greenwave.Policy.Loading.{load_policies}
use greenwave.Policy.Remote.{safe_load_all}
use greenwave.Api.Validated.{Checked, validate_gating_yaml_post-Checked}
use greenwave.Tests.Samples.{local_policy, services, policy_of, abicheck, remote_policy}
use greenwave.Tests.Rules.{program}
use greenwave.Tests.Requests.{app, machine, request, response}

decision_response : post_decision app request ≡ (200, content response)
unfolding machine post_decision
decision_response = refl

empty_request : post_decision app empty ≡ (415, message "No JSON payload in request")
unfolding machine post_decision json_error
empty_request = refl

unfoldable validating : Unit {0}
unfolding program contexts_in missing_decision_contexts validate_gating_yaml_post sort insert_sorted
    unique
validating = tt

valid_file : validate_gating_yaml_post services (local_policy ∷ []) "gating" ≡ ok "All OK"
unfolding validating
valid_file = refl

validate_gating_yaml_post-Checked_example : Checked services (local_policy ∷ []) "gating" "All OK"
validate_gating_yaml_post-Checked_example =
    validate_gating_yaml_post-Checked services (local_policy ∷ []) "gating" "All OK" valid_file

without_parents :
    validate_gating_yaml_post services [] "gating"
    ≡ ok (
        "Greenwave could not find a parent policy(ies) for following decision context(s): osci_compose_gate. Please change your policy so that it will match a decision context in the parent policies.")
unfolding validating
without_parents = refl

-- The same file, as one of the configuration.
abbrev parent : Policy
parent = policy_of PolicyClass.local "gating" (abicheck ∷ [])

configured : load_policies services.formats ("gating.yaml" ∷ []) ≡ ok (parent ∷ [])
unfolding program load_policies
configured = refl

loaded_file : safe_load_all services "gating" ≡ ok (remote_policy ∷ [])
unfolding program
loaded_file = refl

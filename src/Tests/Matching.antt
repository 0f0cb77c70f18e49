-- ===== src/Tests/Matching.antt =====
-- Which policies match, and the decisions that the consumers ask for.
use greenwave.Prelude.{
  ◌≡◌, refl, false, ◌&&◌, [], ◌∷◌, none, some, string_eq, pair_eq, elem, any, pair_order,
}
use greenwave.Prelude.Sorting.{sort, insert_sorted}
use greenwave.Prelude.Sets.{unique}
use greenwave.Outcome.{ok, filter_by}
use greenwave.Policy.Matching.{Attributes, policy_matches, max_depth}
use greenwave.Policy.Matching.Pairs.{
  Pair, each_version, versions_of, policies_pairs, applicable_pairs, contexts_of,
  elem-applicable_pairs,
}
use greenwave.Tests.Samples.{build, local_policy, remote_policy, services}
use greenwave.Tests.Rules.{program}

-- A message about a result of the build.
abbrev message : Attributes
message = record {
  decision_contexts = [];
  product_version = none;
  subject = some build;
  testcase = some "dist.abicheck";
  match_any_remote_rule = false;
}

policies_match :
    filter_by (λ p. policy_matches services max_depth p message) (local_policy ∷ remote_policy ∷ [])
    ≡ ok (local_policy ∷ remote_policy ∷ [])
unfolding program
policies_match = refl

applicable_pairs_runs :
    applicable_pairs services (local_policy ∷ remote_policy ∷ []) message
    ≡ ok (("osci_compose_gate", "rhel-*") ∷ [])
unfolding program applicable_pairs policies_pairs each_version versions_of sort insert_sorted unique
applicable_pairs_runs = refl

elem-applicable_pairs_example :
    elem {A = Pair} ("osci_compose_gate", "rhel-*") (("osci_compose_gate", "rhel-*") ∷ [])
    ≡ any
        (λ p. elem "rhel-*" (versions_of none p) && elem "osci_compose_gate" (contexts_of p))
        (local_policy ∷ remote_policy ∷ [])
elem-applicable_pairs_example =
    elem-applicable_pairs services (local_policy ∷ remote_policy ∷ []) message
      (local_policy ∷ remote_policy ∷ []) (("osci_compose_gate", "rhel-*") ∷ []) "osci_compose_gate"
      "rhel-*" policies_match applicable_pairs_runs

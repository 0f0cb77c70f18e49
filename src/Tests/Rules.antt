-- ===== src/Tests/Rules.antt =====
-- Rules, policies and remote rule files.
use greenwave.Prelude.{
  String, ◌≡◌, refl, ◌↔◌, true, false, not, ◌&&◌, [], ◌∷◌, none, some, all, is_empty, All,
}
use greenwave.Outcome.{ok}
use greenwave.Json.{json_eq}
use greenwave.Format.{format}
use greenwave.Fnmatch.{fnmatch}
use greenwave.Subject.{package_name, type_matches}
use greenwave.Answer.{
  satisfied, unsatisfied, is_satisfied, fetched_remote_rule_yaml, test_result_passed,
  test_result_failed,
}
use greenwave.Policy.{
  rule_eq, all_decision_contexts, validate, matches_product_version, matches_subject_type,
  matches_sub_policy,
}
use greenwave.Policy.Verified.{SameRule, rule_eq_iff}
use greenwave.SafeYaml.{
  attribute, about, construct, node_value, node_values, node_field, entry_fields, all_texts,
  all_objects,
}
use greenwave.Policy.Loading.{
  load_documents, load_each, policy_from_node, make_policy, make_titled_policy, read_relevance,
  validated, rule_classes, make_passing_test_case_rule, make_remote_rule,
}
use greenwave.Policy.Remote.{
  remote_url_templates, remote_url, search_urls, find_remote_rule, failed_search, safe_load_all,
  sub_policies_of, conclude, get_sub_policies,
}
use greenwave.Policy.Remote.Loaded.{NoRemoteRule, get_sub_policies-NoRemoteRule}
use greenwave.Policy.Matching.{
  attributes_match, testcase_matches, remote_rule_matches, rule_matches, policy_matches,
}
use greenwave.Policy.Checking.{
  result_data, answer_for_result, matching_results, outside, answers_for, check_test_case,
  check_sub_policies, check_rule, verify, verify_all, package_answers, check_policy,
}
use greenwave.Policy.Checking.Rules.{has_passed, all_satisfied-answers_for}
use greenwave.Policy.Checking.Policies.{
  Distinct, AllKnown, rules_of, check_policy-Distinct, verify_twice,
}
use greenwave.Policy.Checking.Depth.{check_policy-depth}
use greenwave.Tests.Samples.{
  build, abicheck, abicheck_until, abicheck_since, gating_rule, local_policy, remote_policy, passed,
  failed, services, context,
}

-- What a run of a policy computes with.
unfoldable pub program : Unit {0}
unfolding json_eq rule_eq all_decision_contexts validate matches_product_version
    matches_subject_type matches_sub_policy fnmatch format package_name type_matches
    remote_url_templates remote_url search_urls find_remote_rule failed_search safe_load_all
    sub_policies_of conclude get_sub_policies attributes_match testcase_matches remote_rule_matches
    rule_matches policy_matches result_data answer_for_result matching_results outside answers_for
    load_documents load_each policy_from_node make_policy make_titled_policy read_relevance
    validated rule_classes make_passing_test_case_rule make_remote_rule attribute about construct
    node_value node_values node_field entry_fields all_texts all_objects check_test_case
    check_sub_policies check_rule verify verify_all package_answers check_policy
program = tt

abbrev pub url : String
url = "https://git/rpms/python-ansi2html/abc/gating.yaml"

-- The rule of the remote file is equal to one of the policy, so it gives no answer.
local_policy_runs :
    check_policy services context 2 local_policy []
    ≡ ok (
      satisfied (test_result_passed build "dist.abicheck" none 1 (("scenario", some "bios") ∷ []))
          ∷ unsatisfied
              (test_result_failed build "dist.abicheck" none 2 (("scenario", some "bios") ∷ []))
          ∷ satisfied (fetched_remote_rule_yaml build url)
          ∷ [],
      abicheck ∷ gating_rule ∷ [],
    )
unfolding program
local_policy_runs = refl

check_policy-depth_example :
    check_policy services context 7 local_policy []
    ≡ check_policy services context 2 local_policy []
check_policy-depth_example = check_policy-depth services context 5 local_policy []

check_policy-Distinct_example :
    Distinct (abicheck ∷ gating_rule ∷ [])
    × AllKnown [] (abicheck ∷ gating_rule ∷ [])
    × AllKnown (rules_of services context local_policy) (abicheck ∷ gating_rule ∷ [])
check_policy-Distinct_example =
    check_policy-Distinct services context 2 local_policy [] (abicheck ∷ gating_rule ∷ []) _
      local_policy_runs tt

-- At time 12 the first rule has run out and the second one counts, but it is not evaluated.
until_runs :
    verify services context (check_policy services context 2) local_policy abicheck_until []
    ≡ ok ([], abicheck_until ∷ [])
unfolding program
until_runs = refl

verify_twice_example :
    verify services context
      (check_policy services context 2)
      remote_policy
      abicheck_since
      (abicheck_until ∷ [])
    ≡ ok ([], abicheck_until ∷ [])
verify_twice_example =
    verify_twice services context 2 local_policy remote_policy abicheck_until abicheck_since []
      (abicheck_until ∷ []) [] (refl, refl) until_runs

all_satisfied-answers_for_example :
    all is_satisfied (answers_for services context "dist.abicheck" none none (passed ∷ failed ∷ []))
    ≡ (not (is_empty (matching_results none (passed ∷ failed ∷ [])))
        && all (has_passed services.config) (matching_results none (passed ∷ failed ∷ [])))
all_satisfied-answers_for_example =
    all_satisfied-answers_for services context "dist.abicheck" none none (passed ∷ failed ∷ [])

-- So a later failed result blocks, whatever the latest one is.
later_failure :
    all is_satisfied (answers_for services context "dist.abicheck" none none (passed ∷ failed ∷ []))
    ≡ false
unfolding program is_satisfied
later_failure = refl

rule_eq_iff_example : (rule_eq abicheck_since abicheck ≡ true) ↔ SameRule abicheck_since abicheck
rule_eq_iff_example = rule_eq_iff abicheck_since abicheck

get_sub_policies_runs :
    get_sub_policies services [] true local_policy build
    ≡ ok (
      record remote_policy { source = some url } ∷ [],
      satisfied (fetched_remote_rule_yaml build url) ∷ [],
    )
unfolding program
get_sub_policies_runs = refl

get_sub_policies-NoRemoteRule_example :
    All NoRemoteRule (record remote_policy { source = some url } ∷ [])
get_sub_policies-NoRemoteRule_example =
    get_sub_policies-NoRemoteRule services [] true local_policy build
      (record remote_policy { source = some url } ∷ [])
      (satisfied (fetched_remote_rule_yaml build url) ∷ []) get_sub_policies_runs

-- ===== src/Tests/Samples.antt =====
-- Sample data: subjects, policies, results, waivers and services.
use greenwave.Prelude.{String, true, false, List, [], ◌∷◌, none, some, if◌then◌else◌}
use greenwave.Prelude.{◌==◌, string_eq}
use greenwave.Outcome.{ok}
use greenwave.Json.{bool}
use greenwave.SafeYaml.{
  Formats, plain_text, Node, scalar, sequence, mapping, no_nodes, node, no_entries, named,
}
use greenwave.Subject.{SubjectType, Subject}
use greenwave.Answer.{
  Answer, satisfied, unsatisfied, test_result_missing, test_result_passed, missing_remote_rule_yaml,
}
use greenwave.Waiver.{Waiver}
use greenwave.Policy.{Rule, remote_rule, passing_test_case_rule, PolicyClass, Policy}
use greenwave.Policy.Services.{Templates, Config, TestResult, Services}
use greenwave.Policy.Checking.{RuleContext}
use greenwave.Decision.{Decision}

-- conf/subject_types/koji_build.yaml, in part
abbrev pub koji_build : SubjectType
koji_build = record {
  id = "koji_build";
  aliases = "brew-build" ∷ [];
  item_key = some "original_spec_nvr";
  is_koji_build = true;
  is_nvr = true;
  ignore_missing_policy = false;
  product_version_match = [];
  product_version_from_koji_build_target = [];
  product_version = none;
  item_dict = none;
  result_queries = [];
}

abbrev pub build : Subject
build = record { subject_type = koji_build; item = "python-ansi2html-1.1.1-114.el8" }

abbrev pub abicheck : Rule
abicheck = passing_test_case_rule "dist.abicheck" none none none

-- The same test case, for builds before time 10, and from then on.
abbrev pub abicheck_until : Rule
abicheck_until = passing_test_case_rule "dist.abicheck" none none (some 10)

abbrev pub abicheck_since : Rule
abicheck_since = passing_test_case_rule "dist.abicheck" none (some 10) none

abbrev pub gating_rule : Rule
gating_rule = remote_rule [] true

abbrev pub policy_of : PolicyClass → String → List Rule → Policy
policy_of policy_class id rules = record {
  policy_class = policy_class;
  id = some id;
  product_versions = "rhel-*" ∷ [];
  decision_context = some "osci_compose_gate";
  decision_contexts = [];
  subject_type = "koji_build";
  rules = rules;
  excluded_packages = "module-build*" ∷ [];
  relevance_key = none;
  relevance_value = none;
  packages = [];
  source = none;
}

abbrev pub local_policy : Policy
local_policy = policy_of PolicyClass.local "taskotron" (abicheck ∷ gating_rule ∷ [])

abbrev pub remote_policy : Policy
remote_policy = policy_of PolicyClass.remote "gating" (abicheck ∷ [])

abbrev pub passed : TestResult
passed = record {
  id = 1;
  testcase = "dist.abicheck";
  outcome = "PASSED";
  submit_time = "2020-02-07T03:14:43.076427";
  fields = ("scenario", "bios" ∷ []) ∷ [];
  error_reason = none;
}

abbrev pub failed : TestResult
failed = record passed { id = 2; outcome = "FAILED" }

abbrev pub config : Config
config = record {
  outcomes_passed = "PASSED" ∷ "INFO" ∷ [];
  outcomes_incomplete = "QUEUED" ∷ "RUNNING" ∷ [];
  outcomes_error = "ERROR" ∷ [];
  distinct_latest_results_on = "scenario" ∷ [];
  remote_rule_policies =
      ("*", Templates.one "https://git/{pkg_namespace}{pkg_name}/{rev}/gating.yaml") ∷ [];
  dist_git_url_template = none;
}

abbrev pub waiver : Waiver
waiver = record {
  id = 256;
  subject_type = "brew-build";
  subject_identifier = "python-ansi2html-1.1.1-114.el8";
  product_version = "rhel-8";
  testcase = "dist.abicheck";
  scenario = none;
  waived = true;
}

-- The rule file that the git server has, as it is parsed.
abbrev pub rule_file : Node
rule_file = mapping (some "Policy") (
    named "id" (scalar plain_text "gating") (
      named "product_versions" (sequence (node (scalar plain_text "rhel-*") no_nodes)) (
        named "subject_type" (scalar plain_text "koji_build") (
          named "decision_context" (scalar plain_text "osci_compose_gate") (
            named "rules"
              (sequence (
                node
                  (mapping (some "PassingTestCaseRule")
                    (named "test_case_name" (scalar plain_text "dist.abicheck") no_entries))
                  no_nodes))
              (named "excluded_packages"
                (sequence (node (scalar plain_text "module-build*") no_nodes)) no_entries))))))

abbrev pub formats : Formats
formats = record {
  show = λ v. "";
  parse = λ s. none;
  load_scalar = λ s. ok (bool (s == "true"));
  compose = λ content. ok rule_file ∷ [];
}

-- Koji knows the build, the git server has its file, and ResultsDB has two results.
abbrev pub services : Services
services = record {
  config = config;
  retrieve_scm_from_koji =
      λ nvr. ok (record { namespace = "rpms"; pkg_name = "python-ansi2html"; rev = "abc" });
  retrieve_yaml_remote_rule = λ url.
      ok (
        if url == "https://git/rpms/python-ansi2html/abc/gating.yaml" then some "gating" else none);
  formats = formats;
  retrieve_koji_build_creation_time = λ nvr. ok 12;
  retrieve_results =
      λ s testcase. ok (if testcase == "dist.abicheck" then passed ∷ failed ∷ [] else []);
  retrieve_all_results = λ s. ok (passed ∷ failed ∷ []);
  retrieve_waivers = λ filters. ok (waiver ∷ []);
}

abbrev pub context : RuleContext
context = record {
  decision_contexts = "osci_compose_gate" ∷ [];
  product_version = "rhel-8";
  subject = build;
}

abbrev pub missing_result : Answer
missing_result = unsatisfied (test_result_missing build "dist.abicheck" none none)

abbrev pub missing_file : Answer
missing_file = unsatisfied (missing_remote_rule_yaml build ("https://git/gating.yaml" ∷ []))

abbrev pub passed_result : Answer
passed_result = satisfied (test_result_passed build "dist.abicheck" none 1 [])

abbrev pub sample_answers : List Answer
sample_answers = passed_result ∷ missing_result ∷ missing_file ∷ []

abbrev pub decision : Decision
decision = record {
  decision_contexts = "osci_compose_gate" ∷ [];
  product_version = "rhel-8";
  verbose = false;
  verbose_results = [];
  waivers = [];
  waiver_filters = [];
  answers = sample_answers;
  applicable_policies = [];
}

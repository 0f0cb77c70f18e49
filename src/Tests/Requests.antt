-- ===== src/Tests/Requests.antt =====
-- Requests for decisions.
use greenwave.Prelude.{String, ◌≡◌, refl, true, List, [], ◌∷◌, some, all, map, false}
use greenwave.Outcome.{Error, Result, ok, raise}
use greenwave.Json.{Json, null, bool, num, str, arr, obj, nil, cons, Object, of_entries, lookup}
use greenwave.Subject.{Subject, type_matches}
use greenwave.Subject.Factory.{create_subject, create_subject_type}
use greenwave.Answer.{is_satisfied, to_waived, subject, test_case_name, is_test_result, to_json}
use greenwave.Summary.{summarize_answers, satisfied_is_test, summary_text}
use greenwave.Waiver.{Waiver, waive_answers, find_waived_id, waiver_matches}
use greenwave.Waiver.Laws.{covered}
use greenwave.Decision.{
  Decision, new_decision, check, note_verbose, subject_policies, check_policies, waive,
  fetch_waivers, filters_to_ask, policies_satisfied, summary, satisfied_requirements,
  unsatisfied_requirements,
}
use greenwave.Decision.Request.{
  Application, DecisionResponse, Options, check_request, on_demand_policies, request_data,
  policies_for, verbose_of, when_of, ids_of, contexts_of, read_options, check_subjects,
  subjects_checked, services_for, by_id, response_of, decide, make_decision,
}
use greenwave.Subject.Requested.{
  decision_subjects, decision_subject, listed_subjects, named_subject, text_entries,
}
use greenwave.Decision.Request.Valid.{
  asks_once, is_flag, is_ok, refuses, make_decision_valid, make_decision_refused,
}
use greenwave.Decision.Request.Each.{answers_alone, policies_alone, check_subjects-each}
use greenwave.Decision.Request.Answered.{
  Consistent, make_decision-Consistent, make_decision-satisfied_iff,
}
use greenwave.Tests.Rules.{program, url}
use greenwave.Tests.Samples.{
  build, koji_build, local_policy, formats, services, passed, failed, waiver,
}

abbrev pub app : Application
app = record {
  subject_types = koji_build ∷ [];
  policies = local_policy ∷ [];
  formats = formats;
  is_time = λ s. true;
  services = λ results waivers when. services;
}

abbrev pub request : Object
request = of_entries (
    ("product_version", str "rhel-8")
    ∷ ("decision_context", str "osci_compose_gate")
    ∷ ("subject_type", str "koji_build")
    ∷ ("subject_identifier", str "python-ansi2html-1.1.1-114.el8")
    ∷ ("verbose", bool true)
    ∷ [])

unfoldable pub machine : Unit {0}
unfolding program check_request on_demand_policies request_data policies_for decision_subjects
    decision_subject listed_subjects named_subject text_entries verbose_of when_of ids_of
    contexts_of read_options check_subjects by_id response_of decide make_decision new_decision
    check note_verbose subject_policies check_policies waive fetch_waivers filters_to_ask
    waive_answers find_waived_id waiver_matches type_matches to_waived is_satisfied subject
    test_case_name policies_satisfied summary satisfied_requirements unsatisfied_requirements
    summarize_answers satisfied_is_test summary_text is_test_result to_json create_subject
    create_subject_type
machine = tt

abbrev reported : String → String → List (String × Json) → Object
reported type testcase rest = of_entries (
    ("type", str type)
    ∷ ("testcase", str testcase)
    ∷ ("subject_type", str "koji_build")
    ∷ ("subject_identifier", str "python-ansi2html-1.1.1-114.el8")
    ∷ rest)

-- One result has passed, the other is waived, and the remote rule file is there.
abbrev pub response : DecisionResponse
response = record {
  policies_satisfied = true;
  summary = "All required tests (2 total) have passed or been waived";
  satisfied_requirements =
      reported "test-result-passed" "dist.abicheck"
        (("source", null) ∷ ("result_id", num 1) ∷ ("scenario", str "bios") ∷ [])
      ∷ reported "test-result-failed-waived" "dist.abicheck" (
          ("source", null)
          ∷ ("result_id", num 2)
          ∷ ("scenario", str "bios")
          ∷ ("waiver_id", num 256)
          ∷ [])
      ∷ reported "fetched-gating-yaml" "fetched-gating-yaml" (("source", str url) ∷ [])
      ∷ [];
  unsatisfied_requirements = [];
  applicable_policies = some (some "taskotron" ∷ []);
  results = some (passed ∷ failed ∷ []);
  waivers = some (waiver ∷ []);
}

request_runs : make_decision app request ≡ ok response
unfolding machine
request_runs = refl

make_decision-Consistent_example : Consistent request response
make_decision-Consistent_example = make_decision-Consistent app request response request_runs

make_decision_valid_example :
    (asks_once request ≡ true)
    × (is_flag (lookup "verbose" request) ≡ true)
    × (all is_ok (decision_subjects app.subject_types request) ≡ true)
make_decision_valid_example = make_decision_valid app request response request_runs

make_decision-satisfied_iff_example :
    (options : Options) × (d : Decision) × (waivers : List Waiver) × (on_demand_policies app request
      ≡ ok options.on_demand)
    × (verbose_of request ≡ ok options.verbose)
    × (read_options app request options.verbose options.on_demand ≡ ok options)
    × (subjects_checked app request options ≡ ok d)
    × (fetch_waivers (services_for app options) (filters_to_ask d) ≡ ok waivers)
    × (true ≡ all (covered waivers) d.answers)
make_decision-satisfied_iff_example = make_decision-satisfied_iff app request response request_runs

-- With rules of its own, a request may not name a decision context.
abbrev two_ways : Object
two_ways = of_entries (
    ("product_version", str "rhel-8")
    ∷ ("decision_context", str "osci_compose_gate")
    ∷ ("rules", arr (cons (obj (of_entries (("type", str "RemoteRule") ∷ []))) nil))
    ∷ [])

make_decision_refused_example :
    (e : Error) × (make_decision app two_ways ≡ raise e) × (refuses two_ways e ≡ true)
unfolding contexts_of
make_decision_refused_example = make_decision_refused app two_ways refl

-- Two builds, checked verbosely.
abbrev builds : List Subject
builds = build ∷ record build { item = "python-six-1.2-3.el8" } ∷ []

abbrev checked : Result Decision
checked =
    check_subjects services (local_policy ∷ []) (map ok builds)
      (new_decision ("osci_compose_gate" ∷ []) "rhel-8" true)

abbrev decision_in : Result Decision → Decision
decision_in (ok d) = d
decision_in (raise e) = new_decision [] "" false

builds_checked : checked ≡ ok (decision_in checked)
unfolding machine
builds_checked = refl

check_subjects-each_example :
    ((decision_in checked).answers
      ≡ answers_alone services (local_policy ∷ []) ("osci_compose_gate" ∷ []) "rhel-8" builds)
    × ((decision_in checked).applicable_policies
        ≡ policies_alone services (local_policy ∷ []) ("osci_compose_gate" ∷ []) "rhel-8" builds)
check_subjects-each_example =
    check_subjects-each services (local_policy ∷ []) ("osci_compose_gate" ∷ []) "rhel-8" true builds
      (decision_in checked) builds_checked

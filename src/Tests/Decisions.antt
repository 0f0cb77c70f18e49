-- ===== src/Tests/Decisions.antt =====
-- Waivers, decisions and summaries.
use mathlib.Core.List.Perm
use greenwave.Prelude.{◌≡◌, refl, true, false, List, [], ◌∷◌, none, some, all, All, nat_eq}
use greenwave.Outcome.{ok}
use greenwave.Subject.{type_matches}
use greenwave.Answer.{
  Answer, satisfied, unsatisfied, is_satisfied, is_test_result, to_waived, subject, test_case_name,
  test_result_passed, test_result_failed, fetched_remote_rule_yaml,
}
use greenwave.Waiver.{waiver_matches, find_waived_id, waive_answers}
use greenwave.Waiver.Laws.{covered, all_satisfied_iff_covered}
use greenwave.Decision.{
  Decision, collect_filters, filters_to_ask, fetch_waivers, waive, subject_policies, check_policies,
  check, note_verbose,
}
use greenwave.Decision.Waiving.{DistinctFilters, Asked, collect_filters_complete, waived}
use greenwave.Summary.{
  append_all, empty_summary, summary_text, satisfied_is_test, summarize_answers,
}
use greenwave.Summary.Counts.{times, unsatisfied_answers, test_answers, summary_counts}
use greenwave.Summary.Permuted.{summarize_answers-perm}
use greenwave.Tests.Rules.{program, url}
use greenwave.Tests.Samples.{
  build, local_policy, services, waiver, missing_result, passed_result, sample_answers, decision,
}

summary_runs :
    summarize_answers sample_answers
    ≡ "1 error due to missing remote rule file. Of 2 required tests, 1 result missing"
unfolding summarize_answers is_test_result satisfied_is_test summary_text
summary_runs = refl

all_satisfied_iff_covered_example :
    all is_satisfied (waive_answers sample_answers (waiver ∷ []))
    ≡ all (covered (waiver ∷ [])) sample_answers
all_satisfied_iff_covered_example = all_satisfied_iff_covered sample_answers (waiver ∷ [])

waived_runs : all is_satisfied (waive_answers (missing_result ∷ []) (waiver ∷ [])) ≡ true
unfolding waive_answers find_waived_id waiver_matches type_matches to_waived is_satisfied subject
    test_case_name
waived_runs = refl

waive_runs : waive services decision ≡ ok (waived decision (waiver ∷ []))
unfolding waive fetch_waivers filters_to_ask collect_filters subject test_case_name
waive_runs = refl

collect_filters_complete_example :
    All (Asked "rhel-8" (collect_filters "rhel-8" sample_answers [])) sample_answers
    × DistinctFilters (collect_filters "rhel-8" sample_answers [])
collect_filters_complete_example = collect_filters_complete "rhel-8" sample_answers [] tt

abbrev fresh : Decision
fresh = record decision { answers = [] }

no_policies : subject_policies services fresh build [] ≡ ok []
unfolding subject_policies
no_policies = refl

one_policy : subject_policies services fresh build (local_policy ∷ []) ≡ ok (local_policy ∷ [])
unfolding subject_policies program
one_policy = refl

abbrev policy_answers : List Answer
policy_answers =
    satisfied (test_result_passed build "dist.abicheck" none 1 (("scenario", some "bios") ∷ []))
    ∷ unsatisfied (test_result_failed build "dist.abicheck" none 2 (("scenario", some "bios") ∷ []))
    ∷ satisfied (fetched_remote_rule_yaml build url)
    ∷ []

check_runs :
    check services fresh build (local_policy ∷ [])
    ≡ ok (record fresh { answers = policy_answers; applicable_policies = local_policy ∷ [] })
unfolding check note_verbose subject_policies check_policies program
check_runs = refl

summary_counts_example :
    (times "result{s} missing" (append_all empty_summary sample_answers).test_msgs
      ≡ unsatisfied_answers true "result{s} missing" sample_answers)
    × (times "result{s} missing" (append_all empty_summary sample_answers).non_test_msgs
        ≡ unsatisfied_answers false "result{s} missing" sample_answers)
    × ((append_all empty_summary sample_answers).test_count ≡ test_answers sample_answers)
summary_counts_example = summary_counts sample_answers "result{s} missing"

all_passed : all is_satisfied (passed_result ∷ []) ≡ true
unfolding is_satisfied
all_passed = refl

summarize_answers-perm_example :
    summarize_answers (passed_result ∷ missing_result ∷ [])
    ≡ summarize_answers (missing_result ∷ passed_result ∷ [])
summarize_answers-perm_example =
    summarize_answers-perm (passed_result ∷ missing_result ∷ [])
      (missing_result ∷ passed_result ∷ []) (Perm.swap _ _ [])

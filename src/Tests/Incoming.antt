-- ===== src/Tests/Incoming.antt =====
-- A message about a result.
use greenwave.Prelude.{◌≡◌, refl, [], ◌∷◌, ◌++◌, pair_order, string_order}
use greenwave.Prelude.Sorting.{insert_sorted}
use greenwave.Outcome.{ok}
use greenwave.Json.{str, arr, obj, cons, nil, Object, of_entries}
use greenwave.Subject.Factory.{create_subject_from_data}
use greenwave.Subject.{short_product_version}
use greenwave.Policy.Matching.Pairs.{each_version, versions_of, policies_pairs, applicable_pairs}
use greenwave.Subject.Requested.{text_entries}
use greenwave.Consumers.{publish_decision_change}
use greenwave.Announcement.{
  unpack_value, get_brew_task_id, at, unpacked, data_of, announcement_subject,
}
use greenwave.Messages.{Handling, for_versions, plan_result, consume_result, consume}
use greenwave.Messages.Considered.{updates_of, consume_result-published}
use greenwave.Tests.Samples.{koji_build, build, local_policy, services}
use greenwave.Tests.Rules.{program}
use greenwave.Tests.Publishing.{publishing, environment, nothing}
use greenwave.Tests.Versions.{versions, faulty, patterns}

abbrev pub handling : Handling
handling = record {
  subject_types = koji_build ∷ [];
  policies = local_policy ∷ [];
  services = services;
  patterns = patterns;
  koji = faulty;
  environment = λ s. environment;
}

abbrev pub new_result : Object
new_result = of_entries (
    ("testcase", obj (of_entries (("name", str "dist.abicheck") ∷ [])))
    ∷ ("submit_time", str "2020-02-07T03:14:43.076427")
    ∷ ("outcome", str "PASSED")
    ∷ ("data", obj (of_entries (("original_spec_nvr", arr (cons (str build.item) nil)) ∷ [])))
    ∷ [])

unfoldable incoming : Unit {0}
unfolding program publishing versions applicable_pairs policies_pairs each_version versions_of
    insert_sorted create_subject_from_data short_product_version text_entries
    publish_decision_change unpack_value get_brew_task_id at unpacked data_of announcement_subject
    for_versions plan_result consume_result consume
incoming = tt

consume_result_runs : (consume_result handling new_result nothing).1 ≡ ok tt
unfolding incoming
consume_result_runs = refl

consume_result-published_example :
    (consume_result handling new_result nothing).0.published
    ≡ [] ++ updates_of handling (plan_result handling new_result)
consume_result-published_example =
    consume_result-published handling new_result nothing consume_result_runs

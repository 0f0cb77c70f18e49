-- ===== src/Tests/Versions.antt =====
-- Product versions and the builds of Koji.
use greenwave.Prelude.{◌≡◌, refl, String, true, false, [], ◌∷◌, none, some, arith, string_eq}
use greenwave.Outcome.{ok}
use greenwave.Answer.{unsatisfied, failed_fetch_remote_rule_yaml}
use greenwave.Policy.Remote.{needs_scm, get_sub_policies}
use greenwave.Resources.Koji.Unknown.{get_sub_policies-unknown}
use greenwave.Json.{num, str, arr, obj, cons, nil, of_entries, null}
use greenwave.Prelude.Sorting.{sort}
use greenwave.Prelude.Sets.{unique}
use greenwave.Decimal.{show, read, is_digit}
use greenwave.Resources.Koji.{
  Koji, answered, fault, retrieve_scm_from_koji_build, retrieve_koji_build_attributes,
  retrieve_koji_build_task_id, retrieve_koji_build_target, with_koji,
}
use greenwave.Resources.Koji.Urls.{retrieve_scm_from_koji_build-git}
use greenwave.ProductVersions.{
  Patterns, product_versions, matching_product_versions, product_versions_from_koji_build_target,
  task_of, koji_product_versions, guess_koji_build_product_versions, guessed_product_versions,
  subject_product_versions, guess_product_versions, product_version_number_or_none, split_digits,
  split_dashes, product_of, has_prefix, has_digit_after, short_versions,
}
use greenwave.ProductVersions.Guessed.{guess_product_versions-show}
use greenwave.ProductVersions.Fallback.{subject_product_versions-Faulty}
use greenwave.Tests.Samples.{build, formats, remote_policy, services}

abbrev source : String
source = "git+https://src.example.com/rpms/python-ansi2html.git#abc"

abbrev pub koji : Koji
koji = record {
  url = "https://koji.example.com";
  get_build = λ nvr. answered (obj (of_entries (("task_id", num 7) ∷ ("source", str source) ∷ [])));
  get_task_request = λ id. answered (arr (cons (str source) (cons (str "f35-build") nil)));
  url_path = λ s. "/rpms/python-ansi2html.git";
  url_fragment = λ s. "abc";
  formats = formats;
  now = 20;
  get_page =
      λ url. record { is_ok = true; status_code = "200"; url = url; text = ""; payload = "" };
}

abbrev pub faulty : Koji
faulty = record koji {
  get_build = λ nvr. fault "no such build" "1000";
  get_task_request = λ id. fault "no such task" "1000";
}

abbrev pub patterns : Patterns
patterns = record { is_match = λ pattern text. false; sub = λ pattern replacement text. text }

abbrev unknowing : Koji
unknowing = record koji { get_build = λ nvr. answered null }

unfoldable pub versions : Unit {0}
unfolding product_versions matching_product_versions product_versions_from_koji_build_target task_of
    koji_product_versions guess_koji_build_product_versions guessed_product_versions
    subject_product_versions guess_product_versions product_version_number_or_none split_digits
    split_dashes product_of has_prefix has_digit_after short_versions retrieve_koji_build_attributes
    retrieve_koji_build_task_id retrieve_koji_build_target sort unique show read is_digit
versions = tt

-- The target of the build counts before its release.
target_counts : subject_product_versions patterns (some koji) none build ≡ ok ("fedora-35" ∷ [])
unfolding versions
target_counts = refl

subject_product_versions-Faulty_example :
    subject_product_versions patterns (some faulty) none build
    ≡ subject_product_versions patterns none none build
subject_product_versions-Faulty_example =
    subject_product_versions-Faulty patterns faulty none build (λ nvr. tt, λ id. tt)

guess_product_versions-show_example :
    (guess_product_versions "el8" false ≡ "rhel-8" ∷ [])
    × (guess_product_versions "epel8" false ≡ "epel-8" ∷ [])
    × (guess_product_versions "fc8" false ≡ "fedora-8" ∷ [])
    × (guess_product_versions "f8" true ≡ "fedora-8" ∷ [])
unfolding show
guess_product_versions-show_example = guess_product_versions-show 8 (omega arith)

get_sub_policies-unknown_example :
    get_sub_policies
      (with_koji unknowing services)
      ("https://git/{pkg_name}/gating.yaml" ∷ [])
      true
      remote_policy
      build
    ≡ ok (
      [],
      unsatisfied (
            failed_fetch_remote_rule_yaml build []
              "Koji build not found for subject_type 'koji_build', subject_identifier 'python-ansi2html-1.1.1-114.el8'")
          ∷ [],
    )
unfolding needs_scm
get_sub_policies-unknown_example =
    get_sub_policies-unknown unknowing services "https://git/{pkg_name}/gating.yaml" [] true
      remote_policy build refl refl

retrieve_scm_from_koji_build-git_example :
    retrieve_scm_from_koji_build koji build.item (some (str source))
    ≡ ok (record { namespace = "rpms"; pkg_name = "python-ansi2html"; rev = "abc" })
retrieve_scm_from_koji_build-git_example =
    retrieve_scm_from_koji_build-git koji build.item source "" "rpms" "python-ansi2html" "abc" refl
      refl refl refl (omega arith) (omega arith)

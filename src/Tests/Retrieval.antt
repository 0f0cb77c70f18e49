-- ===== src/Tests/Retrieval.antt =====
-- The results retriever.
use greenwave.Prelude.{
  false, String, ◌≡◌, refl, sym, ◌∙◌, subst, arith, true, Bool, List, [], ◌∷◌, Option, none, some,
  ◌==◌, string_eq, if◌then◌else◌, All,
}
use text.Mathlib.TextLemmas.{append_cancel_left}
use greenwave.Outcome.{ok}
use greenwave.Json.{Json, lookup, lookup-assign, str}
use greenwave.Subject.{Subject, result_queries}
use greenwave.Resources.{
  Response, Server, Retriever, Caches, retrieve_data, add_params, fetch_queries, fetch,
  new_retriever, results_match_time, external_hit, keep_passed, retrieve_testcase, retrieve_subject,
  retrieve_all, retrieve_results, external_key, retrieve_waivers, request_key,
}
use greenwave.Resources.Fetched.{Filters, Unnamed}
use greenwave.Resources.Fresh.{Fresh}
use greenwave.Resources.Cached.{retrieve_each, fetch_each, retrieve_each-fetch_each}
use greenwave.Resources.Shared.{OnlyPassing, retrieve_all-OnlyPassing, retrieve_all-retrieve_all}
use greenwave.Tests.Samples.{waiver, koji_build, build, passed, failed, config}

unfoldable pub retrieval : Unit {0}
unfolding result_queries retrieve_data add_params fetch_queries fetch new_retriever
    results_match_time external_hit keep_passed retrieve_testcase retrieve_subject retrieve_all
    retrieve_results
retrieval = tt

abbrev respond {ℓ} : {A : Type ℓ} → A → Response A
respond payload = record {
  is_ok = true;
  status_code = "200";
  url = "";
  text = "";
  payload = payload;
}

-- A server with one result, which it gives unless the query is for another test case.
abbrev named_in : Option Json → Bool
named_in (some (str testcase)) = "dist.abicheck" == testcase
named_in _ = true

abbrev server : Server
server = record {
  latest = λ query. respond (if named_in (lookup "testcases" query) then passed ∷ [] else []);
  filtered = λ since filters. respond [];
}

abbrev now : Retriever
now = record { ignore_ids = []; since = none }

abbrev fresh : Caches
fresh = record { request = []; external = [] }

retrieve_all_runs :
    retrieve_all config server now build (some "dist.abicheck") fresh
    ≡ ok (
      passed ∷ [],
      record {
        request = [];
        external =
            (
              "greenwave.resources:ResultsRetriever|koji_build python-ansi2html-1.1.1-114.el8 dist.abicheck",
              passed ∷ [],
            )
            ∷ [];
      },
    )
unfolding retrieval
retrieve_all_runs = refl

-- The one subject that the calls are about.
abbrev IsBuild : Subject → Type 0
IsBuild s = s ≡ build

server-Filters : Filters server
unfolding retrieve_data
server-Filters query testcase plain named =
    rw (lookup-assign "testcases" "testcases" (str testcase) query, plain)

build_keys :
    (s s' : Subject) (testcase testcase' : String)
    → IsBuild s
    → IsBuild s'
    → external_key s testcase ≡ external_key s' testcase'
    → (s ≡ s') × (testcase ≡ testcase')
build_keys s s' testcase testcase' one two same =
    let same_build : external_key build testcase ≡ external_key build testcase' =
      subst (λ z. external_key build testcase ≡ external_key z testcase') two
        (subst (λ z. external_key z testcase ≡ external_key s' testcase') one same) in
    (
      one ∙ sym two,
      append_cancel_left " " _ _ (
          append_cancel_left build.item _ _ (
            append_cancel_left " " _ _ (
              append_cancel_left koji_build.id _ _
                (append_cancel_left "greenwave.resources:ResultsRetriever|" _ _ same_build)))),
    )

build_subjects : (s s' : Subject) → IsBuild s → IsBuild s' → request_key s ≡ request_key s' → s ≡ s'
build_subjects s s' one two same = one ∙ sym two

build_plain : (s : Subject) → IsBuild s → All Unnamed (result_queries s)
unfolding result_queries
build_plain s one = subst (λ z. All Unnamed (result_queries z)) (sym one) (refl, tt)

fresh-Fresh : Fresh config server now IsBuild fresh
fresh-Fresh = record {
  whole = λ s results known found. absurd (ground arith);
  named = λ s testcase results known found. absurd (ground arith);
}

abbrev calls : List (Subject × Option String)
calls =
    (build, some "dist.abicheck")
    ∷ (build, some "other")
    ∷ (build, none)
    ∷ (build, some "other")
    ∷ []

-- The last call finds all results of the subject in the cache of the retriever.
retrieve_each-fetch_each_example :
    retrieve_each config server now calls fresh ≡ fetch_each config server now calls
retrieve_each-fetch_each_example =
    retrieve_each-fetch_each config server now IsBuild build_keys build_subjects build_plain
      server-Filters calls fresh (refl, (refl, (refl, (refl, tt)))) fresh-Fresh

abbrev kept : Caches
kept = record { request = []; external = (external_key build "dist.abicheck", passed ∷ []) ∷ [] }

retrieve_all-OnlyPassing_example : OnlyPassing config kept.external
retrieve_all-OnlyPassing_example =
    retrieve_all-OnlyPassing config server now build (some "dist.abicheck") fresh kept (passed ∷ [])
      retrieve_all_runs tt

-- A request for an earlier time, and one for now when the test has failed since.
abbrev earlier : Retriever
earlier = new_retriever [] (some "2020-03-01T00:00:00.000000")

abbrev failing : Server
failing = record server { latest = λ query. respond (failed ∷ []) }

retrieve_all-retrieve_all_example :
    (shared : Caches) × (retrieve_all config server earlier build (some "dist.abicheck") fresh
      ≡ ok (passed ∷ [], shared))
    × (retrieve_all config failing now build (some "dist.abicheck") (record shared { request = [] })
        ≡ ok (passed ∷ [], record shared { request = [] }))
unfolding retrieval
retrieve_all-retrieve_all_example =
    retrieve_all-retrieve_all config server failing earlier now build "dist.abicheck" passed []
      fresh refl refl refl refl refl refl

-- WaiverDB has the waiver, the waiver withdrawn, and another one.
abbrev waiverdb : Server
waiverdb = record server {
  filtered = λ since filters.
      respond
        (waiver ∷ record waiver { id = 257; waived = false } ∷ record waiver { id = 258 } ∷ []);
}

abbrev ignoring : Retriever
ignoring = new_retriever (258 ∷ []) none

retrieve_waivers_runs : retrieve_waivers config waiverdb ignoring [] ≡ ok (waiver ∷ [])
unfolding retrieval retrieve_waivers
retrieve_waivers_runs = refl

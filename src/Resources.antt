-- ===== src/Resources.antt =====
-- resources.py: the retrievers of results and waivers with their two caches. HTTP requests are functions
-- of `Server`; the calls hand the caches on, and an exception ends the request.
pub mod Fetched
pub mod Fresh
pub mod Cached
pub mod Shared
pub mod Retrieved
pub mod Koji
use Prim.Native.Char.{code}
use Prim.Native.String
use greenwave.Prelude.{
  ℕ, String, Bool, true, false, not, ◌&&◌, List, [], ◌∷◌, ◌++◌, Option, none, some, Dict, get, put,
  ◌==◌, nat_eq, string_eq, pair_eq, elem, all, select, is_empty, given, truthy, join, ◌<>◌,
  string_order, if◌then◌else◌,
}
use greenwave.Outcome.{Result, ok, raise, bad_gateway, ◌>>=◌}
use greenwave.Json.{Object, str, assign}
use greenwave.Subject.{Subject, result_queries}
use greenwave.Waiver.{Waiver, WaiverFilter}
use greenwave.Policy.Services.{Config, TestResult}

-- A response; the payload is the value under "data" in its body.
pub record Response {ℓ} (A : Type ℓ) : Type ℓ where
  pub is_ok : Bool
  pub status_code : String
  pub url : String
  pub text : String
  pub payload : A

-- `_raise_for_status`, and the data after it.
unfoldable pub retrieve_data {ℓ} : {A : Type ℓ} → Response A → Result A
retrieve_data response =
    if response.is_ok
    then ok response.payload
    else raise (
        bad_gateway (
          "Got unexpected status code " <> response.status_code <> " for " <> response.url <> ": "
          <> response.text))

-- ResultsDB and WaiverDB: the answers to `GET /results/latest` with these parameters, and to
-- `POST /waivers/+filtered` with these filters and the value of `since` that each gets.
pub record Server : Type 0 where
  pub latest : Object → Response (List TestResult)
  pub filtered : Option String → List WaiverFilter → Response (List Waiver)

-- `BaseRetriever`
pub record Retriever : Type 0 where
  pub ignore_ids : List ℕ
  pub since : Option String

unfoldable pub new_retriever : List ℕ → Option String → Retriever
new_retriever ignore_ids none = record { ignore_ids = ignore_ids; since = none }
new_retriever ignore_ids (some when) = record {
  ignore_ids = ignore_ids;
  since = if truthy when then some ("1900-01-01T00:00:00.000000," <> when) else none;
}

-- The cache of the retriever, by subject type and identifier, and the cache that the requests share,
-- by key.
pub record Caches : Type 0 where
  pub request : Dict (String × String) (List TestResult)
  pub external : Dict String (List TestResult)

abbrev pub Caching {ℓ} : Type ℓ → Type ℓ
Caching A = Caches → Result (A × Caches)

-- The text up to the first comma, and the second part of `text.split(",")`.
abbrev up_to_comma : String → String
up_to_comma String.[] = ""
up_to_comma (String.◌∷◌ c s) = if code c == 44 then "" else String.◌∷◌ c (up_to_comma s)

abbrev second_part : String → String
second_part String.[] = ""
second_part (String.◌∷◌ c s) = if code c == 44 then up_to_comma s else second_part s

-- `_results_match_time`
unfoldable pub results_match_time : Option String → List TestResult → Bool
results_match_time none results = true
results_match_time (some since) results =
    all (λ r. not (string_order.leq (second_part since) r.submit_time)) results

abbrev pub request_key : Subject → String × String
request_key s = (s.subject_type.id, s.item)

abbrev pub external_key : Subject → String → String
external_key s testcase =
    "greenwave.resources:ResultsRetriever|" <> s.subject_type.id <> " " <> s.item <> " " <> testcase

abbrev pub of_testcase : String → List TestResult → List TestResult
of_testcase testcase results = select (λ r. r.testcase == testcase) results

abbrev pub all_passed : Config → List TestResult → Bool
all_passed config results = all (λ r. elem r.outcome config.outcomes_passed) results

module _ (config : Config) (server : Server) (r : Retriever) where
  abbrev pub with_since : Option String → Object → Object
  with_since none query = query
  with_since (some since) query = assign "since" (str since) query

  abbrev with_testcase : Option String → Object → Object
  with_testcase none query = query
  with_testcase (some testcase) query =
      if truthy testcase then assign "testcases" (str testcase) query else query

  -- `query.update(params)`
  unfoldable pub add_params : Option String → Object → Object
  add_params testcase query = with_testcase testcase (
      with_since r.since
        (assign "_distinct_on" (str (join "," config.distinct_latest_results_on)) query))

  -- The loop over the queries.
  unfoldable pub fetch_queries : Option String → List Object → Result (List TestResult)
  fetch_queries testcase [] = ok []
  fetch_queries testcase (query ∷ rest) = do
    results ← retrieve_data (server.latest (add_params testcase query))
    more ← fetch_queries testcase rest
    ok (results ++ more)

  -- What ResultsDB answers.
  unfoldable pub fetch : Subject → Option String → Result (List TestResult)
  fetch s testcase = fetch_queries testcase (result_queries s)

  -- A hit in the shared cache: results that are not too late for the request.
  unfoldable pub external_hit : String → Caches → Option (List TestResult)
  external_hit key caches = elim (get key caches.external) [
    | none ↦ none
    | some results ↦
        if not (is_empty results) && results_match_time r.since results then some results else none
  ]

  -- What follows the request for one test case.
  unfoldable pub keep_passed : String → List TestResult → Caches → Caches
  keep_passed key results caches =
      if all_passed config results
      then record caches { external = put key results caches.external }
      else caches

  unfoldable pub retrieve_testcase : Subject → String → Caching (List TestResult)
  retrieve_testcase s testcase caches = elim (get (request_key s) caches.request) [
    | some results ↦ ok (of_testcase testcase results, caches)
    | none ↦ elim (external_hit (external_key s testcase) caches) [
      | some results ↦ ok (results, caches)
      | none ↦ do
        results ← fetch s (some testcase)
        ok (results, keep_passed (external_key s testcase) results caches)
    ]
  ]

  unfoldable pub retrieve_subject : Subject → Option String → Caching (List TestResult)
  retrieve_subject s testcase caches = do
    results ← fetch s testcase
    ok (results, record caches { request = put (request_key s) results caches.request })

  -- `ResultsRetriever._retrieve_all`
  unfoldable pub retrieve_all : Subject → Option String → Caching (List TestResult)
  retrieve_all s none caches = retrieve_subject s none caches
  retrieve_all s (some testcase) caches =
      if truthy testcase
      then retrieve_testcase s testcase caches
      else retrieve_subject s (some testcase) caches

  abbrev pub not_ignored : List TestResult → List TestResult
  not_ignored results = select (λ result. not (elem result.id r.ignore_ids)) results

  -- `BaseRetriever.retrieve`, for results and for waivers.
  unfoldable pub retrieve_results : Subject → Option String → Caching (List TestResult)
  retrieve_results s testcase caches = do
    (results, caches') ← retrieve_all s testcase caches
    ok (not_ignored results, caches')

  unfoldable pub retrieve_waivers : List WaiverFilter → Result (List Waiver)
  retrieve_waivers filters = do
    waivers ← retrieve_data (server.filtered r.since filters)
    ok (select (λ w. not (elem w.id r.ignore_ids)) (select (λ w. w.waived) waivers))

-- ===== src/Resources/Fetched.antt =====
-- resources.py: what the queries for one test case and for all test cases of a subject have to do with
-- each other, without caches.
use greenwave.Prelude.{
  select, String, true, false, List, [], ◌∷◌, ◌++◌, Option, none, some, join, ◌==◌, string_eq,
  pair_eq, select-append, truthy, ◌≡◌, refl, ap, ◌∙◌, All,
}
use greenwave.Outcome.{Result, ok, raise, ◌>>=◌}
use greenwave.Json.{Object, str, assign, lookup, lookup-assign}
use greenwave.Subject.{Subject, result_queries}
use greenwave.Policy.Services.{Config, TestResult}
use greenwave.Resources.{
  Server, Retriever, retrieve_data, add_params, fetch_queries, fetch, with_since,
}

-- The results of one test case among those of an answer.
abbrev pub only : String → Result (List TestResult) → Result (List TestResult)
only testcase (raise e) = raise e
only testcase (ok results) = ok (select (λ r. r.testcase == testcase) results)

-- A query that names no test case.
abbrev pub Unnamed : Object → Type 0
Unnamed query = lookup "testcases" query ≡ none

-- ResultsDB answers a query for one test case with its results among those for all test cases.
abbrev pub Filters : Server → Type 0
Filters server =
    (query : Object) (testcase : String)
    → Unnamed query
    → truthy testcase ≡ true
    → retrieve_data (server.latest (assign "testcases" (str testcase) query))
      ≡ only testcase (retrieve_data (server.latest query))

only-bind :
    (testcase : String) (m n : Result (List TestResult))
    → only testcase (m >>= λ results. n >>= λ more. ok (results ++ more))
      ≡ (only testcase m >>= λ results. only testcase n >>= λ more. ok (results ++ more))
only-bind testcase (raise e) n = refl
only-bind testcase (ok results) (raise e) = refl
only-bind testcase (ok results) (ok more) =
    ap ok (select-append (λ r. r.testcase == testcase) results more)

module _ (config : Config) (server : Server) (r : Retriever) where
  with_since-Unnamed :
      (since : Option String) (query : Object)
      → Unnamed query
      → Unnamed (with_since config server r since query)
  with_since-Unnamed none query plain = plain
  with_since-Unnamed (some since) query plain =
      lookup-assign "testcases" "since" (str since) query ∙ plain

  add_params-Unnamed :
      (query : Object) → Unnamed query → Unnamed (add_params config server r none query)
  unfolding add_params
  add_params-Unnamed query plain =
      let distinct = str (join "," config.distinct_latest_results_on) in
      with_since-Unnamed r.since (assign "_distinct_on" distinct query)
        (lookup-assign "testcases" "_distinct_on" distinct query ∙ plain)

  fetch_queries-only :
      (filters : Filters server) (testcase : String) (queries : List Object)
      → All Unnamed queries
      → truthy testcase ≡ true
      → fetch_queries config server r (some testcase) queries
        ≡ only testcase (fetch_queries config server r none queries)
  unfolding fetch_queries add_params
  fetch_queries-only filters testcase [] plain named = refl
  fetch_queries-only filters testcase (query ∷ rest) plain named = rw (
    named,
    filters (add_params config server r none query) testcase (add_params-Unnamed query plain.0)
        named,
    fetch_queries-only filters testcase rest plain.1 named,
    only-bind testcase (retrieve_data (server.latest (add_params config server r none query)))
        (fetch_queries config server r none rest),
  )

  fetch_queries-unnamed :
      (testcase : String) (queries : List Object)
      → truthy testcase ≡ false
      → fetch_queries config server r (some testcase) queries
        ≡ fetch_queries config server r none queries
  unfolding fetch_queries add_params
  fetch_queries-unnamed testcase [] unnamed = refl
  fetch_queries-unnamed testcase (query ∷ rest) unnamed =
      rw (unnamed, fetch_queries-unnamed testcase rest unnamed)

  pub fetch-only :
      (filters : Filters server) (s : Subject) (testcase : String)
      → All Unnamed (result_queries s)
      → truthy testcase ≡ true
      → fetch config server r s (some testcase) ≡ only testcase (fetch config server r s none)
  unfolding fetch
  fetch-only filters s testcase plain named =
      fetch_queries-only filters testcase (result_queries s) plain named

  pub fetch-unnamed :
      (s : Subject) (testcase : String)
      → truthy testcase ≡ false
      → fetch config server r s (some testcase) ≡ fetch config server r s none
  unfolding fetch
  fetch-unnamed s testcase unnamed = fetch_queries-unnamed testcase (result_queries s) unnamed

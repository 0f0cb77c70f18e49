-- ===== src/Resources/Cached.antt =====
-- What the caches of `ResultsRetriever` do to its answers.
use greenwave.Prelude.{
  String, true, List, [], ◌∷◌, Option, none, some, get, put, string_eq, pair_eq, truthy, Bool-cases,
  Option-cases, ◌≡◌, refl, sym, ◌∙◌, subst, inl, inr, ◌⊎◌, arith, All,
}
use greenwave.Outcome.{Result-cases, Result, ok, raise, Error, ◌>>=◌}
use greenwave.Subject.{Subject, result_queries}
use greenwave.Policy.Services.{Config, TestResult}
use greenwave.Resources.{
  Server, Retriever, Caches, fetch, external_key, request_key, external_hit, keep_passed,
  retrieve_testcase, retrieve_subject, retrieve_all, of_testcase,
}
use greenwave.Resources.Fresh.{Fresh, put-whole, keep_passed-Fresh}
use greenwave.Resources.Fetched.{Unnamed, Filters, fetch-only, fetch-unnamed}

module _ (config : Config) (server : Server) (r : Retriever) where
  -- The calls of `retrieve_all` in a row, without the filter on identifiers.
  unfoldable pub retrieve_each :
      List (Subject × Option String) → Caches → Result (List (List TestResult))
  retrieve_each [] caches = ok []
  retrieve_each ((s, testcase) ∷ rest) caches = do
    (results, caches') ← retrieve_all config server r s testcase caches
    more ← retrieve_each rest caches'
    ok (results ∷ more)

  -- The same calls without caches.
  unfoldable pub fetch_each : List (Subject × Option String) → Result (List (List TestResult))
  fetch_each [] = ok []
  fetch_each ((s, testcase) ∷ rest) = do
    results ← fetch config server r s testcase
    more ← fetch_each rest
    ok (results ∷ more)

  external_hit-get :
      (key : String) (caches : Caches) (results : List TestResult)
      → external_hit config server r key caches ≡ some results
      → get key caches.external ≡ some results
  unfolding external_hit
  external_hit-get key caches results hit = ground arith

  pub retrieve_testcase-missed :
      (s : Subject) (testcase : String) (results : List TestResult) (caches : Caches)
      → get (request_key s) caches.request ≡ none
      → external_hit config server r (external_key s testcase) caches ≡ none
      → fetch config server r s (some testcase) ≡ ok results
      → retrieve_testcase config server r s testcase caches
        ≡ ok (results, keep_passed config server r (external_key s testcase) results caches)
  unfolding retrieve_testcase
  retrieve_testcase-missed s testcase results caches absent missing fetched =
      rw (absent, missing, fetched, retrieve_testcase)

  -- A call with these caches raises as ResultsDB does, or returns what ResultsDB answers.
  module _ (Known : Subject → Type 0) where
    abbrev Agrees : Result (List TestResult) → Result (List TestResult × Caches) → Type 0
    Agrees want out =
        ((e : Error) × (want ≡ raise e) × (out ≡ raise e))
        ⊎ ((results : List TestResult) × (caches : Caches) × (want ≡ ok results)
            × (out ≡ ok (results, caches))
            × Fresh config server r Known caches)

    -- Different requests have different keys, and no query of a type names a test case.
    module _
        (keys_apart : (s s' : Subject) (testcase testcase' : String)
          → Known s
          → Known s'
          → external_key s testcase ≡ external_key s' testcase'
          → (s ≡ s') × (testcase ≡ testcase'))
        (subjects_apart : (s s' : Subject)
          → Known s
          → Known s'
          → request_key s ≡ request_key s'
          → s ≡ s')
        (plain : (s : Subject) → Known s → All Unnamed (result_queries s)) where
      retrieve_testcase-Agrees :
          Filters server
          → (s : Subject) (testcase : String) (caches : Caches) → truthy testcase ≡ true
          → Known s
          → Fresh config server r Known caches
          → Agrees
              (fetch config server r s (some testcase))
              (retrieve_testcase config server r s testcase caches)
      unfolding retrieve_testcase
      retrieve_testcase-Agrees filters s testcase caches named known fresh =
          elim (Option-cases (get (request_key s) caches.request)) [
            | inr (results, kept) ↦ inr (
              of_testcase testcase results,
              caches,
              rw (
                fetch-only config server r filters s testcase (plain s known) named,
                fresh.whole s results known kept,
              ),
              rw (kept, retrieve_testcase),
              fresh,
            )
            | inl absent ↦
                elim (Option-cases
                  (external_hit config server r (external_key s testcase) caches)) [
                    | inr (results, hit) ↦ inr (
                      results,
                      caches,
                      fresh.named s testcase results known
                          (external_hit-get (external_key s testcase) caches results hit),
                      rw (absent, hit, retrieve_testcase),
                      fresh,
                    )
                    | inl missing ↦ elim (Result-cases (fetch config server r s (some testcase))) [
                      | inr (e, raised) ↦
                          inl (e, raised, rw (absent, missing, raised, retrieve_testcase))
                      | inl (results, fetched) ↦ inr (
                        results,
                        keep_passed config server r (external_key s testcase) results caches,
                        fetched,
                        retrieve_testcase-missed s testcase results caches absent missing fetched,
                        keep_passed-Fresh config server r Known keys_apart subjects_apart s testcase
                            results caches known fetched fresh,
                      )
                    ]
                  ]
          ]

      retrieve_subject-Agrees :
          (s : Subject) (testcase : Option String) (caches : Caches)
          → fetch config server r s testcase ≡ fetch config server r s none
          → Known s
          → Fresh config server r Known caches
          → Agrees
              (fetch config server r s testcase)
              (retrieve_subject config server r s testcase caches)
      unfolding retrieve_subject
      retrieve_subject-Agrees s testcase caches same known fresh =
          elim (Result-cases (fetch config server r s testcase)) [
            | inl (results, fetched) ↦ inr (
              results,
              record caches { request = put (request_key s) results caches.request },
              fetched,
              rw fetched,
              put-whole config server r Known keys_apart subjects_apart s results caches known
                  (sym same ∙ fetched) fresh,
            )
            | inr (e, raised) ↦ inl (e, raised, rw raised)
          ]

      retrieve_all-Agrees :
          Filters server
          → (s : Subject) (testcase : Option String) (caches : Caches) → Known s
          → Fresh config server r Known caches
          → Agrees
              (fetch config server r s testcase)
              (retrieve_all config server r s testcase caches)
      unfolding retrieve_all
      retrieve_all-Agrees filters s none caches known fresh =
          retrieve_subject-Agrees s none caches refl known fresh
      retrieve_all-Agrees filters s (some testcase) caches known fresh =
          elim (Bool-cases (truthy testcase)) [
            | inl named ↦
                subst (Agrees (fetch config server r s (some testcase))) (rw named)
                  (retrieve_testcase-Agrees filters s testcase caches named known fresh)
            | inr unnamed ↦ subst (Agrees (fetch config server r s (some testcase))) (rw unnamed) (
                retrieve_subject-Agrees s (some testcase) caches
                  (fetch-unnamed config server r s testcase unnamed) known fresh)
          ]

      -- Calls in a row, where each gets the caches that the one before left, give what ResultsDB
      -- answers to each, if the caches are fresh, the subjects have different keys, the
      -- queries of their types name no test case, and ResultsDB filters by test case.
      pub retrieve_each-fetch_each :
          Filters server
          → (calls : List (Subject × Option String)) (caches : Caches)
          → All (λ call. Known call.0) calls
          → Fresh config server r Known caches
          → retrieve_each calls caches ≡ fetch_each calls
      unfolding retrieve_each fetch_each
      retrieve_each-fetch_each filters [] caches known fresh = refl
      retrieve_each-fetch_each filters ((s, testcase) ∷ rest) caches known fresh =
          elim (retrieve_all-Agrees filters s testcase caches known.0 fresh) [
            | inl (e, raised, same) ↦ rw (raised, same)
            | inr (results, caches', fetched, same, fresh') ↦
                rw (fetched, same, retrieve_each-fetch_each filters rest caches' known.1 fresh')
          ]

-- ===== src/Resources/Shared.antt =====
-- The cache that requests share: what `ResultsRetriever` puts into it, and what the next request
-- finds there.
use greenwave.Prelude.{
  String, true, List, [], ◌∷◌, Option, none, some, Dict, get, put, get-put, ◌==◌, ==_refl,
  string_eq, pair_eq, truthy, Bool-cases, Option-cases, ◌≡◌, refl, sym, ap, ◌∙◌, subst, inl, inr,
}
use greenwave.Outcome.{Result, ok, raise, bind-eq-ok}
use greenwave.Subject.{Subject}
use greenwave.Policy.Services.{Config, TestResult}
use greenwave.Resources.{
  Server, Retriever, Caches, fetch, external_key, request_key, external_hit, keep_passed,
  retrieve_testcase, retrieve_subject, retrieve_all, of_testcase, all_passed, results_match_time,
}
use greenwave.Resources.Cached.{retrieve_testcase-missed}

-- Every entry holds passing results only.
abbrev pub OnlyPassing : Config → Dict String (List TestResult) → Type 0
OnlyPassing config [] = Unit
OnlyPassing config ((key, results) ∷ rest) =
    (all_passed config results ≡ true) × OnlyPassing config rest

put-OnlyPassing :
    (config : Config) (key : String) (results : List TestResult)
    (entries : Dict String (List TestResult))
    → all_passed config results ≡ true
    → OnlyPassing config entries
    → OnlyPassing config (put key results entries)
put-OnlyPassing config key results [] passed h = (passed, tt)
put-OnlyPassing config key results ((k, old) ∷ rest) passed h = elim (Bool-cases (k == key)) [
  | inl same ↦ rw same (passed, h.1)
  | inr other ↦ rw other (h.0, put-OnlyPassing config key results rest passed h.1)
]

after-OnlyPassing :
    (config : Config) {out : Result (List TestResult × Caches)} (results results' : List TestResult)
    (caches after : Caches)
    → out ≡ ok (results, caches)
    → out ≡ ok (results', after)
    → OnlyPassing config caches.external
    → OnlyPassing config after.external
after-OnlyPassing config results results' caches after one two h =
    subst (λ c. OnlyPassing config c.external) (ap (caches_of caches) (sym one ∙ two)) h
  where
    caches_of : Caches → Result (List TestResult × Caches) → Caches
    caches_of default (raise e) = default
    caches_of default (ok (results, c)) = c

module _ (config : Config) (server : Server) (r : Retriever) where
  keep_passed-OnlyPassing :
      (key : String) (results : List TestResult) (caches : Caches)
      → OnlyPassing config caches.external
      → OnlyPassing config (keep_passed config server r key results caches).external
  unfolding keep_passed
  keep_passed-OnlyPassing key results caches h = elim (Bool-cases (all_passed config results)) [
    | inl passed ↦ rw passed (put-OnlyPassing config key results caches.external passed h)
    | inr other ↦ rw other h
  ]

  retrieve_testcase-OnlyPassing :
      (s : Subject) (testcase : String) (before after : Caches) (results : List TestResult)
      → retrieve_testcase config server r s testcase before ≡ ok (results, after)
      → OnlyPassing config before.external
      → OnlyPassing config after.external
  unfolding retrieve_testcase
  retrieve_testcase-OnlyPassing s testcase before after results returned h =
      elim (Option-cases (get (request_key s) before.request)) [
        | inr (kept, found) ↦
            after-OnlyPassing config (of_testcase testcase kept) results before after
              (rw (found, retrieve_testcase)) returned h
        | inl absent ↦
            elim (Option-cases (external_hit config server r (external_key s testcase) before)) [
              | inr (kept, hit) ↦
                  after-OnlyPassing config kept results before after
                    (rw (absent, hit, retrieve_testcase)) returned h
              | inl missing ↦
                  let (fetched, asked, same) =
                    bind-eq-ok (fetch config server r s (some testcase))
                      (λ fetched. ok (
                        fetched,
                        keep_passed config server r (external_key s testcase) fetched before,
                      ))
                      (rw (absent, missing, retrieve_testcase) at returned) in
                  after-OnlyPassing config fetched results
                    (keep_passed config server r (external_key s testcase) fetched before) after
                    refl same (keep_passed-OnlyPassing (external_key s testcase) fetched before h)
            ]
      ]

  retrieve_subject-OnlyPassing :
      (s : Subject) (testcase : Option String) (before after : Caches) (results : List TestResult)
      → retrieve_subject config server r s testcase before ≡ ok (results, after)
      → OnlyPassing config before.external
      → OnlyPassing config after.external
  unfolding retrieve_subject
  retrieve_subject-OnlyPassing s testcase before after results returned h =
      let (fetched, asked, same) =
        bind-eq-ok (fetch config server r s testcase)
          (λ fetched.
            ok (fetched, record before { request = put (request_key s) fetched before.request }))
          returned in
      after-OnlyPassing config fetched results
        (record before { request = put (request_key s) fetched before.request }) after refl same h

  -- If the shared cache holds passing results only, it does so after a call of the retriever that
  -- returns.
  pub retrieve_all-OnlyPassing :
      (s : Subject) (testcase : Option String) (before after : Caches) (results : List TestResult)
      → retrieve_all config server r s testcase before ≡ ok (results, after)
      → OnlyPassing config before.external
      → OnlyPassing config after.external
  unfolding retrieve_all
  retrieve_all-OnlyPassing s none before after results returned h =
      retrieve_subject-OnlyPassing s none before after results returned h
  retrieve_all-OnlyPassing s (some testcase) before after results returned h =
      elim (Bool-cases (truthy testcase)) [
        | inl named ↦
            retrieve_testcase-OnlyPassing s testcase before after results (rw named at returned) h
        | inr unnamed ↦
            retrieve_subject-OnlyPassing s (some testcase) before after results
              (rw unnamed at returned) h
      ]

match_untimed :
    (since : Option String) (results : List TestResult)
    → since ≡ none
    → results_match_time since results ≡ true
unfolding results_match_time
match_untimed since results untimed =
    subst (λ since. results_match_time since results ≡ true) (sym untimed) refl

external_hit-shared :
    (config : Config) (server : Server) (r : Retriever) (key : String) (result : TestResult)
    (results : List TestResult) (caches : Caches)
    → r.since ≡ none
    → get key caches.external ≡ some (result ∷ results)
    → external_hit config server r key caches ≡ some (result ∷ results)
unfolding external_hit
external_hit-shared config server r key result results caches untimed found =
    rw (found, match_untimed r.since (result ∷ results) untimed, external_hit)

-- Passing results that were fetched for one request, whatever its time, are what a later request
-- without a time gets, without asking ResultsDB, whatever that would answer now.
pub retrieve_all-retrieve_all :
    (config : Config) (server server' : Server) (earlier later : Retriever) (s : Subject)
    (testcase : String) (result : TestResult) (results : List TestResult) (caches : Caches)
    → truthy testcase ≡ true
    → get (request_key s) caches.request ≡ none
    → external_hit config server earlier (external_key s testcase) caches ≡ none
    → fetch config server earlier s (some testcase) ≡ ok (result ∷ results)
    → all_passed config (result ∷ results) ≡ true
    → later.since ≡ none
    → (shared : Caches) × (retrieve_all config server earlier s (some testcase) caches
        ≡ ok (result ∷ results, shared))
      × (retrieve_all config server' later s (some testcase) (record shared { request = [] })
          ≡ ok (result ∷ results, record shared { request = [] }))
unfolding retrieve_all keep_passed retrieve_testcase
retrieve_all-retrieve_all config server server' earlier later s testcase result results caches named
      absent missing fetched passed untimed =
    let shared = record caches {
      external = put (external_key s testcase) (result ∷ results) caches.external;
    } in
    (
      shared,
      rw (
        named,
        retrieve_testcase-missed config server earlier s testcase (result ∷ results) caches absent
            missing fetched,
        passed,
        keep_passed,
      ),
      rw (
        named,
        retrieve_testcase,
        external_hit-shared config server' later (external_key s testcase) result results
            (record shared { request = [] }) untimed
            (rw (
              get-put (external_key s testcase) (external_key s testcase) (result ∷ results)
                  caches.external,
              ==_refl (external_key s testcase),
            )),
      ),
    )

-- ===== src/Resources/Fresh.antt =====
-- resources.py: caches that hold what ResultsDB answers, and how they stay so.
use greenwave.Prelude.{
  String, List, none, some, get, put, get-put, Eq, Dict, ◌==◌, ==_iff, string_eq, pair_eq,
  Bool-cases, ◌≡◌, inl, inr, ◌⊎◌, arith,
}
use greenwave.Outcome.{ok}
use greenwave.Subject.{Subject}
use greenwave.Policy.Services.{Config, TestResult}
use greenwave.Resources.{
  Server, Retriever, Caches, fetch, external_key, request_key, keep_passed, all_passed,
}

-- An entry after an assignment is the assigned one or an earlier one.
get-put-cases {ℓ κ} :
    {K : Type ℓ} {V : Type κ} ⦃e : Eq K⦄ (j k : K) (v w : V) (d : Dict K V)
    → get j (put k v d) ≡ some w
    → ((k ≡ j) × (v ≡ w)) ⊎ (get j d ≡ some w)
get-put-cases j k v w d found = elim (Bool-cases (k == j)) [
  | inl same ↦ inl ((==_iff k j).0 same, ground (arith, get-put j k v d))
  | inr other ↦ inr (ground (arith, get-put j k v d))
]

module _ (config : Config) (server : Server) (r : Retriever) (Known : Subject → Type 0) where
  pub record Fresh (caches : Caches) : Type 0 where
    pub whole :
        (s : Subject) (results : List TestResult)
        → Known s
        → get (request_key s) caches.request ≡ some results
        → fetch config server r s none ≡ ok results
    pub named :
        (s : Subject) (testcase : String) (results : List TestResult)
        → Known s
        → get (external_key s testcase) caches.external ≡ some results
        → fetch config server r s (some testcase) ≡ ok results

  -- Different requests have different keys.
  module _
      (keys_apart : (s s' : Subject) (testcase testcase' : String)
        → Known s
        → Known s'
        → external_key s testcase ≡ external_key s' testcase'
        → (s ≡ s') × (testcase ≡ testcase'))
      (subjects_apart : (s s' : Subject)
        → Known s
        → Known s'
        → request_key s ≡ request_key s'
        → s ≡ s') where
    put-named :
        (s : Subject) (testcase : String) (results : List TestResult) (caches : Caches)
        → Known s
        → fetch config server r s (some testcase) ≡ ok results
        → Fresh caches
        → Fresh (record caches { external = put (external_key s testcase) results caches.external })
    put-named s testcase results caches known fetched fresh = record {
      whole = fresh.whole;
      named = λ s' testcase' results' known' found.
          elim (get-put-cases (external_key s' testcase') (external_key s testcase) results results'
            caches.external found) [
              | inl (same, kept) ↦
                  let (subject, name) = keys_apart s s' testcase testcase' known known' same in
                  cc (subject, name, kept, fetched)
              | inr earlier ↦ fresh.named s' testcase' results' known' earlier
            ];
    }

    pub put-whole :
        (s : Subject) (results : List TestResult) (caches : Caches)
        → Known s
        → fetch config server r s none ≡ ok results
        → Fresh caches
        → Fresh (record caches { request = put (request_key s) results caches.request })
    put-whole s results caches known fetched fresh = record {
      whole = λ s' results' known' found.
          elim (get-put-cases (request_key s') (request_key s) results results' caches.request
            found) [
              | inl (same, kept) ↦ cc (subjects_apart s s' known known' same, kept, fetched)
              | inr earlier ↦ fresh.whole s' results' known' earlier
            ];
      named = fresh.named;
    }

    pub keep_passed-Fresh :
        (s : Subject) (testcase : String) (results : List TestResult) (caches : Caches)
        → Known s
        → fetch config server r s (some testcase) ≡ ok results
        → Fresh caches
        → Fresh (keep_passed config server r (external_key s testcase) results caches)
    unfolding keep_passed
    keep_passed-Fresh s testcase results caches known fetched fresh =
        elim (Bool-cases (all_passed config results)) [
          | inl passed ↦ rw passed (put-named s testcase results caches known fetched fresh)
          | inr other ↦ rw other fresh
        ]

-- ===== src/Decision/Request/Answered.antt =====
-- What responses report.
use greenwave.Prelude.{
  ℕ, ◌≡◌, refl, subst, Bool, true, false, not, List, [], ◌∷◌, map, Option, none, some, Dict, put,
  arith, is_empty, is_some, all, elem, NoRepeats, ◌==◌, ==_iff, nat_eq, if◌then◌else◌, inl, inr,
  Bool-cases,
}
use greenwave.Outcome.{ok}
use greenwave.Json.{Object}
use greenwave.Waiver.{Waiver}
use greenwave.Waiver.Laws.{covered}
use greenwave.Policy.Services.{TestResult, Services}
use greenwave.Decision.{Decision, filters_to_ask, fetch_waivers, waive}
use greenwave.Decision.Waiving.{policies_satisfied_iff, policies_satisfied-waive}
use greenwave.Decision.Request.{
  Application, DecisionResponse, Options, has_value, value_list, by_id, response_of,
  subjects_checked, services_for, on_demand_policies, read_options, verbose_of, make_decision,
}
use greenwave.Decision.Request.Valid.{make_decision-Steps, decide-waived}

module _ {ℓ} {A : Type ℓ} where
  abbrev keys_of : Dict ℕ A → List ℕ
  keys_of [] = []
  keys_of ((id, x) ∷ d) = id ∷ keys_of d

  elem-put :
      (j k : ℕ) (v : A) (d : Dict ℕ A)
      → (k == j) ≡ false
      → elem j (keys_of d) ≡ false
      → elem j (keys_of (put k v d)) ≡ false
  elem-put j k v [] other new = ground (arith, ==_iff j k, ==_iff k j)
  elem-put j k v ((i, w) ∷ d) other new =
      ground (arith, elem-put j k v d, ==_iff i k, ==_iff j i, ==_iff k j)

  put-NoRepeats :
      (k : ℕ) (v : A) (d : Dict ℕ A) → NoRepeats (keys_of d) → NoRepeats (keys_of (put k v d))
  put-NoRepeats k v [] h = (refl, tt)
  put-NoRepeats k v ((j, w) ∷ d) h = elim (Bool-cases (j == k)) [
    | inl same ↦ rw same h
    | inr other ↦
        rw other
          (elem-put j k v d (ground (arith, ==_iff j k, ==_iff k j)) h.0, put-NoRepeats k v d h.1)
  ]

  module _ (id : A → ℕ) where
    -- Each entry stands under its identifier.
    abbrev Keyed : Dict ℕ A → Type 0
    Keyed [] = Unit
    Keyed ((k, x) ∷ d) = (id x ≡ k) × Keyed d

    put-Keyed : (x : A) (d : Dict ℕ A) → Keyed d → Keyed (put (id x) x d)
    put-Keyed x [] h = (refl, tt)
    put-Keyed x ((j, w) ∷ d) h = elim (Bool-cases (j == id x)) [
      | inl same ↦ rw same (ground (arith, ==_iff j (id x)), h.1)
      | inr other ↦ rw other (h.0, put-Keyed x d h.1)
    ]

    by_id-distinct :
        (xs : List A) (d : Dict ℕ A)
        → NoRepeats (keys_of d)
        → Keyed d
        → NoRepeats (keys_of (by_id id xs d)) × Keyed (by_id id xs d)
    unfolding by_id
    by_id-distinct [] d h k = (h, k)
    by_id-distinct (x ∷ xs) d h k =
        by_id-distinct xs (put (id x) x d) (put-NoRepeats (id x) x d h) (put-Keyed x d k)

    value_list-ids : (d : Dict ℕ A) → Keyed d → map id (value_list d) ≡ keys_of d
    value_list-ids [] k = refl
    value_list-ids ((j, x) ∷ d) k = rw (k.0, value_list-ids d k.1) refl

    by_id-NoRepeats : (xs : List A) → NoRepeats (map id (value_list (by_id id xs [])))
    by_id-NoRepeats xs =
        let (distinct, keyed) = by_id-distinct xs [] tt tt in
        rw (value_list-ids (by_id id xs []) keyed) distinct

-- No identifier stands twice in a list, if there is one.
abbrev pub DistinctIds {ℓ} : {A : Type ℓ} → (A → ℕ) → Option (List A) → Type 0
DistinctIds id none = Unit
DistinctIds id (some xs) = NoRepeats (map id xs)

-- What the entries of a response say of each other and of the request.
pub record Consistent (request : Object) (response : DecisionResponse) : Type 0 where
  pub satisfied_iff : response.policies_satisfied ≡ is_empty response.unsatisfied_requirements
  pub with_policies : is_some response.applicable_policies ≡ not (has_value "rules" request)
  pub with_details : is_some response.results ≡ is_some response.waivers
  pub distinct_results : DistinctIds (λ (r : TestResult). r.id) response.results
  pub distinct_waivers : DistinctIds (λ (w : Waiver). w.id) response.waivers

details-DistinctIds {ℓ} :
    {A : Type ℓ} (id : A → ℕ) (verbose : Bool) (xs : List A)
    → DistinctIds id (if verbose then some (value_list (by_id id xs [])) else none)
details-DistinctIds id true xs = by_id-NoRepeats id xs
details-DistinctIds id false xs = tt

response_of-Consistent :
    (request : Object) (d : Decision) → Consistent request (response_of request d)
unfolding response_of
response_of-Consistent request d = record {
  satisfied_iff = policies_satisfied_iff d;
  with_policies = ground arith;
  with_details = ground arith;
  distinct_results = details-DistinctIds (λ (r : TestResult). r.id) d.verbose d.verbose_results;
  distinct_waivers = details-DistinctIds (λ (w : Waiver). w.id) d.verbose d.waivers;
}

-- In every response that is returned, the policies are satisfied exactly if no unsatisfied requirement
-- is listed; the applicable policies are listed exactly if the request brings no rules of its own;
-- results are listed exactly if waivers are, and no result and no waiver is listed twice.
pub make_decision-Consistent :
    (app : Application) (request : Object) (response : DecisionResponse)
    → make_decision app request ≡ ok response
    → Consistent request response
make_decision-Consistent app request response h =
    let steps = make_decision-Steps app request response h in
    let (d, d', checked, waived, made) =
      decide-waived app request steps.options response steps.decided in
    subst (Consistent request) made (response_of-Consistent request d')

waive-fetched :
    (services : Services) (d d' : Decision)
    → waive services d ≡ ok d'
    → fetch_waivers services (filters_to_ask d) ≡ ok d'.waivers
unfolding waive
waive-fetched services d d' h = ground arith

-- A decision says that the policies are satisfied exactly if each answer that the checks of the
-- subjects gave is satisfied or is covered by a waiver that WaiverDB returned for the filters of these
-- answers. The checks and the filters are those of the options that were read from the request.
pub make_decision-satisfied_iff :
    (app : Application) (request : Object) (response : DecisionResponse)
    → make_decision app request ≡ ok response
    → (options : Options) × (d : Decision) × (waivers : List Waiver) × (on_demand_policies app
          request
        ≡ ok options.on_demand)
      × (verbose_of request ≡ ok options.verbose)
      × (read_options app request options.verbose options.on_demand ≡ ok options)
      × (subjects_checked app request options ≡ ok d)
      × (fetch_waivers (services_for app options) (filters_to_ask d) ≡ ok waivers)
      × (response.policies_satisfied ≡ all (covered waivers) d.answers)
unfolding response_of
make_decision-satisfied_iff app request response h =
    let steps = make_decision-Steps app request response h in
    let (d, d', checked, waived, made) =
      decide-waived app request steps.options response steps.decided in
    let services = services_for app steps.options in
    (
      steps.options,
      d,
      d'.waivers,
      steps.policies_made,
      steps.flag,
      steps.read,
      checked,
      waive-fetched services d d' waived,
      subst (λ (r : DecisionResponse). r.policies_satisfied ≡ all (covered d'.waivers) d.answers)
          made (policies_satisfied-waive services d d' waived),
    )

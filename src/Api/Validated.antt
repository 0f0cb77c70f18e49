-- ===== src/Api/Validated.antt =====
-- Which gating.yaml files are found to be valid.
use greenwave.Prelude.{
  String, ◌≡◌, refl, ◌∙◌, false, not, ◌&&◌, List, [], ◌∷◌, ◌++◌, arith, elem, select, sort, unique,
  elem-sort, elem-unique, string_eq, string_order, All, ==_iff, is_empty,
}
use greenwave.Outcome.{Result, ok, raise, safe_yaml, bind-eq-ok, ◌>>=◌}
use greenwave.Policy.{Policy, remote}
use greenwave.Policy.Loading.{load_policies}
use greenwave.Policy.Loading.Loaded.{
  HasContexts, load_policies-HasContexts, load_documents-HasContexts,
}
use greenwave.Policy.Services.{Services}
use greenwave.Policy.Remote.{safe_load_all}
use greenwave.Policy.Remote.Loaded.{NoRemoteRule, load_documents-NoRemoteRule}
use greenwave.Api.{
  contexts_in, missing_decision_contexts, verdict, as_bad_request, check_contexts,
  validate_gating_yaml_post,
}

elem-select :
    (known : List String) (c : String) (used : List String)
    → elem c (select (λ d. not (elem d known)) used) ≡ (elem c used && not (elem c known))
elem-select known c [] = refl
elem-select known c (d ∷ used) = ground (arith, elem-select known c used, ==_iff c d)

-- The missing contexts are those that some policy names and no parent policy does.
elem-missing_decision_contexts :
    (parents policies : List Policy) (known used missing : List String) (c : String)
    → contexts_in parents ≡ ok known
    → contexts_in policies ≡ ok used
    → missing_decision_contexts parents policies ≡ ok missing
    → elem c missing ≡ (elem c used && not (elem c known))
unfolding missing_decision_contexts
elem-missing_decision_contexts parents policies known used missing c hk hu h =
    let h' = rw (hk, hu) at h in
    let same : sort (unique (select (λ d. not (elem d known)) used)) ≡ missing = ground arith in
    rw (← same) (
      elem-sort c (unique (select (λ d. not (elem d known)) used))
      ∙ elem-unique c (select (λ d. not (elem d known)) used)
      ∙ elem-select known c used)

-- What is known of a file that was loaded and compared with the parent policies.
pub record Checked (services : Services) (parents : List Policy) (text found : String)
    : Type 0 where
  pub policies : List Policy
  pub known : List String
  pub used : List String
  pub missing : List String
  pub loaded : safe_load_all services text ≡ ok policies
  pub some_policy : is_empty policies ≡ false
  pub no_remote_rule : All NoRemoteRule policies
  pub known_contexts : contexts_in parents ≡ ok known
  pub used_contexts : contexts_in policies ≡ ok used
  pub message : found ≡ verdict missing
  pub elem_missing : (c : String) → elem c missing ≡ (elem c used && not (elem c known))

safe_load_all-NoRemoteRule :
    (services : Services) (text : String) (policies : List Policy)
    → safe_load_all services text ≡ ok policies
    → All NoRemoteRule policies
unfolding safe_load_all
safe_load_all-NoRemoteRule services text policies h =
    load_documents-NoRemoteRule services.formats (services.formats.compose text) policies h

as_bad_request-ok :
    (m : Result (List Policy)) (ps : List Policy) → as_bad_request m ≡ ok ps → m ≡ ok ps
as_bad_request-ok (ok qs) ps h = h
as_bad_request-ok (raise (safe_yaml text)) ps h = absurd (ground arith)
as_bad_request-ok (raise e) ps h = absurd (ground arith)

missing_decision_contexts-parts :
    (parents policies : List Policy) (missing : List String)
    → missing_decision_contexts parents policies ≡ ok missing
    → (known : List String) × (used : List String) × (contexts_in parents ≡ ok known)
      × (contexts_in policies ≡ ok used)
unfolding missing_decision_contexts
missing_decision_contexts-parts parents policies missing h =
    let (known, hk, h1) =
      bind-eq-ok (contexts_in parents)
        (λ known. contexts_in policies >>= λ used.
          ok (sort (unique (select (λ c. not (elem c known)) used))))
        h in
    let (used, hu, h2) =
      bind-eq-ok (contexts_in policies)
        (λ used. ok (sort (unique (select (λ c. not (elem c known)) used)))) h1 in
    (known, used, hk, hu)

-- If a file is not refused, it holds a policy, none of its policies holds a remote rule, and the message
-- of the response is "All OK" or lists exactly the decision contexts of its policies that no policy of
-- the configuration has.
pub validate_gating_yaml_post-Checked :
    (services : Services) (parents : List Policy) (text found : String)
    → validate_gating_yaml_post services parents text ≡ ok found
    → Checked services parents text found
unfolding validate_gating_yaml_post
validate_gating_yaml_post-Checked services parents text found h =
    let (policies, loaded, h1) =
      bind-eq-ok (as_bad_request (safe_load_all services text)) (check_contexts parents) h in
    by_policies policies (as_bad_request-ok (safe_load_all services text) policies loaded) h1
  where
    by_policies :
        (policies : List Policy)
        → safe_load_all services text ≡ ok policies
        → check_contexts parents policies ≡ ok found
        → Checked services parents text found
    by_policies [] loaded h1 = absurd (ground arith)
    by_policies (p ∷ ps) loaded h1 =
        let (missing, hm, h2) =
          bind-eq-ok (missing_decision_contexts parents (p ∷ ps)) (λ missing. ok (verdict missing))
            h1 in
        let (known, used, hk, hu) = missing_decision_contexts-parts parents (p ∷ ps) missing hm in
        record {
          policies = p ∷ ps;
          known = known;
          used = used;
          missing = missing;
          loaded = loaded;
          some_policy = refl;
          no_remote_rule = safe_load_all-NoRemoteRule services text (p ∷ ps) loaded;
          known_contexts = hk;
          used_contexts = hu;
          message = ground arith;
          elem_missing =
              λ c. elem-missing_decision_contexts parents (p ∷ ps) known used missing c hk hu hm;
        }

contexts_in-ok :
    (ps : List Policy)
    → All HasContexts ps
    → (contexts : List String) × (contexts_in ps ≡ ok contexts)
unfolding contexts_in
contexts_in-ok [] h = ([], refl)
contexts_in-ok (p ∷ ps) h =
    let (contexts, named, there) = h.0 in
    let (rest, found) = contexts_in-ok ps h.1 in (contexts ++ rest, rw (named, found) refl)

-- With a configuration that was loaded, each file that loads and holds a policy is answered: looking for
-- the missing decision contexts raises nothing.
pub validate_gating_yaml_post-answers :
    (services : Services) (files : List String) (parents : List Policy) (text : String) (p : Policy)
    (ps : List Policy)
    → load_policies services.formats files ≡ ok parents
    → safe_load_all services text ≡ ok (p ∷ ps)
    → (found : String) × (validate_gating_yaml_post services parents text ≡ ok found)
unfolding validate_gating_yaml_post missing_decision_contexts safe_load_all
validate_gating_yaml_post-answers services files parents text p ps configured loaded =
    let (known, hk) =
      contexts_in-ok parents
        (load_policies-HasContexts services.formats files parents configured) in
    let (used, hu) = contexts_in-ok (p ∷ ps) (
      load_documents-HasContexts services.formats remote (services.formats.compose text) (p ∷ ps)
        loaded) in
    (verdict (sort (unique (select (λ c. not (elem c known)) used))), rw (loaded, hk, hu) refl)

-- ===== src/Policy/Loading/Loaded.antt =====
-- What holds of policies that were loaded from files.
use greenwave.Prelude.{
  String, ◌≡◌, refl, subst, Bool, true, false, not, ◌||◌, List, [], ◌∷◌, ◌++◌, Option, none, some,
  arith, is_empty, given, All, if◌then◌else◌,
}
use greenwave.Outcome.{Result, ok, raise, safe_yaml, yaml, ◌>>=◌, bind-eq-ok}
use greenwave.SafeYaml.{Formats, Node, scalar, sequence, mapping, by_yaml, entry_fields}
use greenwave.Policy.{PolicyClass, local, Policy, validate, all_decision_contexts}
use greenwave.Policy.Loading.{
  rule_classes, make_policy, validated, policy_from_node, load_each, as_safe_yaml, load_documents,
  load_policies,
}

-- A policy that is read has been validated.
policy_from_node-validated :
    (formats : Formats) (policy_class : PolicyClass) (n : Node) (q : Policy)
    → policy_from_node formats policy_class n ≡ ok q
    → (p : Policy) × (validated (record p { policy_class = policy_class }) ≡ ok q)
unfolding policy_from_node
policy_from_node-validated formats policy_class (mapping tag es) q h =
    let (p, made, valid) =
      bind-eq-ok (make_policy policy_class by_yaml (entry_fields formats rule_classes es))
        (λ p. validated (record p { policy_class = policy_class })) h in
    (p, valid)
policy_from_node-validated formats policy_class (scalar tag s) q h = absurd (ground arith)
policy_from_node-validated formats policy_class (sequence ns) q h = absurd (ground arith)

as_safe_yaml-ok : (m : Result (List Policy)) (ps : List Policy) → as_safe_yaml m ≡ ok ps → m ≡ ok ps
as_safe_yaml-ok (ok qs) ps h = h
as_safe_yaml-ok (raise (yaml message)) ps h = absurd (ground arith)
as_safe_yaml-ok (raise e) ps h = absurd (ground arith)

-- What holds of each policy that passes validation holds of all that are loaded.
module _ {ℓ} (P : Policy → Type ℓ) (formats : Formats) (policy_class : PolicyClass)
    (valid : (p q : Policy)
      → validated (record p { policy_class = policy_class }) ≡ ok q
      → P q) where
  load_each-All :
      (documents : List (Result Node)) (ps : List Policy)
      → load_each formats policy_class documents ≡ ok ps
      → All P ps
  unfolding load_each
  load_each-All [] [] h = tt
  load_each-All [] (q ∷ qs) h = absurd (ground arith)
  load_each-All (raise e ∷ rest) ps h = absurd (ground arith)
  load_each-All (ok n ∷ rest) ps h =
      let (q, read, e) =
        bind-eq-ok (policy_from_node formats policy_class n)
          (λ q. load_each formats policy_class rest >>= λ qs. ok (q ∷ qs)) h in
      let (qs, loaded, e') =
        bind-eq-ok (load_each formats policy_class rest) (λ qs. ok (q ∷ qs)) e in
      let same : q ∷ qs ≡ ps = ground arith in
      let (p, passed) = policy_from_node-validated formats policy_class n q read in
      subst (All P) same (valid p q passed, load_each-All rest qs loaded)

  pub load_documents-All :
      (documents : List (Result Node)) (ps : List Policy)
      → load_documents formats policy_class documents ≡ ok ps
      → All P ps
  unfolding load_documents
  load_documents-All documents ps h =
      load_each-All documents ps (as_safe_yaml-ok (load_each formats policy_class documents) ps h)

-- The policy has decision contexts, and asking for them does not raise.
abbrev pub HasContexts : Policy → Type 0
HasContexts p =
    (contexts : List String) × (all_decision_contexts p ≡ ok contexts) × (is_empty contexts ≡ false)

-- One of the two attributes is given.
abbrev names_context : Policy → Bool
names_context p = given p.decision_context || not (is_empty p.decision_contexts)

validated-names_context : (p q : Policy) → validated p ≡ ok q → names_context q ≡ true
unfolding validated validate
validated-names_context p q h = ground arith

names_context-HasContexts : (p : Policy) → names_context p ≡ true → HasContexts p
unfolding all_decision_contexts
names_context-HasContexts p h = go p.decision_contexts p.decision_context h
  where
    contexts_from : List String → Option String → Result (List String)
    contexts_from cs context = if not (is_empty cs) then ok cs else elim context [
      | none ↦ raise (safe_yaml "No decision contexts provided")
      | some c ↦
          if given (some c) then ok (c ∷ []) else raise (safe_yaml "No decision contexts provided")
    ]

    go :
        (cs : List String) (context : Option String)
        → (given context || not (is_empty cs)) ≡ true
        → (contexts : List String) × (contexts_from cs context ≡ ok contexts)
          × (is_empty contexts ≡ false)
    go (c ∷ cs) context h = (c ∷ cs, refl, refl)
    go [] none h = absurd (ground arith)
    go [] (some c) h = (c ∷ [], ground arith, refl)

validated-HasContexts : (p q : Policy) → validated p ≡ ok q → HasContexts q
validated-HasContexts p q h = names_context-HasContexts q (validated-names_context p q h)

All-append :
    (ps qs : List Policy) → All HasContexts ps → All HasContexts qs → All HasContexts (ps ++ qs)
All-append [] qs h k = k
All-append (p ∷ ps) qs h k = (h.0, All-append ps qs h.1 k)

-- Every policy that is loaded has decision contexts, so that asking it for them never raises.
pub load_policies-HasContexts :
    (formats : Formats) (files : List String) (ps : List Policy)
    → load_policies formats files ≡ ok ps
    → All HasContexts ps
unfolding load_policies
load_policies-HasContexts formats [] [] h = tt
load_policies-HasContexts formats [] (p ∷ ps) h = absurd (ground arith)
load_policies-HasContexts formats (file ∷ files) ps h =
    let (first, loaded, e) =
      bind-eq-ok (load_documents formats local (formats.compose file))
        (λ first. load_policies formats files >>= λ more. ok (first ++ more)) h in
    let (more, rest, e') =
      bind-eq-ok (load_policies formats files) (λ more. ok (first ++ more)) e in
    let same : first ++ more ≡ ps = ground arith in
    subst (All HasContexts) same (
      All-append first more
        (load_documents-All HasContexts formats local
          (λ p q. validated-HasContexts (record p { policy_class = local }) q)
          (formats.compose file) first loaded)
        (load_policies-HasContexts formats files more rest))

-- The same of a remote rule file.
pub load_documents-HasContexts :
    (formats : Formats) (policy_class : PolicyClass) (documents : List (Result Node))
    (ps : List Policy)
    → load_documents formats policy_class documents ≡ ok ps
    → All HasContexts ps
load_documents-HasContexts formats policy_class =
    load_documents-All HasContexts formats policy_class
      λ p q. validated-HasContexts (record p { policy_class = policy_class }) q

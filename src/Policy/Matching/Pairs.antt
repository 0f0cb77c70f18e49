-- ===== src/Policy/Matching/Pairs.antt =====
-- `applicable_decision_context_product_version_pairs`: for which decision contexts and product
-- versions the consumers ask for a decision.
use greenwave.Prelude.{
  String, ◌≡◌, ◌&&◌, List, [], ◌∷◌, ◌++◌, map, Option, none, some, arith, ◌==◌, string_eq, pair_eq,
  given, elem, elem-append, any, sort, elem-sort, Ascending, sort-Ascending, pair_order, unique,
  elem-unique, unique-NoRepeats, sort-NoRepeats, NoRepeats, ap, subst, ◌∙◌, if◌then◌else◌,
}
use greenwave.Outcome.{Result, ok, raise, bind-eq-ok, ◌>>=◌, filter_by}
use greenwave.Policy.{Policy, all_decision_contexts}
use greenwave.Policy.Services.{Services}
use greenwave.Policy.Matching.{Attributes, policy_matches, max_depth}

-- A decision context and a product version.
abbrev pub Pair : Type 0
Pair = String × String

abbrev with_version : String → List String → List Pair
with_version v contexts = map (λ c. (c, v)) contexts

-- The loop over product versions of one policy.
unfoldable pub each_version : Policy → List String → Result (List Pair)
each_version p [] = ok []
each_version p (v ∷ versions) = do
  contexts ← all_decision_contexts p
  rest ← each_version p versions
  ok (with_version v contexts ++ rest)

-- The one that is asked for, or those of the policy.
unfoldable pub versions_of : Option String → Policy → List String
versions_of none p = p.product_versions
versions_of (some v) p = if given (some v) then v ∷ [] else p.product_versions

unfoldable pub policies_pairs : Option String → List Policy → Result (List Pair)
policies_pairs version [] = ok []
policies_pairs version (p ∷ rest) = do
  pairs ← each_version p (versions_of version p)
  more ← policies_pairs version rest
  ok (pairs ++ more)

unfoldable pub applicable_pairs : Services → List Policy → Attributes → Result (List Pair)
applicable_pairs services policies a = do
  applicable ← filter_by (λ p. policy_matches services max_depth p a) policies
  pairs ← policies_pairs a.product_version applicable
  ok (sort (unique pairs))

-- The decision contexts of a policy, none where it has none to give.
abbrev pub contexts_of : Policy → List String
contexts_of p = elim (all_decision_contexts p) [ ok contexts ↦ contexts | raise e ↦ [] ]

contexts_of_ok :
    (p : Policy) (contexts : List String)
    → all_decision_contexts p ≡ ok contexts
    → contexts_of p ≡ contexts
contexts_of_ok p contexts got = rw (got, contexts_of)

elem-with_version :
    (c w v : String) (contexts : List String)
    → elem (c, w) (with_version v contexts) ≡ ((w == v) && elem c contexts)
elem-with_version c w v [] = ground arith
elem-with_version c w v (k ∷ contexts) = ground (arith, elem-with_version c w v contexts)

elem-each_version :
    (c w : String) (p : Policy) (versions : List String) (pairs : List Pair)
    → each_version p versions ≡ ok pairs
    → elem (c, w) pairs ≡ (elem w versions && elem c (contexts_of p))
unfolding each_version
elem-each_version c w p [] pairs e = ground arith
elem-each_version c w p (v ∷ versions) pairs e =
    let (contexts, got, e1) =
      bind-eq-ok (all_decision_contexts p)
        (λ contexts. each_version p versions >>= λ rest. ok (with_version v contexts ++ rest)) e in
    let (rest, more, e2) =
      bind-eq-ok (each_version p versions) (λ rest. ok (with_version v contexts ++ rest)) e1 in
    let known : contexts_of p ≡ contexts = contexts_of_ok p contexts got in
    let same : with_version v contexts ++ rest ≡ pairs = ground arith in
    subst (λ zs. elem (c, w) zs ≡ (elem w (v ∷ versions) && elem c (contexts_of p))) same
      (ground (
        arith,
        elem-append (c, w) (with_version v contexts) rest,
        elem-with_version c w v contexts,
        elem-each_version c w p versions rest more,
        ap (elem c) known,
      ))

elem-policies_pairs :
    (c w : String) (version : Option String) (policies : List Policy) (pairs : List Pair)
    → policies_pairs version policies ≡ ok pairs
    → elem (c, w) pairs
      ≡ any (λ p. elem w (versions_of version p) && elem c (contexts_of p)) policies
unfolding policies_pairs
elem-policies_pairs c w version [] pairs e = ground arith
elem-policies_pairs c w version (p ∷ rest) pairs e =
    let (xs, here, e1) =
      bind-eq-ok (each_version p (versions_of version p))
        (λ xs. policies_pairs version rest >>= λ more. ok (xs ++ more)) e in
    let (ys, later, e2) = bind-eq-ok (policies_pairs version rest) (λ more. ok (xs ++ more)) e1 in
    let same : xs ++ ys ≡ pairs = ground arith in
    subst
      (λ zs.
        elem (c, w) zs
        ≡ any (λ p. elem w (versions_of version p) && elem c (contexts_of p)) (p ∷ rest))
      same
      (ground (
        arith,
        elem-append (c, w) xs ys,
        elem-each_version c w p (versions_of version p) xs here,
        elem-policies_pairs c w version rest ys later,
      ))

-- The pairs of the policies that match, if all these calls return: exactly those of a decision
-- context of such a policy with the product version that was asked for, or, without one, with one
-- of the policy.
pub elem-applicable_pairs :
    (services : Services) (policies : List Policy) (a : Attributes) (applicable : List Policy)
    (pairs : List Pair) (c w : String)
    → filter_by (λ p. policy_matches services max_depth p a) policies ≡ ok applicable
    → applicable_pairs services policies a ≡ ok pairs
    → elem (c, w) pairs
      ≡ any (λ p. elem w (versions_of a.product_version p) && elem c (contexts_of p)) applicable
unfolding applicable_pairs
elem-applicable_pairs services policies a applicable pairs c w matching e =
    let (found, asked, e1) =
      bind-eq-ok (policies_pairs a.product_version applicable) (λ found. ok (sort (unique found)))
        (rw matching at e) in
    let same : sort (unique found) ≡ pairs = ground arith in
    subst
      (λ zs.
        elem (c, w) zs
        ≡ any (λ p. elem w (versions_of a.product_version p) && elem c (contexts_of p)) applicable)
      same
      (elem-sort (c, w) (unique found)
        ∙ elem-unique (c, w) found
        ∙ elem-policies_pairs c w a.product_version applicable found asked)

-- The pairs are in ascending order, and none stands twice.
pub applicable_pairs-NoRepeats :
    (services : Services) (policies : List Policy) (a : Attributes) (pairs : List Pair)
    → applicable_pairs services policies a ≡ ok pairs
    → Ascending pairs × NoRepeats pairs
unfolding applicable_pairs
applicable_pairs-NoRepeats services policies a pairs e =
    let (applicable, matching, e1) =
      bind-eq-ok (filter_by (λ p. policy_matches services max_depth p a) policies)
        (λ applicable.
          policies_pairs a.product_version applicable >>= λ found. ok (sort (unique found)))
        e in
    let (found, asked, e2) =
      bind-eq-ok (policies_pairs a.product_version applicable) (λ found. ok (sort (unique found)))
        e1 in
    let same : sort (unique found) ≡ pairs = ground arith in
    subst (λ zs. Ascending zs × NoRepeats zs) same
      (sort-Ascending (unique found), sort-NoRepeats (unique found) (unique-NoRepeats found))

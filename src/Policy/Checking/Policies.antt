-- ===== src/Policy/Checking/Policies.antt =====
-- `verified_rules` while the policies of a subject are checked.
use greenwave.Prelude.{
  ℕ, zero, suc, ◌≡◌, refl, subst, Bool, true, false, inl, inr, List, [], ◌∷◌, ◌++◌, arith, any, All,
  none, some, Bool-cases, Option-cases, any-append, if◌then◌else◌,
}
use greenwave.Outcome.{Result, ok, raise, ◌>>=◌, bind-eq-ok}
use greenwave.Answer.{Answer}
use greenwave.Policy.{Rule, remote_rule, passing_test_case_rule, rule_eq, Policy}
use greenwave.Policy.Services.{Services}
use greenwave.Policy.Verified.{
  SameRule, SameRule-refl, rule_eq_refl, rule_eq_comm, rule_eq_of_SameRule,
}
use greenwave.Policy.Remote.{get_sub_policies}
use greenwave.Policy.Matching.{policy_matches}
use greenwave.Policy.Checking.{
  RuleContext, Verifying, context_attributes, check_test_case, check_sub_policies, check_rule,
  verify, verify_all, package_answers, check_policy,
}

-- What a call hands on holds of the list that it leaves, if it holds of the list that it was given
-- and of each rule that is added.
abbrev Keeps : (List Rule → Type 0) → Verifying (List Answer) → Type 0
Keeps P m = (v v' : List Rule) (answers : List Answer) → m v ≡ ok (answers, v') → P v → P v'

-- A property of the list that adding a rule keeps, if the rule is not equal to one of the list.
abbrev Extends : (List Rule → Type 0) → Type 0
Extends P = (v : List Rule) (r : Rule) → any (rule_eq r) v ≡ false → P v → P (v ++ r ∷ [])

module _ (P : List Rule → Type 0) where
  Keeps-ok : (answers : List Answer) → Keeps P (λ v. ok (answers, v))
  Keeps-ok answers v v' more e h = let same : v ≡ v' = ground arith in subst P same h

  Keeps-if :
      (b : Bool) (m n : Verifying (List Answer))
      → Keeps P m
      → Keeps P n
      → Keeps P (λ v. if b then m v else n v)
  Keeps-if true m n km kn = km
  Keeps-if false m n km kn = kn

  Keeps-then {ℓ} :
      {A : Type ℓ} (m : Result A) (f : A → Verifying (List Answer))
      → ((a : A) → Keeps P (f a))
      → Keeps P (λ v. m >>= λ a. f a v)
  Keeps-then (ok a) f kf v v' answers e h = kf a v v' answers e h
  Keeps-then (raise x) f kf v v' answers e h = absurd (ground arith)

  Keeps-bind :
      (m : Verifying (List Answer)) (f : List Answer → Verifying (List Answer))
      → Keeps P m
      → ((a : List Answer) → Keeps P (f a))
      → Keeps P (λ v. m v >>= λ r. f r.0 r.1)
  Keeps-bind m f km kf v v' answers e h =
      let (r, first, rest) = bind-eq-ok (m v) (λ (r : List Answer × List Rule). f r.0 r.1) e in
      kf r.0 r.1 v' answers rest (km v r.1 r.0 first h)

module _ (services : Services) (ctx : RuleContext) (P : List Rule → Type 0) (add : Extends P) where
  module _ (check_remote : Policy → Verifying (List Answer))
      (remote_keeps : (p : Policy) → Keeps P (check_remote p)) where
    check_sub_policies-Keeps :
        (subs : List Policy) (answers : List Answer)
        → Keeps P (check_sub_policies services ctx check_remote subs answers)
    unfolding check_sub_policies
    check_sub_policies-Keeps [] answers = Keeps-ok P answers
    check_sub_policies-Keeps (sub ∷ rest) answers =
        Keeps-then P (policy_matches services 1 sub (context_attributes services ctx)) _ λ applies.
          Keeps-bind P (λ v. if applies then check_remote sub v else ok ([], v))
            (λ more. check_sub_policies services ctx check_remote rest (answers ++ more))
            (Keeps-if P applies (check_remote sub) (λ v. ok ([], v)) (remote_keeps sub)
              (Keeps-ok P []))
            (λ more. check_sub_policies-Keeps rest (answers ++ more))

    check_rule-Keeps :
        (p : Policy) (rule : Rule) → Keeps P (check_rule services ctx check_remote p rule)
    unfolding check_rule
    check_rule-Keeps p (remote_rule sources required) =
        Keeps-then P (get_sub_policies services sources required p ctx.subject)
          (λ found. check_sub_policies services ctx check_remote found.0 found.1)
          (λ found. check_sub_policies-Keeps found.0 found.1)
    check_rule-Keeps p (passing_test_case_rule name scenario since until) =
        Keeps-then P (check_test_case services ctx name scenario since until p)
          (λ answers v. ok (answers, v)) (Keeps-ok P)

    verify-Keeps : (p : Policy) (rule : Rule) → Keeps P (verify services ctx check_remote p rule)
    unfolding verify
    verify-Keeps p rule v v' answers e h = elim (Bool-cases (any (rule_eq rule) v)) [
      | inl old ↦ Keeps-ok P [] v v' answers (rw old at e) h
      | inr new ↦
          check_rule-Keeps p rule (v ++ rule ∷ []) v' answers (rw new at e) (add v rule new h)
    ]

    verify_all-Keeps :
        (p : Policy) (rules : List Rule) → Keeps P (verify_all services ctx check_remote p rules)
    unfolding verify_all
    verify_all-Keeps p [] = Keeps-ok P []
    verify_all-Keeps p (rule ∷ rules) =
        Keeps-bind P (verify services ctx check_remote p rule)
          (λ answers v.
            verify_all services ctx check_remote p rules v >>= λ r. ok (answers ++ r.0, r.1))
          (verify-Keeps p rule)
          (λ answers.
            Keeps-bind P (verify_all services ctx check_remote p rules)
              (λ more v. ok (answers ++ more, v)) (verify_all-Keeps p rules)
              (λ more. Keeps-ok P (answers ++ more)))

  pub check_policy-Keeps : (depth : ℕ) (p : Policy) → Keeps P (check_policy services ctx depth p)
  unfolding check_policy
  check_policy-Keeps zero p v v' answers e h = absurd (ground arith)
  check_policy-Keeps (suc depth) p v v' answers e h =
      elim (Option-cases (package_answers services ctx p)) [
        | inl checked ↦
            verify_all-Keeps (check_policy services ctx depth) (check_policy-Keeps depth) p p.rules
              v v' answers (rw (checked, check_policy) at e) h
        | inr (found, excluded) ↦ Keeps-ok P found v v' answers (rw (excluded, check_policy) at e) h
      ]

-- `verified_rules` without two equal rules.
abbrev pub Distinct : List Rule → Type 0
Distinct [] = Unit
Distinct (r ∷ v) = (any (rule_eq r) v ≡ false) × Distinct v

Distinct-concat : Extends Distinct
Distinct-concat [] r new h = (refl, tt)
Distinct-concat (x ∷ v) r new h = (
  ground (arith, any-append (rule_eq x) v (r ∷ []), h.0, rule_eq_comm x r),
  Distinct-concat v r (ground arith) h.1,
)

abbrev Knows : Rule → List Rule → Type 0
Knows r v = any (rule_eq r) v ≡ true

Knows-concat : (s : Rule) → Extends (Knows s)
Knows-concat s v r new h = ground (arith, any-append (rule_eq s) v (r ∷ []))

Knows-of_SameRule : (r s : Rule) (v : List Rule) → SameRule r s → Knows r v → Knows s v
Knows-of_SameRule r s [] same h = absurd (ground arith)
Knows-of_SameRule r s (x ∷ v) same h =
    ground (arith, rule_eq_of_SameRule r s x same, Knows-of_SameRule r s v same)

verify-Knows :
    (services : Services) (ctx : RuleContext) (depth : ℕ) (p : Policy) (r s : Rule)
    (v v' : List Rule) (answers : List Answer)
    → SameRule r s
    → verify services ctx (check_policy services ctx depth) p r v ≡ ok (answers, v')
    → Knows s v'
unfolding verify
verify-Knows services ctx depth p r s v v' answers same e = elim (Bool-cases (any (rule_eq r) v)) [
  | inl old ↦ Keeps-ok (Knows s) [] v v' answers (rw old at e) (Knows-of_SameRule r s v same old)
  | inr new ↦
      check_rule-Keeps services ctx (Knows s) (Knows-concat s) (check_policy services ctx depth)
        (check_policy-Keeps services ctx (Knows s) (Knows-concat s) depth) p r (v ++ r ∷ []) v'
        answers (rw new at e)
        (ground (
          arith,
          any-append (rule_eq s) v (r ∷ []),
          rule_eq_of_SameRule r s r same,
          rule_eq_refl r,
        ))
]

-- The rules that `Policy.check` goes through: none, if the package is excluded or not allowed.
abbrev pub rules_of : Services → RuleContext → Policy → List Rule
rules_of services ctx p = elim (package_answers services ctx p) [
  | some answers ↦ []
  | none ↦ p.rules
]

-- All of these rules are equal to verified ones.
abbrev pub AllKnown : List Rule → List Rule → Type 0
AllKnown rules v = All (λ r. any (rule_eq r) v ≡ true) rules

AllKnown-concat : (rules : List Rule) → Extends (AllKnown rules)
AllKnown-concat [] v r new h = tt
AllKnown-concat (s ∷ rules) v r new h =
    (Knows-concat s v r new h.0, AllKnown-concat rules v r new h.1)

AllKnown-cons : (rules v : List Rule) (r : Rule) → AllKnown rules v → AllKnown rules (r ∷ v)
AllKnown-cons [] v r h = tt
AllKnown-cons (s ∷ rules) v r h = (ground (arith, h.0), AllKnown-cons rules v r h.1)

AllKnown-self : (v : List Rule) → AllKnown v v
AllKnown-self [] = tt
AllKnown-self (r ∷ v) = (ground (arith, rule_eq_refl r), AllKnown-cons v v r (AllKnown-self v))

module _ (services : Services) (ctx : RuleContext) (depth : ℕ) (p : Policy) where
  verify_all-AllKnown :
      (rules v v' : List Rule) (answers : List Answer)
      → verify_all services ctx (check_policy services ctx depth) p rules v ≡ ok (answers, v')
      → AllKnown rules v'
  unfolding verify_all
  verify_all-AllKnown [] v v' answers e = tt
  verify_all-AllKnown (r ∷ rules) v v' answers e =
      let remote = check_policy services ctx depth in
      let (first, verified, rest) =
        bind-eq-ok (verify services ctx remote p r v)
          (λ (x : List Answer × List Rule).
            verify_all services ctx remote p rules x.1 >>= λ y. ok (x.0 ++ y.0, y.1))
          e in
      let (later, checked, end) =
        bind-eq-ok (verify_all services ctx remote p rules first.1)
          (λ (y : List Answer × List Rule). ok (first.0 ++ y.0, y.1)) rest in
      let same : later.1 ≡ v' = ground arith in
      subst (AllKnown (r ∷ rules)) same (
        verify_all-Keeps services ctx (Knows r) (Knows-concat r) remote
            (check_policy-Keeps services ctx (Knows r) (Knows-concat r) depth) p rules first.1
            later.1 later.0 checked
            (verify-Knows services ctx depth p r r v first.1 first.0 (SameRule-refl r) verified),
        verify_all-AllKnown rules first.1 later.1 later.0 checked,
      )

check_policy-AllKnown :
    (services : Services) (ctx : RuleContext) (depth : ℕ) (p : Policy) (v v' : List Rule)
    (answers : List Answer)
    → check_policy services ctx depth p v ≡ ok (answers, v')
    → AllKnown (rules_of services ctx p) v'
unfolding check_policy
check_policy-AllKnown services ctx zero p v v' answers e = absurd (ground arith)
check_policy-AllKnown services ctx (suc depth) p v v' answers e =
    elim (Option-cases (package_answers services ctx p)) [
      | inl checked ↦
          rw (checked, rules_of)
            (verify_all-AllKnown services ctx depth p p.rules v v' answers
              (rw (checked, check_policy) at e))
      | inr (found, excluded) ↦ rw (excluded, rules_of) tt
    ]

-- Checking a policy, with the remote policies that it leads to, leaves no two equal rules among the
-- verified ones if there were none; and each rule that was verified before has an equal among them, and so
-- has, unless the package is excluded or not allowed, each rule of the policy.
pub check_policy-Distinct :
    (services : Services) (ctx : RuleContext) (depth : ℕ) (p : Policy) (v v' : List Rule)
    (answers : List Answer)
    → check_policy services ctx depth p v ≡ ok (answers, v')
    → Distinct v
    → Distinct v' × AllKnown v v' × AllKnown (rules_of services ctx p) v'
check_policy-Distinct services ctx depth p v v' answers e h = (
  check_policy-Keeps services ctx Distinct Distinct-concat depth p v v' answers e h,
  check_policy-Keeps services ctx (AllKnown v) (AllKnown-concat v) depth p v v' answers e
      (AllKnown-self v),
  check_policy-AllKnown services ctx depth p v v' answers e,
)

-- Once a rule is verified, an equal rule gives no answers, whatever the policy that holds it: neither
-- other times of validity nor another policy's decision contexts make a rule count again.
pub verify_twice :
    (services : Services) (ctx : RuleContext) (depth : ℕ) (p q : Policy) (r s : Rule)
    (v v' : List Rule) (answers : List Answer)
    → SameRule r s
    → verify services ctx (check_policy services ctx depth) p r v ≡ ok (answers, v')
    → verify services ctx (check_policy services ctx depth) q s v' ≡ ok ([], v')
unfolding verify
verify_twice services ctx depth p q r s v v' answers same e =
    rw (verify-Knows services ctx depth p r s v v' answers same e)

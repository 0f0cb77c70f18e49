-- ===== src/Policy/Matching/Depth.antt =====
-- Two levels of policies are all that `matches` follows.
use greenwave.Prelude.{
  ℕ, suc, String, ◌≡◌, refl, Bool, false, List, [], ◌∷◌, arith, Option-cases, inl, inr, any, All,
}
use greenwave.Outcome.{Result, Result-cases, any_of}
use greenwave.Policy.{Rule, remote_rule, passing_test_case_rule, is_remote, Policy}
use greenwave.Policy.Services.{Services}
use greenwave.Policy.Remote.{get_sub_policies}
use greenwave.Policy.Remote.Loaded.{NoRemoteRule, get_sub_policies-NoRemoteRule}
use greenwave.Policy.Matching.{Attributes, remote_rule_matches, rule_matches, policy_matches}

any_of_agree {ℓ κ} :
    {A : Type ℓ} (P : A → Type κ) (f g : A → Result Bool) (xs : List A)
    → ((x : A) → P x → f x ≡ g x)
    → All P xs
    → any_of f xs ≡ any_of g xs
any_of_agree P f g [] agree h = refl
any_of_agree P f g (x ∷ xs) agree h = rw (agree x h.0, any_of_agree P f g xs agree h.1)

module _ (services : Services) where
  rule_matches_NoRemoteRule :
      (f g : Policy → Attributes → Result Bool) (p : Policy) (a : Attributes) (rules : List Rule)
      → any is_remote rules ≡ false
      → any_of (rule_matches services f p a) rules ≡ any_of (rule_matches services g p a) rules
  unfolding rule_matches
  rule_matches_NoRemoteRule f g p a [] h = refl
  rule_matches_NoRemoteRule f g p a (remote_rule sources required ∷ rules) h = absurd (ground arith)
  rule_matches_NoRemoteRule f g p a (passing_test_case_rule name sc since until ∷ rules) h =
      rw (rule_matches_NoRemoteRule f g p a rules h)

  policy_matches-NoRemoteRule :
      (m n : ℕ) (a : Attributes) (p : Policy)
      → NoRemoteRule p
      → policy_matches services (suc m) p a ≡ policy_matches services (suc n) p a
  unfolding policy_matches
  policy_matches-NoRemoteRule m n a p h = rw (
      rule_matches_NoRemoteRule (policy_matches services m) (policy_matches services n) p a p.rules
        h)

  module _ (f g : Policy → Attributes → Result Bool) (a : Attributes)
      (agree : (p : Policy) → NoRemoteRule p → f p a ≡ g p a) where
    remote_rule_matches_agree :
        (sources : List String) (required : Bool) (p : Policy)
        → remote_rule_matches services f sources required p a
          ≡ remote_rule_matches services g sources required p a
    unfolding remote_rule_matches
    remote_rule_matches_agree sources required p = elim (Option-cases a.subject) [
      | inl absent ↦ rw (absent, remote_rule_matches)
      | inr (s, present) ↦ elim (Result-cases (get_sub_policies services sources required p s)) [
        | inr (e, raised) ↦ rw (present, raised, remote_rule_matches)
        | inl ((subs, answers), got) ↦ rw (
          present,
          got,
          remote_rule_matches,
          any_of_agree NoRemoteRule (λ sub. f sub a) (λ sub. g sub a) subs agree
              (get_sub_policies-NoRemoteRule services sources required p s subs answers got),
        )
      ]
    ]

    rules_agree :
        (p : Policy) (rules : List Rule)
        → any_of (rule_matches services f p a) rules ≡ any_of (rule_matches services g p a) rules
    unfolding rule_matches
    rules_agree p [] = refl
    rules_agree p (remote_rule sources required ∷ rules) =
        rw (remote_rule_matches_agree sources required p, rules_agree p rules)
    rules_agree p (passing_test_case_rule name sc since until ∷ rules) = rw (rules_agree p rules)

-- More than two levels of policies do not change which policies match, so the bound of two never
-- stops the recursion of matches.
pub policy_matches-depth :
    (services : Services) (n : ℕ) (p : Policy) (a : Attributes)
    → policy_matches services (suc (suc n)) p a ≡ policy_matches services 2 p a
unfolding policy_matches
policy_matches-depth services n p a = rw (
    rules_agree services (policy_matches services (suc n)) (policy_matches services 1) a
      (policy_matches-NoRemoteRule services n 0 a) p p.rules)

-- ===== src/Policy/Checking/Depth.antt =====
-- Remote policies hold no remote rules, so two levels of policies are all there are.
use greenwave.Prelude.{
  ℕ, suc, String, ◌≡◌, refl, fun_ext, Bool, false, List, [], ◌∷◌, ◌++◌, arith, any, All,
}
use greenwave.Outcome.{Result, ok, raise, ◌>>=◌}
use greenwave.Answer.{Answer}
use greenwave.Policy.{Rule, remote_rule, passing_test_case_rule, is_remote, Policy}
use greenwave.Policy.Services.{Services}
use greenwave.Policy.Remote.{get_sub_policies}
use greenwave.Policy.Remote.Loaded.{NoRemoteRule, get_sub_policies-NoRemoteRule}
use greenwave.Policy.Checking.{
  RuleContext, Verifying, check_sub_policies, check_rule, verify, verify_all, check_policy,
}

module _ (services : Services) (ctx : RuleContext) where
  -- The rules of a policy without remote rules are verified alike, however remote policies are checked.
  verify_all_NoRemoteRule :
      (f g : Policy → Verifying (List Answer)) (p : Policy) (rules : List Rule) (v : List Rule)
      → any is_remote rules ≡ false
      → verify_all services ctx f p rules v ≡ verify_all services ctx g p rules v
  unfolding verify_all verify check_rule
  verify_all_NoRemoteRule f g p [] v h = refl
  verify_all_NoRemoteRule f g p (remote_rule sources required ∷ rules) v h = absurd (ground arith)
  verify_all_NoRemoteRule f g p (passing_test_case_rule name scenario since until ∷ rules) v h =
      rw (fun_ext λ (w : List Rule). verify_all_NoRemoteRule f g p rules w h)

  check_policy-NoRemoteRule :
      (m n : ℕ) (p : Policy) (v : List Rule)
      → NoRemoteRule p
      → check_policy services ctx (suc m) p v ≡ check_policy services ctx (suc n) p v
  unfolding check_policy
  check_policy-NoRemoteRule m n p v h = ground (
    arith,
    verify_all_NoRemoteRule (check_policy services ctx m) (check_policy services ctx n) p p.rules v
        h,
  )

  module _ (f g : Policy → Verifying (List Answer))
      (agree : (p : Policy) (v : List Rule) → NoRemoteRule p → f p v ≡ g p v) where
    check_sub_policies_agree :
        (subs : List Policy) (answers : List Answer) (v : List Rule)
        → All NoRemoteRule subs
        → check_sub_policies services ctx f subs answers v
          ≡ check_sub_policies services ctx g subs answers v
    unfolding check_sub_policies
    check_sub_policies_agree [] answers v h = refl
    check_sub_policies_agree (sub ∷ rest) answers v h = rw (
      agree sub v h.0,
      fun_ext
          λ (r : List Answer × List Rule). check_sub_policies_agree rest (answers ++ r.0) r.1 h.1,
    )

    check_found_agree :
        (p : Policy) (sources : List String) (required : Bool) (v : List Rule)
        (r : Result (List Policy × List Answer))
        → get_sub_policies services sources required p ctx.subject ≡ r
        → (r >>= λ found. check_sub_policies services ctx f found.0 found.1 v)
          ≡ (r >>= λ found. check_sub_policies services ctx g found.0 found.1 v)
    check_found_agree p sources required v (ok found) e =
        check_sub_policies_agree found.0 found.1 v
          (get_sub_policies-NoRemoteRule services sources required p ctx.subject found.0 found.1 e)
    check_found_agree p sources required v (raise x) e = refl

    check_rule_agree :
        (p : Policy) (rule : Rule) (v : List Rule)
        → check_rule services ctx f p rule v ≡ check_rule services ctx g p rule v
    unfolding check_rule
    check_rule_agree p (remote_rule sources required) v =
        check_found_agree p sources required v _ refl
    check_rule_agree p (passing_test_case_rule name scenario since until) v = refl

    verify_all_agree :
        (p : Policy) (rules : List Rule) (v : List Rule)
        → verify_all services ctx f p rules v ≡ verify_all services ctx g p rules v
    unfolding verify_all verify
    verify_all_agree p [] v = refl
    verify_all_agree p (rule ∷ rules) v = rw (
      check_rule_agree p rule (v ++ rule ∷ []),
      fun_ext λ (w : List Rule). verify_all_agree p rules w,
    )

-- Two levels of policies are enough: more change no answer, so the bound of two that the decision
-- uses never stops the recursion through remote policies.
pub check_policy-depth :
    (services : Services) (ctx : RuleContext) (n : ℕ) (p : Policy) (v : List Rule)
    → check_policy services ctx (suc (suc n)) p v ≡ check_policy services ctx 2 p v
unfolding check_policy
check_policy-depth services ctx n p v = ground (
  arith,
  verify_all_agree services ctx (check_policy services ctx (suc n)) (check_policy services ctx 1)
      (check_policy-NoRemoteRule services ctx n 0) p p.rules v,
)

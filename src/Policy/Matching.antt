-- ===== src/Policy/Matching.antt =====
-- `Policy.matches` and `matches` of the rules: which policies a request or a message is about.
pub mod Depth
pub mod Pairs
use greenwave.Prelude.{
  ℕ, zero, suc, String, Bool, true, false, not, ◌&&◌, ◌||◌, List, Option, none, some, ◌==◌,
  string_eq, elem, any, is_empty, truthy, if◌then◌else◌,
}
use greenwave.Outcome.{Result, ok, raise, recursion, ◌>>=◌, any_of}
use greenwave.Subject.{Subject}
use greenwave.Answer.{is_satisfied}
use greenwave.Policy.{
  Rule, remote_rule, passing_test_case_rule, Policy, all_decision_contexts, matches_product_version,
  matches_subject_type,
}
use greenwave.Policy.Services.{Services}
use greenwave.Policy.Remote.{get_sub_policies}

-- The keyword arguments that `matches` reads. No decision contexts, or an absent attribute, match
-- anything.
pub record Attributes : Type 0 where
  pub decision_contexts : List String
  pub product_version : Option String
  pub subject : Option Subject
  pub testcase : Option String
  pub match_any_remote_rule : Bool

-- The tests of `Policy.matches` before the one on the rules, in its order.
unfoldable pub attributes_match : Policy → Attributes → Result Bool
attributes_match p a = do
  in_context ← if is_empty a.decision_contexts then ok true else (do
    contexts ← all_decision_contexts p
    ok (any (λ c. elem c contexts) a.decision_contexts))
  ok (
      in_context
      && elim a.product_version [
        | none ↦ true
        | some v ↦ not (truthy v) || matches_product_version p v
      ]
      && matches_subject_type p a.subject)

-- `PassingTestCaseRule.matches`
unfoldable pub testcase_matches : String → Option String → Bool
testcase_matches name none = true
testcase_matches name (some t) = not (truthy t) || (t == name)

module _ (services : Services) where
  module _ (sub_policy_matches : Policy → Attributes → Result Bool) where
    -- `RemoteRule.matches`
    unfoldable pub remote_rule_matches : List String → Bool → Policy → Attributes → Result Bool
    remote_rule_matches sources required p a =
        if a.match_any_remote_rule then ok true else elim a.subject [
          | none ↦ ok true
          | some s ↦ do
            (subs, answers) ← get_sub_policies services sources required p s
            if is_empty answers || any (λ x. not (is_satisfied x)) answers
                then ok true
                else any_of (λ sub. sub_policy_matches sub a) subs
        ]

    unfoldable pub rule_matches : Policy → Attributes → Rule → Result Bool
    rule_matches p a (remote_rule sources required) = remote_rule_matches sources required p a
    rule_matches p a (passing_test_case_rule name scenario since until) =
        ok (testcase_matches name a.testcase)

  -- The number bounds how deep remote policies are followed.
  unfoldable pub policy_matches : ℕ → Policy → Attributes → Result Bool
  policy_matches zero p a = raise recursion
  policy_matches (suc depth) p a = do
    applies ← attributes_match p a
    if not applies
        then ok false
        else if is_empty p.rules
        then ok true
        else any_of (rule_matches (policy_matches depth) p a) p.rules

-- Remote policies hold no remote rules, so policies are followed two deep.
abbrev pub max_depth : ℕ
max_depth = 2

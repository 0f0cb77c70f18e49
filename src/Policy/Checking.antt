-- ===== src/Policy/Checking.antt =====
-- `check` of rules and policies, and `RuleContext`: the answers for one subject.
pub mod Rules
pub mod Policies
pub mod Depth
use greenwave.Prelude.{
  ℕ, zero, suc, String, Bool, true, false, not, ◌&&◌, ◌||◌, List, [], ◌∷◌, ◌++◌, map, Option, none,
  some, get, put, ◌==◌, string_eq, elem, any, select, is_empty, is_some, truthy, leb, ltb,
  if◌then◌else◌,
}
use greenwave.Outcome.{Result, ok, raise, recursion, ◌>>=◌}
use greenwave.Fnmatch.{fnmatch}
use greenwave.Subject.{Subject, package_name}
use greenwave.Answer.{
  ResultData, Answer, satisfied, unsatisfied, test_result_missing, test_result_incomplete,
  test_result_failed, test_result_errored, test_result_passed, excluded_in_policy,
}
use greenwave.Policy.{Rule, remote_rule, passing_test_case_rule, rule_eq, Policy}
use greenwave.Policy.Services.{Config, TestResult, Services}
use greenwave.Policy.Remote.{get_sub_policies}
use greenwave.Policy.Matching.{Attributes, policy_matches}

-- `RuleContext`, but for `verified_rules`, which the calls below hand on.
pub record RuleContext : Type 0 where
  pub decision_contexts : List String
  pub product_version : String
  pub subject : Subject

-- Calls that read and extend `verified_rules`. An exception ends the decision, so the list is not
-- needed after one.
abbrev pub Verifying {ℓ} : Type ℓ → Type ℓ
Verifying A = List Rule → Result (A × List Rule)

-- `(values or [None])[0]`
abbrev first_value : Option (List String) → Option String
first_value none = none
first_value (some []) = none
first_value (some (v ∷ vs)) = some v

unfoldable pub result_data : List String → TestResult → ResultData → ResultData
result_data [] r acc = acc
result_data (key ∷ keys) r acc = result_data keys r (put key (first_value (get key r.fields)) acc)

-- `_answer_for_result`
unfoldable pub answer_for_result : Config → String → Subject → Option String → TestResult → Answer
answer_for_result config name s source r =
    let fields = result_data config.distinct_latest_results_on r [] in
    if elem r.outcome config.outcomes_passed
    then satisfied (test_result_passed s name source r.id fields)
    else if elem r.outcome config.outcomes_incomplete
    then unsatisfied (test_result_incomplete s name source r.id fields)
    else if elem r.outcome config.outcomes_error
    then unsatisfied (test_result_errored s name source r.id fields r.error_reason)
    else unsatisfied (test_result_failed s name source r.id fields)

-- `self.scenario in result["data"].get("scenario", [])`
abbrev has_scenario : String → TestResult → Bool
has_scenario scenario r = elim (get "scenario" r.fields) [
  | none ↦ false
  | some values ↦ elem scenario values
]

unfoldable pub matching_results : Option String → List TestResult → List TestResult
matching_results none results = results
matching_results (some scenario) results = select (has_scenario scenario) results

abbrev before : ℕ → Option ℕ → Bool
before time none = false
before time (some since) = ltb time since

abbrev from_on : ℕ → Option ℕ → Bool
from_on time none = false
from_on time (some until) = leb until time

-- Whether the rule does not count for a build of that time.
unfoldable pub outside : Option ℕ → Option ℕ → ℕ → Bool
outside since until time = before time since || from_on time until

module _ (services : Services) (ctx : RuleContext) where
  -- The answers for the results, once the rule counts.
  unfoldable pub answers_for :
      String → Option String → Option String → List TestResult → List Answer
  answers_for name scenario source results =
      let matching = matching_results scenario results in
      if is_empty matching
      then unsatisfied (test_result_missing ctx.subject name scenario source) ∷ []
      else map (answer_for_result services.config name ctx.subject source) matching

  -- `PassingTestCaseRule.check`
  unfoldable pub check_test_case :
      String → Option String → Option ℕ → Option ℕ → Policy → Result (List Answer)
  check_test_case name scenario since until p = do
    skipped ←
        if is_some since || is_some until
        then (do
          time ← services.retrieve_koji_build_creation_time ctx.subject.item
          ok (outside since until time))
        else ok false
    if skipped then ok [] else (do
      results ← services.retrieve_results ctx.subject name
      ok (answers_for name scenario p.source results))

  -- What `RemoteRule.check` passes to `matches` of a remote policy.
  abbrev context_attributes : Attributes
  context_attributes = record {
    decision_contexts = ctx.decision_contexts;
    product_version = some ctx.product_version;
    subject = none;
    testcase = none;
    match_any_remote_rule = false;
  }

  module _ (check_remote : Policy → Verifying (List Answer)) where
    -- The loop of `RemoteRule.check`. With no subject among the attributes no rule is followed.
    unfoldable pub check_sub_policies : List Policy → List Answer → Verifying (List Answer)
    check_sub_policies [] answers verified = ok (answers, verified)
    check_sub_policies (sub ∷ rest) answers verified = do
      applies ← policy_matches services 1 sub context_attributes
      (more, verified') ← if applies then check_remote sub verified else ok ([], verified)
      check_sub_policies rest (answers ++ more) verified'

    unfoldable pub check_rule : Policy → Rule → Verifying (List Answer)
    check_rule p (remote_rule sources required) verified = do
      (subs, answers) ← get_sub_policies services sources required p ctx.subject
      check_sub_policies subs answers verified
    check_rule p (passing_test_case_rule name scenario since until) verified = do
      answers ← check_test_case name scenario since until p
      ok (answers, verified)

    -- `RuleContext.verify`
    unfoldable pub verify : Policy → Rule → Verifying (List Answer)
    verify p rule verified =
        if any (rule_eq rule) verified
        then ok ([], verified)
        else check_rule p rule (verified ++ rule ∷ [])

    -- The loop at the end of `Policy.check`.
    unfoldable pub verify_all : Policy → List Rule → Verifying (List Answer)
    verify_all p [] verified = ok ([], verified)
    verify_all p (rule ∷ rules) verified = do
      (answers, verified') ← verify p rule verified
      (more, verified'') ← verify_all p rules verified'
      ok (answers ++ more, verified'')

  -- The beginning of `Policy.check`: the answers, if the package is excluded or not allowed.
  unfoldable pub package_answers : Policy → Option (List Answer)
  package_answers p = elim (package_name ctx.subject) [
    | none ↦ none
    | some name ↦
        if not (truthy name)
        then none
        else if any (fnmatch name) p.excluded_packages
        then some (satisfied (excluded_in_policy ctx.subject.item p.id p.source) ∷ [])
        else if not (is_empty p.packages) && not (any (fnmatch name) p.packages)
        then some []
        else none
  ]

  -- `Policy.check`. The number bounds how deep remote policies are followed.
  unfoldable pub check_policy : ℕ → Policy → Verifying (List Answer)
  check_policy zero p verified = raise recursion
  check_policy (suc depth) p verified = elim (package_answers p) [
    | some answers ↦ ok (answers, verified)
    | none ↦ verify_all (check_policy depth) p p.rules verified
  ]

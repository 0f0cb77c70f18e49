-- ===== src/Policy/Checking/Rules.antt =====
-- Test case rules: which results count, what they say, and the times of validity.
use greenwave.Prelude.{
  ℕ, String, ◌≡◌, refl, Bool, not, ◌&&◌, List, [], ◌∷◌, map, Option, none, some, arith, string_eq,
  elem, all, is_empty, if◌then◌else◌,
}
use greenwave.Outcome.{ok}
use greenwave.Subject.{Subject}
use greenwave.Answer.{is_satisfied}
use greenwave.Policy.{Policy}
use greenwave.Policy.Services.{Config, TestResult, Services}
use greenwave.Policy.Checking.{
  RuleContext, answer_for_result, matching_results, outside, answers_for, check_test_case,
}

abbrev pub has_passed : Config → TestResult → Bool
has_passed config r = elem r.outcome config.outcomes_passed

is_satisfied-answer_for_result :
    (config : Config) (name : String) (s : Subject) (source : Option String) (r : TestResult)
    → is_satisfied (answer_for_result config name s source r) ≡ has_passed config r
unfolding answer_for_result is_satisfied
is_satisfied-answer_for_result config name s source r = ground arith

all_satisfied-map :
    (config : Config) (name : String) (s : Subject) (source : Option String)
    (results : List TestResult)
    → all is_satisfied (map (answer_for_result config name s source) results)
      ≡ all (has_passed config) results
all_satisfied-map config name s source [] = refl
all_satisfied-map config name s source (r ∷ rest) = ground (
  arith,
  is_satisfied-answer_for_result config name s source r,
  all_satisfied-map config name s source rest,
)

-- The answers for a test case are all satisfied exactly when there is a result for its scenario and
-- every such result, not only the latest, has an outcome that passes.
pub all_satisfied-answers_for :
    (services : Services) (ctx : RuleContext) (name : String) (scenario source : Option String)
    (results : List TestResult)
    → all is_satisfied (answers_for services ctx name scenario source results) ≡ (
        not (is_empty (matching_results scenario results))
        && all (has_passed services.config) (matching_results scenario results))
unfolding answers_for is_satisfied
all_satisfied-answers_for services ctx name scenario source results = ground (
  arith,
  all_satisfied-map services.config name ctx.subject source (matching_results scenario results),
)

-- For a build of a known time, a rule with times of validity gives no answer outside them, and
-- within them what the rule without such times gives.
pub check_test_case-valid :
    (services : Services) (ctx : RuleContext) (name : String) (scenario : Option String)
    (since until : Option ℕ) (p : Policy) (time : ℕ)
    → services.retrieve_koji_build_creation_time ctx.subject.item ≡ ok time
    → check_test_case services ctx name scenario since until p ≡ (
        if outside since until time
        then ok []
        else check_test_case services ctx name scenario none none p)
unfolding check_test_case outside
check_test_case-valid services ctx name scenario since until p time h = ground arith

-- Of a rule valid until a time and one valid since that time exactly one counts for any build.
pub outside-handover :
    (time change : ℕ) → outside none (some change) time ≡ not (outside (some change) none time)
unfolding outside
outside-handover time change = ground arith

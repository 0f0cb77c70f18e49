-- ===== src/Decision.antt =====
-- `Decision` of decision.py: the answers for the subjects of one request.
pub mod Request
pub mod Waiving
use greenwave.Prelude.{
  ℕ, String, Bool, true, false, not, ◌&&◌, ◌||◌, List, [], ◌∷◌, ◌++◌, map, Option, none, some, ◌==◌,
  string_eq, option_eq, all, any, select, is_empty, join, ◌<>◌, if◌then◌else◌,
}
use greenwave.Outcome.{Result, ok, raise, not_found, ◌>>=◌, filter_by}
use greenwave.Json.{Object}
use greenwave.Subject.{Subject}
use greenwave.Answer.{
  Answer, satisfied, unsatisfied, RuleNotSatisfied, is_satisfied, subject, test_case_name, to_json,
}
use greenwave.Waiver.{Waiver, WaiverFilter, waive_answers}
use greenwave.Policy.{Rule, Policy}
use greenwave.Policy.Services.{TestResult, Services}
use greenwave.Policy.Matching.{Attributes, policy_matches, max_depth}
use greenwave.Policy.Checking.{RuleContext, Verifying, check_policy}
use greenwave.Summary.{summarize_answers}

pub record Decision : Type 0 where
  pub decision_contexts : List String
  pub product_version : String
  pub verbose : Bool
  pub verbose_results : List TestResult
  pub waivers : List Waiver
  pub waiver_filters : List WaiverFilter
  pub answers : List Answer
  pub applicable_policies : List Policy

unfoldable pub new_decision : List String → String → Bool → Decision
new_decision contexts product_version verbose = record {
  decision_contexts = contexts;
  product_version = product_version;
  verbose = verbose;
  verbose_results = [];
  waivers = [];
  waiver_filters = [];
  answers = [];
  applicable_policies = [];
}

module _ (services : Services) where
  abbrev pub subject_attributes : Decision → Subject → Attributes
  subject_attributes d s = record {
    decision_contexts = d.decision_contexts;
    product_version = some d.product_version;
    subject = some s;
    testcase = none;
    match_any_remote_rule = true;
  }

  -- `subject_policies`
  unfoldable pub subject_policies : Decision → Subject → List Policy → Result (List Policy)
  subject_policies d s policies =
      filter_by (λ p. policy_matches services max_depth p (subject_attributes d s)) policies

  -- The loop over the policies with one rule context.
  unfoldable pub check_policies : RuleContext → List Policy → Verifying (List Answer)
  check_policies ctx [] verified = ok ([], verified)
  check_policies ctx (p ∷ rest) verified = do
    (answers, verified') ← check_policy services ctx max_depth p verified
    (more, verified'') ← check_policies ctx rest verified'
    ok (answers ++ more, verified'')

  abbrev pub context_of : Decision → Subject → RuleContext
  context_of d s = record {
    decision_contexts = d.decision_contexts;
    product_version = d.product_version;
    subject = s;
  }

  -- `if self.verbose: …`
  unfoldable pub note_verbose : Decision → Subject → Result Decision
  note_verbose d s =
      if d.verbose
      then (do
        results ← services.retrieve_all_results s
        ok (record d {
          verbose_results = d.verbose_results ++ results;
          waiver_filters =
              d.waiver_filters
              ++ record {
                subject_type = s.subject_type.id;
                subject_identifier = s.item;
                product_version = d.product_version;
                testcase = none;
              }
                ∷ [];
        }))
      else ok d

  abbrev pub no_policy_message : Decision → Subject → String
  no_policy_message d s =
      "Found no applicable policies for "
      <> s.subject_type.id
      <> " subjects at gating point(s) "
      <> join " " d.decision_contexts
      <> " in "
      <> d.product_version

  -- `Decision.check`
  unfoldable pub check : Decision → Subject → List Policy → Result Decision
  check d s policies = do
    applicable ← subject_policies d s policies
    if is_empty applicable
        then (if s.subject_type.ignore_missing_policy
            then ok d
            else raise (not_found (no_policy_message d s)))
        else (do
          d' ← note_verbose d s
          (answers, verified) ← check_policies (context_of d s) applicable []
          ok (record d' {
            answers = d'.answers ++ answers;
            applicable_policies = d'.applicable_policies ++ applicable;
          }))

-- `waiver in self.waiver_filters`
abbrev pub same_filter : WaiverFilter → WaiverFilter → Bool
same_filter f g =
    (f.subject_type == g.subject_type)
    && (f.subject_identifier == g.subject_identifier)
    && (f.product_version == g.product_version)
    && (f.testcase == g.testcase)

abbrev pub filter_for : String → RuleNotSatisfied → WaiverFilter
filter_for product_version a = record {
  subject_type = (subject a).subject_type.id;
  subject_identifier = (subject a).item;
  product_version = product_version;
  testcase = some (test_case_name a);
}

abbrev add_filter : WaiverFilter → List WaiverFilter → List WaiverFilter
add_filter f filters = if any (same_filter f) filters then filters else filters ++ f ∷ []

-- The loop of `waive_answers` over the answers.
unfoldable pub collect_filters : String → List Answer → List WaiverFilter → List WaiverFilter
collect_filters product_version [] filters = filters
collect_filters product_version (satisfied a ∷ rest) filters =
    collect_filters product_version rest filters
collect_filters product_version (unsatisfied a ∷ rest) filters =
    collect_filters product_version rest (add_filter (filter_for product_version a) filters)

-- The filters that `Decision.waive_answers` ends with.
unfoldable pub filters_to_ask : Decision → List WaiverFilter
filters_to_ask d =
    if d.verbose
    then d.waiver_filters
    else collect_filters d.product_version d.answers d.waiver_filters

unfoldable pub fetch_waivers : Services → List WaiverFilter → Result (List Waiver)
fetch_waivers services filters =
    if is_empty filters then ok [] else services.retrieve_waivers filters

-- `Decision.waive_answers`
unfoldable pub waive : Services → Decision → Result Decision
waive services d = do
  waivers ← fetch_waivers services (filters_to_ask d)
  ok (record d {
    waiver_filters = filters_to_ask d;
    waivers = waivers;
    answers = waive_answers d.answers waivers;
  })

unfoldable pub policies_satisfied : Decision → Bool
policies_satisfied d = all is_satisfied d.answers

unfoldable pub summary : Decision → String
summary d = summarize_answers d.answers

unfoldable pub satisfied_requirements : Decision → List Object
satisfied_requirements d = map to_json (select is_satisfied d.answers)

unfoldable pub unsatisfied_requirements : Decision → List Object
unsatisfied_requirements d = map to_json (select (λ a. not (is_satisfied a)) d.answers)

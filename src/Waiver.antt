-- ===== src/Waiver.antt =====
-- waivers.py: unsatisfied answers are waived where a waiver matches.
pub mod Laws
use greenwave.Prelude.{
  ℕ, String, Bool, true, false, not, ◌&&◌, ◌||◌, List, [], ◌∷◌, Option, none, some, ◌==◌, string_eq,
  option_eq, given, if◌then◌else◌,
}
use greenwave.Subject.{type_matches}
use greenwave.Answer.{
  RuleNotSatisfied, Answer, satisfied, unsatisfied, subject, test_case_name, scenario, to_waived,
}

pub record Waiver : Type 0 where
  pub id : ℕ
  pub subject_type : String
  pub subject_identifier : String
  pub product_version : String
  pub testcase : String
  pub scenario : Option String
  pub waived : Bool

-- What a decision asks WaiverDB for; no test case stands for all of a subject.
pub record WaiverFilter : Type 0 where
  pub subject_type : String
  pub subject_identifier : String
  pub product_version : String
  pub testcase : Option String

-- The condition of the loop of `_find_waived_id`.
unfoldable pub waiver_matches : RuleNotSatisfied → Waiver → Bool
waiver_matches a w =
    type_matches (subject a).subject_type w.subject_type
    && (w.subject_identifier == (subject a).item)
    && (w.testcase == test_case_name a)
    && (not (given w.scenario) || (w.scenario == scenario a))

unfoldable pub find_waived_id : RuleNotSatisfied → List Waiver → Option ℕ
find_waived_id a [] = none
find_waived_id a (w ∷ rest) = if waiver_matches a w then some w.id else find_waived_id a rest

-- None is an answer that `waive_answers` drops.
unfoldable pub maybe_waive : Answer → List Waiver → Option Answer
maybe_waive (satisfied a) waivers = some (satisfied a)
maybe_waive (unsatisfied a) waivers = elim (find_waived_id a waivers) [
  | none ↦ some (unsatisfied a)
  | some id ↦ elim (to_waived a id) [ none ↦ none | some b ↦ some (satisfied b) ]
]

unfoldable pub waive_answers : List Answer → List Waiver → List Answer
unfolding maybe_waive
waive_answers [] waivers = []
waive_answers (a ∷ rest) waivers =
    let waived = waive_answers rest waivers in
    elim (maybe_waive a waivers) [ none ↦ waived | some b ↦ b ∷ waived ]

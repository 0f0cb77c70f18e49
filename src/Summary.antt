-- ===== src/Summary.antt =====
-- `_Summary` and `summarize_answers` of policies.py.
pub mod Counts
pub mod Permuted
use greenwave.Prelude.{
  ℕ, zero, suc, ◌+◌, ◌/◌, ◌%◌, String, Bool, true, false, List, [], ◌∷◌, Option, none, some, Dict,
  get, put, map, ◌==◌, nat_eq, string_eq, is_empty, join, truthy, ◌<>◌, if◌then◌else◌, Order,
  string_order, insert_sorted,
}
use greenwave.Decimal.{show}
use greenwave.Format.{format}
use greenwave.Answer.{
  RuleNotSatisfied, test_result_missing, test_result_incomplete, test_result_failed,
  test_result_errored, invalid_remote_rule_yaml, missing_remote_rule_yaml,
  failed_fetch_remote_rule_yaml, RuleSatisfied, fetched_remote_rule_yaml, test_result_passed,
  excluded_in_policy, test_result_waived, Answer, satisfied, unsatisfied, is_test_result,
}

-- The class attribute `summary_text`.
unfoldable pub summary_text : RuleNotSatisfied → String
summary_text (test_result_missing s t sc src) = "result{s} missing"
summary_text (test_result_incomplete s t src id d) = "test{s} incomplete"
summary_text (test_result_failed s t src id d) = "test{s} failed"
summary_text (test_result_errored s t src id d e) = "test{s} errored"
summary_text (invalid_remote_rule_yaml s t de src) = "error{s} due to invalid remote rule file"
summary_text (missing_remote_rule_yaml s srcs) = "error{s} due to missing remote rule file"
summary_text (failed_fetch_remote_rule_yaml s srcs e) =
    "error{s} while trying to fetch remote rule file"

-- `is_test_result` of the satisfied answers
unfoldable pub satisfied_is_test : RuleSatisfied → Bool
satisfied_is_test (fetched_remote_rule_yaml s src) = false
satisfied_is_test (test_result_passed s t src id d) = true
satisfied_is_test (excluded_in_policy identifier policy source) = false
satisfied_is_test (test_result_waived a waiver_id) = true

pub record Summary : Type 0 where
  pub test_msgs : Dict String ℕ
  pub non_test_msgs : Dict String ℕ
  pub test_count : ℕ

abbrev pub empty_summary : Summary
empty_summary = record { test_msgs = []; non_test_msgs = []; test_count = 0 }

-- `msgs[text] += 1` of a `defaultdict(int)`
unfoldable pub add_message : String → Dict String ℕ → Dict String ℕ
add_message text [] = (text, 1) ∷ []
add_message text ((t, n) ∷ msgs) =
    if t == text then (t, n + 1) ∷ msgs else (t, n) ∷ add_message text msgs

-- `_Summary.append`
unfoldable pub append : Summary → Answer → Summary
unfolding add_message
append s (satisfied a) =
    if satisfied_is_test a then record s { test_count = s.test_count + 1 } else s
append s (unsatisfied a) =
    if is_test_result a
    then record s {
      test_msgs = add_message (summary_text a) s.test_msgs;
      test_count = s.test_count + 1;
    }
    else record s { non_test_msgs = add_message (summary_text a) s.non_test_msgs }

unfoldable pub append_all : Summary → List Answer → Summary
unfolding append
append_all s [] = s
append_all s (a ∷ rest) = append_all (append s a) rest

-- `sformat`; a template that does not format raises there, and leaves nothing here.
unfoldable pub sformat : String → ℕ → String
unfolding format show
sformat template number =
    elim (format template (("num", show number) ∷ ("s", if number == 1 then "" else "s") ∷ [])) [
      | none ↦ ""
      | some text ↦ text
    ]

-- `sorted(msgs.items())`; the texts are distinct, so they alone decide.
abbrev pub insert_item : String × ℕ → Dict String ℕ → Dict String ℕ
insert_item m [] = m ∷ []
insert_item m (x ∷ xs) = if string_order.leq m.0 x.0 then m ∷ x ∷ xs else x ∷ insert_item m xs

unfoldable pub sorted_items : Dict String ℕ → Dict String ℕ
sorted_items [] = []
sorted_items (m ∷ msgs) = insert_item m (sorted_items msgs)

format_items : Dict String ℕ → List String
unfolding sformat
format_items [] = []
format_items ((text, number) ∷ msgs) = sformat ("{num} " <> text) number ∷ format_items msgs

unfoldable pub messages : Dict String ℕ → String
unfolding format_items sorted_items
messages msgs = join ", " (format_items (sorted_items msgs))

-- The two groups of unsatisfied requirements in words; the empty text if there is none.
unfoldable pub problems : Summary → String
unfolding messages sformat
problems s =
    let others = if is_empty s.non_test_msgs then "" else messages s.non_test_msgs in
    if is_empty s.test_msgs
    then others
    else (let tests = sformat "Of {num} required test{s}, " s.test_count <> messages s.test_msgs in
        if truthy others then others <> ". " <> tests else tests)

-- `_Summary.to_text`
unfoldable pub to_text : Summary → String
unfolding problems show
to_text s =
    if truthy (problems s)
    then problems s
    else if s.test_count == 0
    then "No tests are required"
    else "All required tests (" <> show s.test_count <> " total) have passed or been waived"

unfoldable pub summarize_answers : List Answer → String
unfolding append_all to_text
summarize_answers answers = to_text (append_all empty_summary answers)

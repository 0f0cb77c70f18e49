-- ===== src/Summary/Counts.antt =====
-- What a summary counts, against a plain description of the answers.
use greenwave.Prelude.{
  ℕ, ◌+◌, String, ◌≡◌, refl, Bool, true, false, not, ◌&&◌, List, [], ◌∷◌, Option, none, some, Dict,
  get, arith, ◌==◌, nat_eq, string_eq, ==_iff, all, ◌<>◌, if◌then◌else◌,
}
use native.Mathlib.Nat.{zero-add}
use greenwave.Answer.{Answer, satisfied, unsatisfied, is_satisfied, is_test_result}
use greenwave.Decimal.{show}
use greenwave.Summary.{
  Summary, empty_summary, summary_text, satisfied_is_test, add_message, append, append_all,
  problems, to_text, summarize_answers,
}

abbrev count_of : Option ℕ → ℕ
count_of none = 0
count_of (some n) = n

-- How often a message was added.
abbrev pub times : String → Dict String ℕ → ℕ
times text msgs = count_of (get text msgs)

abbrev one_if : Bool → ℕ
one_if true = 1
one_if false = 0

-- The number of answers about tests.
abbrev pub test_answers : List Answer → ℕ
test_answers [] = 0
test_answers (satisfied a ∷ rest) = one_if (satisfied_is_test a) + test_answers rest
test_answers (unsatisfied a ∷ rest) = one_if (is_test_result a) + test_answers rest

abbrev same_bool : Bool → Bool → Bool
same_bool true b = b
same_bool false b = not b

-- The number of unsatisfied answers of a kind, about tests or not.
abbrev pub unsatisfied_answers : Bool → String → List Answer → ℕ
unsatisfied_answers tests text [] = 0
unsatisfied_answers tests text (satisfied a ∷ rest) = unsatisfied_answers tests text rest
unsatisfied_answers tests text (unsatisfied a ∷ rest) =
    one_if (same_bool tests (is_test_result a) && summary_text a == text)
    + unsatisfied_answers tests text rest

times-add_message :
    (text added : String) (msgs : Dict String ℕ)
    → times text (add_message added msgs) ≡ one_if (added == text) + times text msgs
unfolding add_message
times-add_message text added [] = ground arith
times-add_message text added ((t, n) ∷ msgs) =
    ground
      (arith, times-add_message text added msgs, ==_iff added text, ==_iff t text, ==_iff t added)

record Counted (s s' : Summary) (text : String) (tests others all_tests : ℕ) : Type 0 where
  test_messages : times text s'.test_msgs ≡ times text s.test_msgs + tests
  other_messages : times text s'.non_test_msgs ≡ times text s.non_test_msgs + others
  answers_about_tests : s'.test_count ≡ s.test_count + all_tests

append-Counted :
    (s : Summary) (a : Answer) (text : String)
    → Counted s
        (append s a)
        text
        (unsatisfied_answers true text (a ∷ []))
        (unsatisfied_answers false text (a ∷ []))
        (test_answers (a ∷ []))
unfolding append
append-Counted s (satisfied a) text = record {
  test_messages = ground arith;
  other_messages = ground arith;
  answers_about_tests = ground arith;
}
append-Counted s (unsatisfied a) text = record {
  test_messages = ground (arith, times-add_message text (summary_text a) s.test_msgs);
  other_messages = ground (arith, times-add_message text (summary_text a) s.non_test_msgs);
  answers_about_tests = ground arith;
}

append_all-Counted :
    (s : Summary) (answers : List Answer) (text : String)
    → Counted s
        (append_all s answers)
        text
        (unsatisfied_answers true text answers)
        (unsatisfied_answers false text answers)
        (test_answers answers)
unfolding append_all
append_all-Counted s [] text = omega arith
append_all-Counted s (unsatisfied a ∷ rest) text = omega (
  arith,
  append-Counted s (unsatisfied a) text,
  append_all-Counted (append s (unsatisfied a)) rest text,
)
append_all-Counted s (satisfied a ∷ rest) text = omega (
  arith,
  append-Counted s (satisfied a) text,
  append_all-Counted (append s (satisfied a)) rest text,
)

-- For each message the summary holds the number of unsatisfied answers with that message, apart for
-- answers about tests and for others, and it holds the number of all answers about tests.
pub summary_counts :
    (answers : List Answer) (text : String)
    → (times text (append_all empty_summary answers).test_msgs
        ≡ unsatisfied_answers true text answers)
      × (times text (append_all empty_summary answers).non_test_msgs
          ≡ unsatisfied_answers false text answers)
      × ((append_all empty_summary answers).test_count ≡ test_answers answers)
summary_counts answers text = omega (arith, append_all-Counted empty_summary answers text)

append_all_satisfied :
    (s : Summary) (answers : List Answer)
    → all is_satisfied answers ≡ true
    → append_all s answers ≡ record s { test_count = s.test_count + test_answers answers }
unfolding append_all is_satisfied append
append_all_satisfied s [] h = ground arith
append_all_satisfied s (unsatisfied a ∷ rest) h = absurd (ground arith)
append_all_satisfied s (satisfied a ∷ rest) h =
    ground (arith, append_all_satisfied (append s (satisfied a)) rest h)

-- When every answer is satisfied, the summary says that no tests are required, if no answer is about
-- a test, and else how many tests have passed or been waived.
pub summarize_answers_satisfied :
    (answers : List Answer)
    → all is_satisfied answers ≡ true
    → summarize_answers answers ≡ (
        if test_answers answers == 0
        then "No tests are required"
        else "All required tests ("
          <> show (test_answers answers)
          <> " total) have passed or been waived")
unfolding summarize_answers to_text problems
summarize_answers_satisfied answers h =
    rw (append_all_satisfied empty_summary answers h, zero-add) refl

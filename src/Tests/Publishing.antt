-- ===== src/Tests/Publishing.antt =====
-- Decision updates of the consumers.
use greenwave.Prelude.Text.{ends_with}
use greenwave.Prelude.{
  ◌≡◌, refl, Bool, true, false, List, [], ◌∷◌, ◌++◌, none, some, All, if◌then◌else◌,
}
use greenwave.Outcome.{ok}
use greenwave.Json.{Json, bool, num, str, arr, obj, nil, cons, entry, Object, of_entries, json_eq}
use greenwave.Decimal.{is_digit, digit}
use greenwave.Timestamp.{
  right_before_this_time, add_to_timestamp, read_timestamp, read_iso, read_to_seconds, read_digits,
  literal, is_valid, days_in_month, is_leap, minus_microsecond, previous_day, print, read_utc,
}
use greenwave.Policy.Matching.Pairs.{Pair}
use greenwave.Consumers.{
  Environment, sent, Effects, decision_changed, messaging_tx_sent_ok, equals_except_keys, all_equal,
  same_requirements, is_decision_unchanged, requirements_keys, same_at, publish_update,
  old_and_new_decisions, update_message, after_comparison, after_decisions, turn, publish_changes,
}
use greenwave.Consumers.Changes.{
  is_decision_unchanged-same_at, SameRequirements, is_decision_unchanged-SameRequirements,
}
use greenwave.Consumers.Published.{messages_of, publish_changes-messages_of}
use greenwave.Listeners.Addressed.{Sendable, publish_changes-Sendable}
use greenwave.Tests.Samples.{build}

unfoldable pub publishing : Unit {0}
unfolding json_eq equals_except_keys all_equal same_requirements is_decision_unchanged
    publish_update old_and_new_decisions update_message after_comparison after_decisions turn
    publish_changes right_before_this_time add_to_timestamp read_timestamp ends_with read_iso
    read_utc read_to_seconds read_digits literal is_digit is_valid days_in_month is_leap
    minus_microsecond previous_day print digit
publishing = tt

-- A decision with one requirement, which has the result of that number.
abbrev pub decision_of : Bool → Json → Object
decision_of satisfied id =
    let requirement =
      cons (obj (of_entries (("testcase", str "dist.abicheck") ∷ ("result_id", id) ∷ []))) nil in
    of_entries (
      ("policies_satisfied", bool satisfied)
      ∷ ("satisfied_requirements", arr (if satisfied then requirement else nil))
      ∷ ("unsatisfied_requirements", arr (if satisfied then nil else requirement))
      ∷ [])

same_decision :
    is_decision_unchanged (some (decision_of false (num 1))) (some (decision_of false (num 2)))
    ≡ ok true
unfolding publishing
same_decision = refl

is_decision_unchanged-SameRequirements_example :
    All (SameRequirements (decision_of false (num 1)) (decision_of false (num 2))) requirements_keys
is_decision_unchanged-SameRequirements_example =
    is_decision_unchanged-SameRequirements (decision_of false (num 1)) (decision_of false (num 2))
      same_decision

abbrev pub environment : Environment
environment = record {
  make_decision = λ pair when. elim when [
    | none ↦ ok (decision_of true (num 2))
    | some time ↦ ok (decision_of false (num 1))
  ];
  publish = λ message. sent;
}

abbrev pub nothing : Effects
nothing = record { counted = []; published = [] }

abbrev pairs : List Pair
pairs = ("osci_compose_gate", "rhel-8") ∷ ("osci_compose_gate", "rhel-9") ∷ []

update_events :
    (publish_changes environment "2020-02-07T03:14:43.076427" build
      (some "dist.abicheck")
      pairs
      nothing).0.counted
    ≡ decision_changed "osci_compose_gate"
      ∷ messaging_tx_sent_ok
      ∷ decision_changed "osci_compose_gate"
      ∷ messaging_tx_sent_ok
      ∷ []
unfolding publishing
update_events = refl

publish_changes_ends :
    (publish_changes environment "2020-02-07T03:14:43.076427" build
      (some "dist.abicheck")
      pairs
      nothing).1
    ≡ none
unfolding publishing
publish_changes_ends = refl

publish_changes-messages_of_example :
    (publish_changes environment "2020-02-07T03:14:43.076427" build
      (some "dist.abicheck")
      pairs
      nothing).0.published
    ≡ [] ++ messages_of environment "2020-02-07T03:14:43.076427" build (some "dist.abicheck") pairs
publish_changes-messages_of_example =
    publish_changes-messages_of environment "2020-02-07T03:14:43.076427" build
      (some "dist.abicheck") pairs nothing publish_changes_ends

-- Decisions with a summary.
abbrev pub reporting : Environment
reporting = record environment {
  make_decision = λ pair when. elim when [
    | none ↦ ok (entry "summary" (str "All required tests passed") (decision_of true (num 2)))
    | some time ↦ ok (entry "summary" (str "1 of 1 failed") (decision_of false (num 1)))
  ];
}

publish_changes-Sendable_example :
    All Sendable
      (publish_changes reporting "2020-02-07T03:14:43.076427" build
        (some "dist.abicheck")
        pairs
        nothing).0.published
publish_changes-Sendable_example =
    publish_changes-Sendable reporting "2020-02-07T03:14:43.076427" build (some "dist.abicheck")
      (λ pair d made. search) pairs nothing tt

is_decision_unchanged-same_at_example :
    same_at (decision_of false (num 1)) (decision_of false (num 2)) "policies_satisfied" ≡ true
is_decision_unchanged-same_at_example =
    is_decision_unchanged-same_at (decision_of false (num 1)) (decision_of false (num 2))
      "policies_satisfied" same_decision refl refl

-- ===== src/Consumers/Published.antt =====
-- Which messages are published, and what is counted.
use mathlib.Core.List.{append-nil, append_assoc}
use greenwave.Prelude.{
  String, ◌≡◌, refl, sym, ap, ◌∙◌, Bool, true, false, List, [], ◌∷◌, ◌++◌, Option, none, some,
  arith,
}
use greenwave.Outcome.{Result, ok, raise}
use greenwave.Json.{Object}
use greenwave.Subject.{Subject}
use greenwave.Policy.Matching.Pairs.{Pair}
use greenwave.Consumers.{
  is_decision_unchanged, Environment, Delivery, sent, rejected, not_connected, failed, Effects,
  Outcome, after_delivery, publish_update, old_and_new_decisions, update_message, after_comparison,
  after_decisions, turn, then_continue, count, decision_changed, publish_changes,
}

module _ (environment : Environment) (submit_time : String) (s : Subject)
    (testcase : Option String) where
  -- The message about one pair: there is one if both decisions were made and differ.
  abbrev pub changed : Pair → Result Bool → Object → Object → List Object
  changed pair (ok false) old new = update_message s testcase pair old new ∷ []
  changed pair _ old new = []

  abbrev pub message_of : Pair → Result (Option (Object × Object)) → List Object
  message_of pair (ok (some (old, new))) =
      changed pair (is_decision_unchanged (some old) (some new)) old new
  message_of pair _ = []

  abbrev pub messages_of : List Pair → List Object
  messages_of [] = []
  messages_of (pair ∷ rest) =
      message_of pair (old_and_new_decisions environment submit_time pair) ++ messages_of rest

  pub publish_update-published :
      (message : Object) (effects : Effects)
      → (publish_update environment message effects).published ≡ effects.published ++ message ∷ []
  unfolding publish_update
  publish_update-published message effects = by_delivery (environment.publish message)
    where
      by_delivery :
          (d : Delivery)
          → (after_delivery d
              (record effects { published = effects.published ++ message ∷ [] })).published
            ≡ effects.published ++ message ∷ []
      by_delivery sent = refl
      by_delivery rejected = refl
      by_delivery not_connected = refl
      by_delivery failed = refl

  after_comparison-published :
      (pair : Pair) (old new : Object) (unchanged : Result Bool) (effects : Effects)
      → (after_comparison environment submit_time s testcase pair old new unchanged
          effects).0.published
        ≡ effects.published ++ changed pair unchanged old new
  unfolding after_comparison
  after_comparison-published pair old new (raise e) effects = sym (append-nil effects.published)
  after_comparison-published pair old new (ok true) effects = sym (append-nil effects.published)
  after_comparison-published pair old new (ok false) effects =
      publish_update-published (update_message s testcase pair old new)
        (count (decision_changed pair.0) effects)

  after_decisions-published :
      (pair : Pair) (decisions : Result (Option (Object × Object))) (effects : Effects)
      → (after_decisions environment submit_time s testcase pair decisions effects).0.published
        ≡ effects.published ++ message_of pair decisions
  unfolding after_decisions
  after_decisions-published pair (raise e) effects = sym (append-nil effects.published)
  after_decisions-published pair (ok none) effects = sym (append-nil effects.published)
  after_decisions-published pair (ok (some (old, new))) effects =
      after_comparison-published pair old new (is_decision_unchanged (some old) (some new)) effects

  then_continue-published :
      (f : Effects → Outcome) (before messages later : List Object) (out : Outcome)
      → out.0.published ≡ before ++ messages
      → ((effects : Effects)
          → (f effects).1 ≡ none
          → (f effects).0.published ≡ effects.published ++ later)
      → (then_continue environment submit_time s testcase f out).1 ≡ none
      → (then_continue environment submit_time s testcase f out).0.published
        ≡ before ++ (messages ++ later)
  then_continue-published f before messages later (effects, some e) now next done =
      absurd (ground arith)
  then_continue-published f before messages later (effects, none) now next done =
      next effects done ∙ ap (λ xs. xs ++ later) now ∙ append_assoc before messages later

  -- If no exception ends the loop, it publishes the messages about the pairs whose decisions
  -- changed, in the order of the pairs, and no others.
  pub publish_changes-messages_of :
      (pairs : List Pair) (effects : Effects)
      → (publish_changes environment submit_time s testcase pairs effects).1 ≡ none
      → (publish_changes environment submit_time s testcase pairs effects).0.published
        ≡ effects.published ++ messages_of pairs
  unfolding publish_changes turn
  publish_changes-messages_of [] effects done = sym (append-nil effects.published)
  publish_changes-messages_of (pair ∷ rest) effects done =
      then_continue-published (publish_changes environment submit_time s testcase rest)
        effects.published (message_of pair (old_and_new_decisions environment submit_time pair))
        (messages_of rest) (turn environment submit_time s testcase pair effects)
        (after_decisions-published pair (old_and_new_decisions environment submit_time pair)
          effects)
        (λ effects' done'. publish_changes-messages_of rest effects' done') done

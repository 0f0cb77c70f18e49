-- ===== src/Messages/Considered.antt =====
-- Which updates the messages lead to.
use mathlib.Core.List.{append-nil, append_assoc}
use greenwave.Prelude.{
  String, ◌≡◌, refl, sym, ap, ◌∙◌, false, List, [], ◌∷◌, ◌++◌, Option, none, some, arith, sort,
  pair_order, pair_order,
}
use greenwave.Outcome.{Result, ok, raise}
use greenwave.Json.{Object}
use greenwave.Subject.{Subject}
use greenwave.Policy.Matching.Pairs.{Pair, applicable_pairs}
use greenwave.Consumers.{
  Effects, Outcome, message_attributes, publish_changes, publish_decision_change,
}
use greenwave.Consumers.Published.{messages_of, publish_changes-messages_of}
use greenwave.Messages.{
  Handling, Plan, Handled, then_handle, for_versions, plan_result, run_plan, consume_result,
}

module _ (h : Handling) where
  -- The pairs of a context and a version that a result may change the decisions for.
  abbrev pub pairs_for : Subject → String → Option String → List Pair
  pairs_for s testcase version =
      elim (applicable_pairs h.services h.policies (message_attributes s testcase version)) [
        | ok pairs ↦ sort pairs
        | raise e ↦ []
      ]

  -- The updates about the decisions that changed, for each of the versions in turn.
  abbrev pub updates_for : String → Subject → String → List (Option String) → List Object
  updates_for submit_time s testcase [] = []
  updates_for submit_time s testcase (version ∷ rest) =
      messages_of (h.environment s) submit_time s none (pairs_for s testcase version)
      ++ updates_for submit_time s testcase rest

  publish_decision_change-published :
      (submit_time : String) (s : Subject) (testcase : String) (version : Option String)
      (effects : Effects)
      → (publish_decision_change h.services h.policies
          (h.environment s)
          submit_time
          s
          testcase
          version
          false
          effects).1
        ≡ none
      → (publish_decision_change h.services h.policies
          (h.environment s)
          submit_time
          s
          testcase
          version
          false
          effects).0.published
        ≡ effects.published
          ++ messages_of (h.environment s) submit_time s none (pairs_for s testcase version)
  unfolding publish_decision_change
  publish_decision_change-published submit_time s testcase version effects =
      by_pairs (applicable_pairs h.services h.policies (message_attributes s testcase version))
    where
      publish : Result (List Pair) → Outcome
      publish m = elim m [
        | raise e ↦ (effects, some e)
        | ok pairs ↦ publish_changes (h.environment s) submit_time s none (sort pairs) effects
      ]

      pairs_of : Result (List Pair) → List Pair
      pairs_of m = elim m [ ok pairs ↦ sort pairs | raise e ↦ [] ]

      by_pairs :
          (m : Result (List Pair))
          → (publish m).1 ≡ none
          → (publish m).0.published
            ≡ effects.published ++ messages_of (h.environment s) submit_time s none (pairs_of m)
      by_pairs (raise x) e = absurd (ground arith)
      by_pairs (ok pairs) e =
          publish_changes-messages_of (h.environment s) submit_time s none (sort pairs) effects e

  then_handle-published :
      (out : Outcome) (later : Effects → Handled) (before now rest : List Object)
      → (out.1 ≡ none → out.0.published ≡ before ++ now)
      → ((effects : Effects)
          → (later effects).1 ≡ ok tt
          → (later effects).0.published ≡ effects.published ++ rest)
      → (then_handle out later).1 ≡ ok tt
      → (then_handle out later).0.published ≡ before ++ (now ++ rest)
  then_handle-published (effects, some x) later before now rest first next e = absurd (ground arith)
  then_handle-published (effects, none) later before now rest first next e =
      next effects e ∙ ap (λ xs. xs ++ rest) (first refl) ∙ append_assoc before now rest

  for_versions-published :
      (submit_time : String) (s : Subject) (testcase : String) (versions : List (Option String))
      (effects : Effects)
      → (for_versions h submit_time s testcase versions effects).1 ≡ ok tt
      → (for_versions h submit_time s testcase versions effects).0.published
        ≡ effects.published ++ updates_for submit_time s testcase versions
  unfolding for_versions
  for_versions-published submit_time s testcase [] effects e = sym (append-nil effects.published)
  for_versions-published submit_time s testcase (version ∷ rest) effects e =
      then_handle-published
        (publish_decision_change h.services h.policies (h.environment s) submit_time s testcase
          version false effects)
        (for_versions h submit_time s testcase rest) effects.published
        (messages_of (h.environment s) submit_time s none (pairs_for s testcase version))
        (updates_for submit_time s testcase rest)
        (publish_decision_change-published submit_time s testcase version effects)
        (λ after e'. for_versions-published submit_time s testcase rest after e') e

  -- What is published for a result, or would be if nothing were raised.
  abbrev pub updates_of : Result (Option Plan) → List Object
  updates_of (ok (some p)) = updates_for p.submit_time p.subject p.testcase p.versions
  updates_of _ = []

  -- If the handler of a result ends without an exception, it has published the updates about the
  -- decisions that changed, for each version of the subject in turn, after those before and no others; it
  -- has published none if no decision was expected to change.
  pub consume_result-published :
      (msg : Object) (effects : Effects)
      → (consume_result h msg effects).1 ≡ ok tt
      → (consume_result h msg effects).0.published
        ≡ effects.published ++ updates_of (plan_result h msg)
  unfolding consume_result
  consume_result-published msg effects = by_plan (plan_result h msg)
    where
      by_plan :
          (m : Result (Option Plan))
          → (run_plan h m effects).1 ≡ ok tt
          → (run_plan h m effects).0.published ≡ effects.published ++ updates_of m
      by_plan (raise x) e = absurd (ground arith)
      by_plan (ok none) e = sym (append-nil effects.published)
      by_plan (ok (some p)) e =
          for_versions-published p.submit_time p.subject p.testcase p.versions effects e

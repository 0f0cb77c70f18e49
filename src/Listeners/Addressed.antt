-- ===== src/Listeners/Addressed.antt =====
-- The headers of the updates that the comparison of decisions publishes.
use greenwave.Prelude.{
  String, ◌≡◌, refl, Bool, true, false, List, [], ◌∷◌, ◌++◌, Option, none, some, is_some, arith,
  All, Option-cases, inl, inr, string_eq, ℕ,
}
use greenwave.Timestamp.{right_before_this_time}
use greenwave.Outcome.{◌>>=◌, Result, ok, raise}
use greenwave.Json.{Object, lookup, lookup-assign}
use greenwave.Subject.{Subject}
use greenwave.Policy.Matching.Pairs.{Pair}
use greenwave.Consumers.{
  is_decision_unchanged, Environment, Delivery, sent, rejected, not_connected, failed, Effects,
  Outcome, after_delivery, publish_update, old_and_new_decisions, both, update_message,
  after_comparison, after_decisions, turn, then_continue, count, decision_changed, publish_changes,
}
use greenwave.Listeners.{Listener, Broker, entries_at, update_headers, attempt_to_send}

abbrev pub Has : Object → String → Type 0
Has d key = is_some (lookup key d) ≡ true

entries_at-given :
    (keys : List String) (d : Object) → All (Has d) keys → is_some (entries_at keys d) ≡ true
entries_at-given [] d h = refl
entries_at-given (key ∷ keys) d h = elim (Option-cases (lookup key d)) [
  | inl absent ↦ absurd (ground (arith, h.0))
  | inr (v, found) ↦ elim (Option-cases (entries_at keys d)) [
    | inl absent ↦ absurd (ground (arith, entries_at-given keys d h.1))
    | inr (rest, given) ↦ rw (found, given, entries_at) refl
  ]
]

-- The broker is asked to send the update: its headers can be read.
abbrev pub Sendable : Object → Type 0
Sendable update =
    (broker : Broker) (l : Listener) (attempt : ℕ)
    → attempt_to_send broker l attempt update ≡ broker.send l.updates attempt

-- A decision that says whether the policies are satisfied, and sums up.
abbrev pub Reported : Object → Type 0
Reported d = Has d "policies_satisfied" × Has d "summary"

headers-Sendable : (update : Object) → is_some (update_headers update) ≡ true → Sendable update
unfolding attempt_to_send
headers-Sendable update h broker l attempt = elim (Option-cases (update_headers update)) [
  | inl absent ↦ absurd (ground (arith, h))
  | inr (headers, read) ↦ rw (read, attempt_to_send) refl
]

-- The keys that the headers are read from.
abbrev header_keys : List String
header_keys =
    "subject_type" ∷ "subject_identifier" ∷ "product_version" ∷ "decision_context"
    ∷ "policies_satisfied" ∷ "summary" ∷ []

message-Has :
    (s : Subject) (testcase : Option String) (pair : Pair) (old new : Object)
    → Reported new
    → All (Has (update_message s testcase pair old new)) header_keys
unfolding update_message
message-Has s none pair old new (verdict, summary) = (
  simp lookup-assign,
  (
    simp lookup-assign,
    (
      simp lookup-assign,
      (simp lookup-assign, (simp (lookup-assign, verdict), (simp (lookup-assign, summary), tt))),
    ),
  ),
)
message-Has s (some t) pair old new (verdict, summary) = (
  simp lookup-assign,
  (
    simp lookup-assign,
    (
      simp lookup-assign,
      (simp lookup-assign, (simp (lookup-assign, verdict), (simp (lookup-assign, summary), tt))),
    ),
  ),
)

update_message-Sendable :
    (s : Subject) (testcase : Option String) (pair : Pair) (old new : Object)
    → Reported new
    → Sendable (update_message s testcase pair old new)
unfolding update_headers
update_message-Sendable s testcase pair old new reported =
    headers-Sendable (update_message s testcase pair old new) (
      entries_at-given header_keys (update_message s testcase pair old new)
        (message-Has s testcase pair old new reported))

All-append :
    (messages more : List Object)
    → All Sendable messages
    → All Sendable more
    → All Sendable (messages ++ more)
All-append [] more h k = k
All-append (m ∷ messages) more h k = (h.0, All-append messages more h.1 k)

publish_update-Sendable :
    (environment : Environment) (message : Object) (effects : Effects)
    → Sendable message
    → All Sendable effects.published
    → All Sendable (publish_update environment message effects).published
unfolding publish_update
publish_update-Sendable environment message effects h before =
    by_delivery (environment.publish message)
  where
    all : All Sendable (effects.published ++ message ∷ [])
    all = All-append effects.published (message ∷ []) before (h, tt)

    by_delivery :
        (d : Delivery)
        → All Sendable
            (after_delivery d
              (record effects { published = effects.published ++ message ∷ [] })).published
    by_delivery sent = all
    by_delivery rejected = all
    by_delivery not_connected = all
    by_delivery failed = all

-- The decision that is compared is the one that was made for now.
both-new :
    (now before : Result Object) (old new : Object)
    → both now before ≡ ok (some (old, new))
    → now ≡ ok new
both-new now before old new made = ground arith

module _ (environment : Environment) (submit_time : String) (s : Subject)
    (testcase : Option String) where
  after_comparison-Sendable :
      (pair : Pair) (old new : Object) (unchanged : Result Bool) (effects : Effects)
      → Reported new
      → All Sendable effects.published
      → All Sendable
          (after_comparison environment submit_time s testcase pair old new unchanged
            effects).0.published
  unfolding after_comparison
  after_comparison-Sendable pair old new (raise e) effects reported before = before
  after_comparison-Sendable pair old new (ok true) effects reported before = before
  after_comparison-Sendable pair old new (ok false) effects reported before =
      publish_update-Sendable environment (update_message s testcase pair old new)
        (count (decision_changed pair.0) effects)
        (update_message-Sendable s testcase pair old new reported) before

  after_decisions-Sendable :
      (pair : Pair) (decisions : Result (Option (Object × Object))) (effects : Effects)
      → ((old new : Object) → decisions ≡ ok (some (old, new)) → Reported new)
      → All Sendable effects.published
      → All Sendable
          (after_decisions environment submit_time s testcase pair decisions effects).0.published
  unfolding after_decisions
  after_decisions-Sendable pair (raise e) effects reported before = before
  after_decisions-Sendable pair (ok none) effects reported before = before
  after_decisions-Sendable pair (ok (some (old, new))) effects reported before =
      after_comparison-Sendable pair old new (is_decision_unchanged (some old) (some new)) effects
        (reported old new refl) before

  then_continue-Sendable :
      (f : Effects → Outcome) (out : Outcome)
      → ((effects : Effects)
          → All Sendable effects.published
          → All Sendable (f effects).0.published)
      → All Sendable out.0.published
      → All Sendable (then_continue environment submit_time s testcase f out).0.published
  then_continue-Sendable f (effects, some e) next now = now
  then_continue-Sendable f (effects, none) next now = next effects now

  -- The headers of each update that is published can be read, so that the broker is asked to send it,
  -- if each decision that is made for now has a verdict and a summary, and if the updates that were
  -- published before can be sent too. This holds also when an exception ends the loop.
  pub publish_changes-Sendable :
      ((pair : Pair) (d : Object) → environment.make_decision pair none ≡ ok d → Reported d)
      → (pairs : List Pair) (effects : Effects) → All Sendable effects.published
      → All Sendable (publish_changes environment submit_time s testcase pairs effects).0.published
  unfolding publish_changes turn old_and_new_decisions
  publish_changes-Sendable reported [] effects before = before
  publish_changes-Sendable reported (pair ∷ rest) effects before =
      then_continue-Sendable (publish_changes environment submit_time s testcase rest)
        (turn environment submit_time s testcase pair effects)
        (publish_changes-Sendable reported rest)
        (after_decisions-Sendable pair
          (both (environment.make_decision pair none) (
            right_before_this_time submit_time >>= λ before.
            environment.make_decision pair (some before)))
          effects (λ old new made. reported pair new (both-new _ _ old new made)) before)

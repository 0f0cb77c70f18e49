-- ===== src/Consumers.antt =====
-- consumers/consumer.py: after a new result or waiver, the decisions that it may change are made for
-- now and for just before it, and a message is published for each that changed. `make_decision` and
-- the message broker are functions of the record `Environment`.
pub mod Changes
pub mod Deciding
pub mod Published
use greenwave.Prelude.{
  String, Bool, true, false, not, ◌&&◌, List, [], ◌∷◌, ◌++◌, Option, none, some, ◌==◌, nat_eq,
  string_eq, length, elem, all, select, given, sort, pair_order, if◌then◌else◌,
}
use greenwave.Outcome.{Error, http, unexpected, Result, ok, raise, ◌>>=◌}
use greenwave.Json.{
  Json, str, arr, obj, Array, nil, cons, Object, empty, entry, lookup, assign, keys, json_eq,
}
use greenwave.Timestamp.{right_before_this_time}
use greenwave.Subject.{Subject, to_dict}
use greenwave.Policy.{Policy}
use greenwave.Policy.Services.{Services}
use greenwave.Policy.Matching.{Attributes}
use greenwave.Policy.Matching.Pairs.{Pair, applicable_pairs}

abbrev same_keys : Object → Object → Bool
same_keys lhs rhs =
    all (λ k. elem k (keys rhs)) (keys lhs) && all (λ k. elem k (keys lhs)) (keys rhs)

-- `lhs[key] == rhs[key]`, for a key of both
abbrev pub same_at : Object → Object → String → Bool
same_at lhs rhs key = elim (lookup key lhs) [
  | none ↦ false
  | some v ↦ elim (lookup key rhs) [ none ↦ false | some w ↦ json_eq v w ]
]

-- `_equals_except_keys`
unfoldable pub equals_except_keys : Object → Object → List String → Bool
equals_except_keys lhs rhs except_keys =
    same_keys lhs rhs && all (same_at lhs rhs) (select (λ k. not (elem k except_keys)) (keys lhs))

-- A list of dictionaries, as `make_decision` gives one.
abbrev objects : Array → Result (List Object)
objects nil = ok []
objects (cons (obj d) rest) = do ds ← objects rest; ok (d ∷ ds)
objects (cons _ rest) = raise (unexpected "AttributeError")

abbrev pub requirements : String → Object → Result (List Object)
requirements key d = elim (lookup key d) [
  | some (arr a) ↦ objects a
  | some _ ↦ raise (unexpected "TypeError")
  | none ↦ raise (unexpected "KeyError")
]

-- The loop over `zip`.
unfoldable pub all_equal : List Object → List Object → Bool
all_equal [] rhs = true
all_equal (a ∷ lhs) [] = true
all_equal (a ∷ lhs) (b ∷ rhs) =
    let rest = all_equal lhs rhs in equals_except_keys a b ("result_id" ∷ []) && rest

abbrev pub requirements_keys : List String
requirements_keys = "satisfied_requirements" ∷ "unsatisfied_requirements" ∷ []

-- The loop over `requirements_keys`.
unfoldable pub same_requirements : List String → Object → Object → Result Bool
same_requirements [] old new = ok true
same_requirements (key ∷ rest) old new =
    let later = same_requirements rest old new in
    do
      olds ← requirements key old
      news ← requirements key new
      if (length olds == length news) && all_equal olds news then later else ok false

-- `_is_decision_unchanged`
unfoldable pub is_decision_unchanged : Option Object → Option Object → Result Bool
is_decision_unchanged none none = ok true
is_decision_unchanged none (some new) = ok false
is_decision_unchanged (some old) none = ok false
is_decision_unchanged (some old) (some new) =
    if equals_except_keys old new requirements_keys
    then same_requirements requirements_keys old new
    else ok false

-- How the broker takes a message.
pub data Delivery : Type 0 where
  sent rejected not_connected failed : Delivery

-- `make_decision` for a decision context and a product version, at a time or now, for the subject of
-- the message; and the broker.
pub record Environment : Type 0 where
  pub make_decision : Pair → Option String → Result Object
  pub publish : Object → Delivery

-- What is counted, with the decision context of a decision.
pub data Event : Type 0 where
  decision_failed decision_unchanged decision_changed : String → Event
  messaging_tx_sent_ok messaging_tx_failed : Event

-- Counted events and the messages handed to the broker. They stay when an exception follows.
pub record Effects : Type 0 where
  pub counted : List Event
  pub published : List Object

abbrev pub count : Event → Effects → Effects
count event effects = record effects { counted = effects.counted ++ event ∷ [] }

-- `_publish_decision_update_fedora_messaging`
abbrev pub after_delivery : Delivery → Effects → Effects
after_delivery sent effects = count messaging_tx_sent_ok effects
after_delivery rejected effects = effects
after_delivery not_connected effects = count messaging_tx_failed effects
after_delivery failed effects = count messaging_tx_failed effects

unfoldable pub publish_update : Environment → Object → Effects → Effects
publish_update environment decision effects =
    after_delivery (environment.publish decision)
      (record effects { published = effects.published ++ decision ∷ [] })

-- `_old_and_new_decisions`: no decisions after an HTTP error of requests; others are raised.
abbrev pub both : Result Object → Result Object → Result (Option (Object × Object))
both (raise (http message)) old = ok none
both (raise e) old = raise e
both (ok new) (raise (http message)) = ok none
both (ok new) (raise e) = raise e
both (ok new) (ok old) = ok (some (old, new))

unfoldable pub old_and_new_decisions :
    Environment → String → Pair → Result (Option (Object × Object))
old_and_new_decisions environment submit_time pair =
    both (environment.make_decision pair none)
      (do before ← right_before_this_time submit_time; environment.make_decision pair (some before))

-- The decision with what the message adds to it. The trace context is left out.
unfoldable pub update_message : Subject → Option String → Pair → Object → Object → Object
update_message s testcase pair old new =
    let message = assign "previous" (obj old) (
      assign "product_version" (str pair.1) (
        assign "decision_context" (str pair.0) (
          assign "subject" (arr (cons (obj (to_dict s)) nil)) (
            assign "subject_identifier" (str s.item)
              (assign "subject_type" (str s.subject_type.id) new))))) in
    elim testcase [ none ↦ message | some t ↦ assign "testcase" (str t) message ]

-- The effects so far, and the exception that ended the loop, if one did.
abbrev pub Outcome : Type 0
Outcome = Effects × Option Error

module _ (environment : Environment) (submit_time : String) (s : Subject)
    (testcase : Option String) where
  -- What follows the comparison of the two decisions. The test case is given if it is to be
  -- published.
  unfoldable pub after_comparison : Pair → Object → Object → Result Bool → Effects → Outcome
  after_comparison pair old new (raise e) effects = (effects, some e)
  after_comparison pair old new (ok true) effects =
      (count (decision_unchanged pair.0) effects, none)
  after_comparison pair old new (ok false) effects = (
    publish_update environment (update_message s testcase pair old new)
        (count (decision_changed pair.0) effects),
    none,
  )

  -- What follows the requests for them.
  unfoldable pub after_decisions : Pair → Result (Option (Object × Object)) → Effects → Outcome
  after_decisions pair (raise e) effects = (effects, some e)
  after_decisions pair (ok none) effects = (count (decision_failed pair.0) effects, none)
  after_decisions pair (ok (some (old, new))) effects =
      after_comparison pair old new (is_decision_unchanged (some old) (some new)) effects

  -- One turn of the loop of `_publish_decision_change`.
  unfoldable pub turn : Pair → Effects → Outcome
  turn pair effects =
      after_decisions pair (old_and_new_decisions environment submit_time pair) effects

  -- What follows a turn: the rest of the loop, unless an exception was raised.
  abbrev pub then_continue : (Effects → Outcome) → Outcome → Outcome
  then_continue rest (effects, some e) = (effects, some e)
  then_continue rest (effects, none) = rest effects

  unfoldable pub publish_changes : List Pair → Effects → Outcome
  publish_changes [] effects = (effects, none)
  publish_changes (pair ∷ rest) effects = then_continue (publish_changes rest) (turn pair effects)

-- The attributes that policies are matched with.
abbrev pub message_attributes : Subject → String → Option String → Attributes
message_attributes s testcase product_version = record {
  decision_contexts = [];
  product_version = if given product_version then product_version else none;
  subject = some s;
  testcase = some testcase;
  match_any_remote_rule = false;
}

-- `_publish_decision_change`
unfoldable pub publish_decision_change :
    Services
    → List Policy
    → Environment
    → String
    → Subject
    → String
    → Option String
    → Bool
    → Effects
    → Outcome
publish_decision_change services policies environment submit_time s testcase product_version
      publish_testcase effects =
    elim (applicable_pairs services policies (message_attributes s testcase product_version)) [
      | raise e ↦ (effects, some e)
      | ok pairs ↦
          publish_changes environment submit_time s
            (if publish_testcase then some testcase else none) (sort pairs) effects
    ]

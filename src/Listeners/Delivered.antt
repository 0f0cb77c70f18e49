-- ===== src/Listeners/Delivered.antt =====
-- What a listener sends for a message about a result, while the broker takes every update.
use mathlib.Core.List.{append-nil, append_assoc}
use greenwave.Prelude.{
  ℕ, suc, String, ◌≡◌, refl, sym, ap, ◌∙◌, Bool, true, false, List, [], ◌∷◌, ◌++◌, Option, none,
  some, arith, All, subst, sort, pair_order, if◌then◌else◌,
}
use greenwave.Outcome.{Error, Result, ok, raise}
use greenwave.Json.{Json, obj, Object}
use greenwave.Subject.{Subject}
use greenwave.Policy.Matching.Pairs.{Pair, applicable_pairs}
use greenwave.Consumers.{
  Effects, Outcome, message_attributes, publish_changes, publish_decision_change,
}
use greenwave.Messages.{
  Handling, Plan, Handled, then_handle, for_versions, plan_result, run_plan, consume_result,
}
use greenwave.Listeners.Acts.{Act, counts, publishes, updates_in}
use greenwave.Listeners.{
  Listener, Broker, delivered, published, send_update, perform, after_consuming, ended, Handler,
  consume_body, on_message,
}
use greenwave.Listeners.Addressed.{Sendable, Reported, publish_changes-Sendable}
use greenwave.Listeners.Incoming.{handle_result, as_handler}
use greenwave.Listeners.Alike.{handle_result-consume_result}
use greenwave.Listeners.Changes.Same.{Summarized}

-- The broker takes every update.
abbrev pub Takes : Broker → Type 0
Takes broker = (update attempt : ℕ) → broker.send update attempt ≡ delivered

-- The updates were sent after those before.
abbrev pub HasSent : Listener → List Object → Listener → Type 0
HasSent l updates l' = l'.sent ≡ l.sent ++ updates

send_update-Takes :
    (broker : Broker) (fuel : ℕ) (update : Object) (l : Listener)
    → Takes broker
    → Sendable update
    → (l' : Listener) × (send_update broker (suc fuel) 0 update l ≡ some (l', published))
      × HasSent l (update ∷ []) l'
unfolding send_update
send_update-Takes broker fuel update l takes sendable = (
  record l { tx_sent_ok = suc l.tx_sent_ok; updates = suc l.updates; sent = l.sent ++ update ∷ [] },
  rw (sendable broker l 0, takes l.updates 0, send_update) refl,
  refl,
)

perform-Takes :
    (broker : Broker) (fuel : ℕ) (acts : List Act) (l : Listener)
    → Takes broker
    → All Sendable (updates_in acts)
    → (l' : Listener) × (perform broker (suc fuel) acts l ≡ some (l', published))
      × HasSent l (updates_in acts) l'
unfolding perform
perform-Takes broker fuel [] l takes h = (l, refl, sym (append-nil l.sent))
perform-Takes broker fuel (counts event ∷ rest) l takes h =
    perform-Takes broker fuel rest (record l { counted = l.counted ++ event ∷ [] }) takes h
perform-Takes broker fuel (publishes update ∷ rest) l takes h =
    let (l', now, sent) = send_update-Takes broker fuel update l takes h.0 in
    let (l'', later, sent') = perform-Takes broker fuel rest l' takes h.1 in
    (
      l'',
      rw (now, perform) later,
      sent'
          ∙ ap (λ us. us ++ updates_in rest) sent
          ∙ append_assoc l.sent (update ∷ []) (updates_in rest),
    )

abbrev pub no_effects : Effects
no_effects = record { counted = []; published = [] }

after_consuming-sent :
    (result : Result Bool) (l : Listener) → (after_consuming result (l, published)).0.sent ≡ l.sent
after_consuming-sent (raise e) l = refl
after_consuming-sent (ok true) l = refl
after_consuming-sent (ok false) l = refl

-- A message that arrives is acknowledged and counted before it is read.
abbrev received_by : String → Listener → Listener
received_by id l = record l { acked = l.acked ++ id ∷ []; received = suc l.received }

on_message-running :
    (broker : Broker) (loads : String → Option Json) (consume : Handler) (fuel : ℕ)
    (id body : String) (l : Listener)
    → l.stop ≡ false
    → on_message broker loads consume fuel id body l
      ≡ consume_body broker loads consume fuel body (received_by id l)
unfolding on_message
on_message-running broker loads consume fuel id body l running = ground arith

consume_body-loaded :
    (broker : Broker) (loads : String → Option Json) (handle : Object → List Act × Result Bool)
    (fuel : ℕ) (body : String) (msg : Object) (l : Listener)
    → loads body ≡ some (obj msg)
    → consume_body broker loads (as_handler handle) fuel body l
      ≡ ended (handle msg).1 (perform broker fuel (handle msg).0 l)
unfolding consume_body
consume_body-loaded broker loads handle fuel body msg l loaded = rw (loaded, consume_body) refl

module _ (h : Handling)
    (reported : (s : Subject) (pair : Pair) (when : Option String) (d : Object)
      → (h.environment s).make_decision pair when ≡ ok d
      → Reported d) where
  summarized : (s : Subject) → Summarized (h.environment s)
  summarized s pair when d made = (reported s pair when d made).1

  publish_decision_change-Sendable :
      (submit_time : String) (s : Subject) (testcase : String) (version : Option String)
      (publish_testcase : Bool) (effects : Effects)
      → All Sendable effects.published
      → All Sendable
          (publish_decision_change h.services h.policies
            (h.environment s)
            submit_time
            s
            testcase
            version
            publish_testcase
            effects).0.published
  unfolding publish_decision_change
  publish_decision_change-Sendable submit_time s testcase version publish_testcase effects before =
      by_pairs (applicable_pairs h.services h.policies (message_attributes s testcase version))
    where
      to_publish : Option String
      to_publish = if publish_testcase then some testcase else none

      by_pairs :
          (m : Result (List Pair))
          → All Sendable
              (elim m as (λ x. Outcome) [
                | raise e ↦ (effects, some e)
                | ok pairs ↦
                    publish_changes (h.environment s) submit_time s to_publish (sort pairs) effects
              ]).0.published
      by_pairs (raise e) = before
      by_pairs (ok pairs) =
          publish_changes-Sendable (h.environment s) submit_time s to_publish
            (λ pair. reported s pair none) (sort pairs) effects before

  then_handle-Sendable :
      (out : Outcome) (later : Effects → Handled)
      → All Sendable out.0.published
      → ((effects : Effects)
          → All Sendable effects.published
          → All Sendable (later effects).0.published)
      → All Sendable (then_handle out later).0.published
  then_handle-Sendable (effects, some e) later now next = now
  then_handle-Sendable (effects, none) later now next = next effects now

  for_versions-Sendable :
      (submit_time : String) (s : Subject) (testcase : String) (versions : List (Option String))
      (effects : Effects)
      → All Sendable effects.published
      → All Sendable (for_versions h submit_time s testcase versions effects).0.published
  unfolding for_versions
  for_versions-Sendable submit_time s testcase [] effects before = before
  for_versions-Sendable submit_time s testcase (version ∷ rest) effects before =
      then_handle-Sendable
        (publish_decision_change h.services h.policies (h.environment s) submit_time s testcase
          version false effects)
        (for_versions h submit_time s testcase rest)
        (publish_decision_change-Sendable submit_time s testcase version false effects before)
        (for_versions-Sendable submit_time s testcase rest)

  run_plan-Sendable :
      (m : Result (Option Plan)) (effects : Effects)
      → All Sendable effects.published
      → All Sendable (run_plan h m effects).0.published
  run_plan-Sendable (raise e) effects before = before
  run_plan-Sendable (ok none) effects before = before
  run_plan-Sendable (ok (some p)) effects before =
      for_versions-Sendable p.submit_time p.subject p.testcase p.versions effects before

  handle_result-Sendable : (msg : Object) → All Sendable (updates_in (handle_result h msg).0)
  unfolding consume_result
  handle_result-Sendable msg =
      subst (All Sendable) (handle_result-consume_result h summarized msg no_effects).0
        (run_plan-Sendable (plan_result h msg) no_effects tt)

  -- While the broker takes every update, a listener that was not told to stop sends, for a message
  -- about a result, the updates that the consumer publishes for it, after those that it has sent
  -- before. It does so on any fuel but none, if each decision that is made has a verdict and a
  -- summary.
  pub on_message-consume_result :
      (broker : Broker) (loads : String → Option Json) (fuel : ℕ) (id body : String) (msg : Object)
      (l : Listener)
      → Takes broker
      → loads body ≡ some (obj msg)
      → l.stop ≡ false
      → (l' : Listener) × (e : Option Error) × (on_message broker loads
            (as_handler (handle_result h))
            (suc fuel)
            id
            body
            l
          ≡ some (l', e))
        × HasSent l (consume_result h msg no_effects).0.published l'
  on_message-consume_result broker loads fuel id body msg l takes loaded running =
      let l1 = received_by id l in
      let work = handle_result h msg in
      let (l2, done, sent) =
        perform-Takes broker fuel work.0 l1 takes (handle_result-Sendable msg) in
      let end = after_consuming work.1 (l2, published) in
      (
        end.0,
        end.1,
        on_message-running broker loads (as_handler (handle_result h)) (suc fuel) id body l running
            ∙ consume_body-loaded broker loads (handle_result h) (suc fuel) body msg l1 loaded
            ∙ ap (ended work.1) done,
        after_consuming-sent work.1 l2
            ∙ sent
            ∙ ap (λ us. l.sent ++ us)
                (sym (handle_result-consume_result h summarized msg no_effects).0),
      )

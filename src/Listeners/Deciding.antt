-- ===== src/Listeners/Deciding.antt =====
-- The listener for results, with the decisions of the application that it runs in.
use greenwave.Prelude.{
  String, ◌≡◌, refl, false, Option, some, suc, ℕ, Option-cases, inl, inr, string_eq,
}
use greenwave.Outcome.{Error, ok, Ensures-step, Ensures-ok}
use greenwave.Json.{Json, obj, Object}
use greenwave.Subject.{Subject}
use greenwave.Policy.Matching.Pairs.{Pair}
use greenwave.Decision.Request.{Application, DecisionResponse, make_decision}
use greenwave.Consumers.{Delivery}
use greenwave.Consumers.Deciding.{change_request, response_data, in_process}
use greenwave.Messages.{Handling, consume_result}
use greenwave.Listeners.{Listener, Broker, on_message}
use greenwave.Listeners.Incoming.{handle_result, as_handler}
use greenwave.Listeners.Addressed.{Reported}
use greenwave.Listeners.Delivered.{HasSent, Takes, no_effects, on_message-consume_result}

response_data-Reported : (r : DecisionResponse) → Reported (response_data r)
unfolding response_data
response_data-Reported r = elim (Option-cases r.applicable_policies) [
  | inl absent ↦ rw absent (refl, refl)
  | inr (ids, there) ↦ rw there (refl, refl)
]

in_process-Reported :
    (app : Application) (publish : Object → Delivery) (s : Subject) (pair : Pair)
    (when : Option String) (d : Object)
    → (in_process app publish s).make_decision pair when ≡ ok d
    → Reported d
unfolding in_process
in_process-Reported app publish s pair when d =
    Ensures-ok Reported ((in_process app publish s).make_decision pair when) d (
      Ensures-step Reported (make_decision app (change_request s pair when)) _
        λ r made. response_data-Reported r)

-- A handling whose decisions are made in the process.
abbrev pub deciding : Application → (Object → Delivery) → Handling → Handling
deciding app publish h = record h { environment = in_process app publish }

-- While the broker takes every update, a listener that was not told to stop and that makes its decisions
-- with the application sends, for a message about a result, the updates that the consumer publishes for it,
-- after those that it has sent before. It does so on any fuel but none.
pub on_message-deciding :
    (app : Application) (publish : Object → Delivery) (h : Handling) (broker : Broker)
    (loads : String → Option Json) (fuel : ℕ) (id body : String) (msg : Object) (l : Listener)
    → Takes broker
    → loads body ≡ some (obj msg)
    → l.stop ≡ false
    → (l' : Listener) × (e : Option Error) × (on_message broker loads
          (as_handler (handle_result (deciding app publish h)))
          (suc fuel)
          id
          body
          l
        ≡ some (l', e))
      × HasSent l (consume_result (deciding app publish h) msg no_effects).0.published l'
on_message-deciding app publish h =
    on_message-consume_result (deciding app publish h)
      λ s pair when d. in_process-Reported app publish s pair when d

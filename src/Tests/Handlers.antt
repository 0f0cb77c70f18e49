-- ===== src/Tests/Handlers.antt =====
-- The listeners' handlers.
use greenwave.Prelude.{◌≡◌, refl, some, none, Option, is_some, Bool, true, false}
use greenwave.Outcome.{Error, Result, ok, ◌>>=◌}
use greenwave.Json.{obj, Object}
use greenwave.Messages.{Handling, consume_result}
use greenwave.Listeners.{Listener, new_listener, delivered, is_connected, Broker, on_message}
use greenwave.Listeners.Incoming.{handle_result, as_handler}
use greenwave.Listeners.Delivered.{HasSent, no_effects}
use greenwave.Listeners.Deciding.{deciding, on_message-deciding}
use greenwave.Consumers.{sent, both, old_and_new_decisions}
use greenwave.Consumers.Deciding.{change_request, response_data, in_process}
use greenwave.Consumers.Deciding.Asked.{decision_at, report_of, as_requested}
use greenwave.Consumers.Deciding.Compared.{old_and_new_decisions-decision_at}
use greenwave.Timestamp.{read_iso, right_before_this_time}
use greenwave.Decision.{collect_filters}
use greenwave.Decision.Request.{Application}
use greenwave.Tests.Requests.{app, machine}
use greenwave.Tests.Samples.{build}
use greenwave.Tests.Publishing.{reporting, publishing}
use greenwave.Tests.Incoming.{handling, new_result}

abbrev pub summing : Handling
summing = record handling { environment = λ s. reporting }

abbrev broker : Broker
broker = record { send = λ n attempt. delivered; connect = λ n attempt. is_connected }

on_message-deciding_example :
    (l' : Listener) × (e : Option Error) × (on_message broker
        (λ body. some (obj new_result))
        (as_handler (handle_result (deciding app (λ d. sent) handling)))
        1
        "1"
        "{}"
        new_listener
      ≡ some (l', e))
    × HasSent new_listener
        (consume_result (deciding app (λ d. sent) handling) new_result no_effects).0.published
        l'
unfolding new_listener
on_message-deciding_example =
    on_message-deciding app (λ d. sent) handling broker (λ body. some (obj new_result)) 0 "1" "{}"
      new_result new_listener (λ update attempt. refl) refl refl

abbrev asking : Application
asking = record app { is_time = λ t. is_some (read_iso t) }

time_before : right_before_this_time "2020-02-07T03:14:43.076427" ≡ ok "2020-02-07T03:14:43.076426"
unfolding publishing
time_before = refl

old_and_new_decisions-decision_at_example :
    old_and_new_decisions
      (in_process asking (λ d. sent) build)
      "2020-02-07T03:14:43.076427"
      ("osci_compose_gate", "rhel-8")
    ≡ both
        (decision_at asking (as_requested asking build) ("osci_compose_gate", "rhel-8") none
          >>= λ d. ok (report_of d))
        (decision_at asking
            (as_requested asking build)
            ("osci_compose_gate", "rhel-8")
            (some "2020-02-07T03:14:43.076426")
          >>= λ d. ok (report_of d))
old_and_new_decisions-decision_at_example =
    old_and_new_decisions-decision_at asking (λ d. sent) build ("osci_compose_gate", "rhel-8")
      "2020-02-07T03:14:43.076427" "2020-02-07T03:14:43.076426" (λ t. refl) refl refl time_before

abbrev is_ok_with_both : Result (Option (Object × Object)) → Bool
is_ok_with_both (ok (some decisions)) = true
is_ok_with_both outcome = false

-- Both decisions can be made.
decisions_made :
    is_ok_with_both (
      old_and_new_decisions
        (in_process asking (λ d. sent) build)
        "2020-02-07T03:14:43.076427"
        ("osci_compose_gate", "rhel-8"))
    ≡ true
unfolding machine publishing change_request response_data in_process old_and_new_decisions
    collect_filters
decisions_made = refl

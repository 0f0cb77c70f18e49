-- ===== src/Tests/Listening.antt =====
-- A listener with a broker that loses its connection.
use greenwave.Prelude.{ℕ, zero, suc, ◌≡◌, refl, true, List, [], ◌∷◌, some, is_some, arith}
use greenwave.Outcome.{ok}
use greenwave.Json.{bool, str, Object, of_entries}
use greenwave.Consumers.{decision_changed}
use greenwave.Listeners.Acts.{counts, publishes}
use greenwave.Listeners.{
  Listener, new_listener, Sending, delivered, not_connected, connects, Broker, disconnect,
  terminate, connect, update_headers, attempt_to_send, send_update, perform, Handler, consume_body,
  on_message, Event, message, connected, sigterm, callback, handle, run,
}
use greenwave.Listeners.Counted.{Sound, run-Sound}
use greenwave.Listeners.Sent.{run-returns}

abbrev second_time : ℕ → Sending
second_time zero = not_connected
second_time (suc n) = delivered

abbrev broker : Broker
broker = record { send = λ n. second_time; connect = λ n attempt. connects }

abbrev update : Object
update = of_entries (
    ("subject_type", str "koji_build")
    ∷ ("subject_identifier", str "python-ansi2html-1.1.1-114.el8")
    ∷ ("product_version", str "rhel-8")
    ∷ ("decision_context", str "osci_compose_gate")
    ∷ ("policies_satisfied", bool true)
    ∷ ("summary", str "All required tests (1 total) have passed or been waived")
    ∷ [])

abbrev consume : Handler
consume content =
    (counts (decision_changed "bodhi_update_push_stable") ∷ publishes update ∷ [], ok true)

abbrev events : List Event
events = connected ∷ message "1" "{}" ∷ sigterm ∷ message "2" "{}" ∷ []

abbrev at_end : Listener
at_end = record new_listener {
  stop = true;
  received = 1;
  processed_ok = 1;
  tx_sent_ok = 1;
  acked = "1" ∷ [];
  nacked = "2" ∷ [];
  subscriptions = 1;
  updates = 1;
  sent = update ∷ [];
  counted = decision_changed "bodhi_update_push_stable" ∷ [];
}

unfoldable listening : Unit {0}
unfolding new_listener disconnect terminate connect update_headers attempt_to_send send_update
    perform consume_body on_message callback handle run
listening = tt

all_handled : run broker (λ body. some (str body)) consume 2 events new_listener ≡ some at_end
unfolding listening
all_handled = refl

run-Sound_example : Sound at_end
run-Sound_example = run-Sound broker (λ body. some (str body)) consume 2 events at_end all_handled

run-returns_example :
    is_some (run broker (λ body. some (str body)) consume 2 events new_listener) ≡ true
run-returns_example =
    run-returns broker (λ body. some (str body)) consume 2 events new_listener
      (λ n. (1, omega arith, refl))

nacked_when_stopped :
    run broker (λ body. some (str body)) consume 2 (message "3" "{}" ∷ []) at_end
    ≡ some (record at_end { nacked = "2" ∷ "3" ∷ [] })
unfolding listening
nacked_when_stopped = refl

-- ===== src/Listeners.antt =====
-- listeners/base.py: a listener as a state machine. The events are the callbacks of stomp and the
-- signal; the broker is a function of the number of an update and of the attempt to send it. What
-- `_consume_message` of a subclass does is its list of decision updates and how it ends. A callback runs
-- to its end before the next event. `stop` is read once in a callback, under its lock, so SIGTERM while a
-- message is handled is the same as SIGTERM behind it, with a broker that answers what a closed
-- connection does; but the end of the process while a message is handled comes from the listener's
-- own `connect` only. Acknowledgements do not raise, and the body of a message is JSON or a JSONDecodeError.
pub mod Acts
pub mod Kept
pub mod Counted
pub mod Sent
pub mod Addressed
pub mod Changes
pub mod Incoming
pub mod Alike
pub mod Delivered
pub mod Deciding
use greenwave.Prelude.{
  ℕ, zero, suc, ◌+◌, String, Bool, true, false, not, ◌||◌, List, [], ◌∷◌, ◌++◌, Option, none, some,
  ◌==◌, string_eq, if◌then◌else◌,
}
use greenwave.Outcome.{Error, unexpected, Result, ok, raise}
use greenwave.Json.{Json, bool, str, Object, lookup}
use greenwave.Consumers as Consumer
use greenwave.Listeners.Acts.{Act, counts, publishes}

-- The attributes of `BaseListener` that change, its counters, and what it has told the broker.
-- `killed` is set by SIGQUIT, after which nothing is done.
pub record Listener : Type 0 where
  pub connecting : Bool
  pub stop : Bool
  pub killed : Bool
  pub received : ℕ
  pub processed_ok : ℕ
  pub ignored : ℕ
  pub failed : ℕ
  pub tx_sent_ok : ℕ
  pub tx_failed : ℕ
  pub acked : List String
  pub nacked : List String
  pub subscriptions : ℕ
  pub updates : ℕ
  pub sent : List Object
  -- what is counted about decisions
  pub counted : List Consumer.Event

unfoldable pub new_listener : Listener
new_listener = record {
  connecting = false;
  stop = false;
  killed = false;
  received = 0;
  processed_ok = 0;
  ignored = 0;
  failed = 0;
  tx_sent_ok = 0;
  tx_failed = 0;
  acked = [];
  nacked = [];
  subscriptions = 0;
  updates = 0;
  sent = [];
  counted = [];
}

-- How `connection.send` ends.
pub data Sending : Type 0 where
  delivered not_connected : Sending
  refused : Error → Sending

-- How `connection.connect` ends, where it is called.
pub data Connecting : Type 0 where
  is_connected connects fails : Connecting

pub record Broker : Type 0 where
  pub send : ℕ → ℕ → Sending
  pub connect : ℕ → ℕ → Connecting

unfoldable pub disconnect : Listener → Listener
disconnect l = record l { stop = true }

-- `_terminate`
unfoldable pub terminate : Listener → Listener
unfolding disconnect
terminate l = record (disconnect l) { killed = true }

-- `connect`; the attribute `connecting` is set while the call runs.
unfoldable pub connect : Connecting → Listener → Listener
unfolding terminate
connect is_connected l = l
connect connects l = if l.connecting then l else record l { connecting = false }
connect fails l = if l.connecting then l else terminate (record l { connecting = true })

-- How the sending of an update ends: it is sent, it raises, or the process ends.
pub data Published : Type 0 where
  published killed : Published
  raised : Error → Published

-- `str(value).lower()` of the Boolean; the others stand as they are.
abbrev as_header : String → Json → Json
as_header key (bool b) =
    if key == "policies_satisfied" then str (if b then "true" else "false") else bool b
as_header key v = v

-- The values of the keys, with the keys; None is a KeyError.
abbrev pub entries_at : List String → Object → Option (List (String × Json))
entries_at [] d = some []
entries_at (key ∷ keys) d = elim (lookup key d) [
  | none ↦ none
  | some v ↦ elim (entries_at keys d) [
    | none ↦ none
    | some rest ↦ some ((key, as_header key v) ∷ rest)
  ]
]

-- `headers` of `_publish_decision_update`
unfoldable pub update_headers : Object → Option (List (String × Json))
update_headers update =
    entries_at
      ("subject_type" ∷ "subject_identifier" ∷ "product_version" ∷ "decision_context"
        ∷ "policies_satisfied" ∷ "summary" ∷ [])
      update

-- One attempt to send an update.
unfoldable pub attempt_to_send : Broker → Listener → ℕ → Object → Sending
attempt_to_send broker l attempt update = elim (update_headers update) [
  | none ↦ refused (unexpected "KeyError")
  | some headers ↦ broker.send l.updates attempt
]

-- What follows an attempt to send: `again` is the rest of the loop after `connect`.
abbrev pub after_sending :
    Sending → Object → Listener → Option (Listener × Published) → Option (Listener × Published)
after_sending delivered update l again = some (
  record l { tx_sent_ok = suc l.tx_sent_ok; updates = suc l.updates; sent = l.sent ++ update ∷ [] },
  published,
)
after_sending (refused e) update l again =
    some (record l { tx_failed = suc l.tx_failed; updates = suc l.updates }, raised e)
after_sending not_connected update l again = again

-- Nothing is sent any more after SIGQUIT.
abbrev pub unless_killed : Listener → Option (Listener × Published) → Option (Listener × Published)
unless_killed l again = if l.killed then some (l, killed) else again

-- What follows an update that was sent.
abbrev pub then_send :
    Option (Listener × Published)
    → (Listener → Option (Listener × Published))
    → Option (Listener × Published)
then_send none later = none
then_send (some (l, published)) later = later l
then_send (some (l, killed)) later = some (l, killed)
then_send (some (l, raised e)) later = some (l, raised e)

module _ (broker : Broker) where
  -- The loop of `_publish_decision_update`, from an attempt on. None is out of fuel.
  unfoldable pub send_update : ℕ → ℕ → Object → Listener → Option (Listener × Published)
  send_update zero attempt update l = none
  send_update (suc fuel) attempt update l =
      let l' = connect (broker.connect l.updates attempt) l in
      after_sending (attempt_to_send broker l attempt update) update l
        (unless_killed l' (send_update fuel (suc attempt) update l'))

  -- What a handler does, up to an update that is not sent.
  unfoldable pub perform : ℕ → List Act → Listener → Option (Listener × Published)
  perform fuel [] l = some (l, published)
  perform fuel (counts event ∷ rest) l =
      perform fuel rest (record l { counted = l.counted ++ event ∷ [] })
  perform fuel (publishes update ∷ rest) l =
      then_send (send_update fuel 0 update l) (perform fuel rest)

-- How `_consume_message` ends, and what the callback raises.
abbrev pub after_consuming : Result Bool → Listener × Published → Listener × Option Error
after_consuming result (l, killed) = (l, none)
after_consuming result (l, raised e) = (record l { failed = suc l.failed }, some e)
after_consuming (raise e) (l, published) = (record l { failed = suc l.failed }, some e)
after_consuming (ok true) (l, published) = (record l { processed_ok = suc l.processed_ok }, none)
after_consuming (ok false) (l, published) = (record l { ignored = suc l.ignored }, none)

abbrev pub ended : Result Bool → Option (Listener × Published) → Option (Listener × Option Error)
ended result none = none
ended result (some end) = some (after_consuming result end)

-- What a subclass does with a message while each update is sent, and how it ends then.
abbrev pub Handler : Type 0
Handler = Json → List Act × Result Bool

abbrev pub Turn : Type 0
Turn = Option (Listener × Option Error)

abbrev pub then_run : Turn → (Listener → Option Listener) → Option Listener
then_run none later = none
then_run (some (l, e)) later = later l

-- The callbacks of stomp, and the handler of SIGTERM, in the order in which they take effect.
pub data Event : Type 0 where
  message : String → String → Event
  connected disconnected receiver_loop_completed sigterm : Event

module _ (broker : Broker) (loads : String → Option Json) (consume : Handler) where
  unfoldable pub consume_body : ℕ → String → Listener → Turn
  consume_body fuel body l = elim (loads body) [
    | none ↦ some (record l { ignored = suc l.ignored }, none)
    | some content ↦ ended (consume content).1 (perform broker fuel (consume content).0 l)
  ]

  -- `on_message`
  unfoldable pub on_message : ℕ → String → String → Listener → Turn
  on_message fuel id body l =
      if l.stop
      then some (record l { nacked = l.nacked ++ id ∷ [] }, none)
      else consume_body fuel body
          (record l { acked = l.acked ++ id ∷ []; received = suc l.received })

  unfoldable pub callback : ℕ → Event → Listener → Turn
  callback fuel (message id body) l = on_message fuel id body l
  callback fuel connected l = some (record l { subscriptions = suc l.subscriptions }, none)
  callback fuel disconnected l = some (terminate l, none)
  callback fuel receiver_loop_completed l = some (terminate l, none)
  callback fuel sigterm l = some (disconnect l, none)

  -- An event, unless the process has ended.
  unfoldable pub handle : ℕ → Event → Listener → Turn
  handle fuel event l = if l.killed then some (l, none) else callback fuel event l

  -- A run of events. An exception of a callback ends the callback only.
  unfoldable pub run : ℕ → List Event → Listener → Option Listener
  run fuel [] l = some l
  run fuel (event ∷ rest) l = then_run (handle fuel event l) (run fuel rest)

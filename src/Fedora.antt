-- ===== src/Fedora.antt =====
-- consumers/fedora_messaging_consumer.py: the callback of fedora-messaging, which gives a message to the
-- consumer of its topic.
use greenwave.Prelude.Text.{ends_with}
use greenwave.Prelude.{String, List, [], ◌∷◌, ◌++◌, Option, none, some, if◌then◌else◌}
use greenwave.Outcome.{Error, unexpected, Result, ok, raise, ◌>>=◌}
use greenwave.Json.{Json, obj, Object, of_entries}
use greenwave.Announcement.{at}
use greenwave.Consumers.{Effects}
use greenwave.Messages.{Handling, Handled, consume_result, consume_waiver, body_of}

-- The consumers.
pub data Kind : Type 0 where
  resultsdb waiverdb : Kind

-- What is counted, with the label "handler".
pub data Receipt : Type 0 where
  received processed_ok failed : Kind → Receipt
  ignored : Receipt

-- The settings of fedora-messaging under "consumer_config", and the making of a consumer from those that
-- it gets, which makes an application.
pub record Bus : Type 0 where
  pub consumer_config : Json
  pub make_consumer : Kind → Object → Result Handling

abbrev pub topic_suffix_key : Kind → String
topic_suffix_key resultsdb = "resultsdb_topic_suffix"
topic_suffix_key waiverdb = "waiverdb_topic_suffix"

-- `config` of both branches
unfoldable pub config_for : Json → Kind → Result Object
config_for settings kind = do
  prefix ← at "topic_prefix" settings
  environment ← at "environment" settings
  suffix ← at (topic_suffix_key kind) settings
  ok (
      of_entries (
        ("topic_prefix", prefix)
        ∷ ("environment", environment)
        ∷ (topic_suffix_key kind, suffix)
        ∷ []))

-- Which consumer a topic belongs to.
unfoldable pub kind_of : String → Option Kind
kind_of topic =
    if ends_with "resultsdb.result.new" topic
    then some resultsdb
    else if ends_with "waiver.new" topic
    then some waiverdb
    else none

-- `_consume_message` of the consumer, of what `consume` makes of the message.
abbrev pub handle : Kind → Handling → Result Json → Effects → Handled
handle resultsdb h (ok (obj msg)) effects = consume_result h msg effects
handle waiverdb h (ok (obj msg)) effects = consume_waiver h msg effects
handle kind h (ok v) effects = (effects, raise (unexpected "TypeError"))
handle kind h (raise e) effects = (effects, raise e)

-- `Consumer.consume`: whatever `_consume_message` raises is logged, and nothing is raised.
abbrev pub caught : Handled → Effects × Option Error
caught (effects, outcome) = (effects, none)

-- What was counted, the effects of the consumer, and the exception that ended the callback.
abbrev pub Called : Type 0
Called = List Receipt × Effects × Option Error

-- The `try` of a branch.
abbrev pub tried : Kind → List Receipt → Effects × Option Error → Called
tried kind receipts (effects, none) = (receipts ++ processed_ok kind ∷ [], effects, none)
tried kind receipts (effects, some e) = (receipts ++ failed kind ∷ [], effects, some e)

abbrev pub with_consumer : Kind → Json → Effects → Result Handling → Called
with_consumer kind body effects (raise e) = (received kind ∷ [], effects, some e)
with_consumer kind body effects (ok h) =
    let message = of_entries (("body", obj (of_entries (("msg", body) ∷ []))) ∷ []) in
    tried kind (received kind ∷ []) (caught (handle kind h (at "msg" (body_of message)) effects))

-- `fedora_messaging_callback`
unfoldable pub fedora_messaging_callback : Bus → String → Json → Effects → Called
fedora_messaging_callback bus topic body effects = elim (kind_of topic) [
  | none ↦ (ignored ∷ [], effects, none)
  | some kind ↦
      with_consumer kind body effects
        (do config ← config_for bus.consumer_config kind; bus.make_consumer kind config)
]

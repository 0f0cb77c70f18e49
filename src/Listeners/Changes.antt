-- ===== src/Listeners/Changes.antt =====
-- listeners/base.py: how a listener finds the decisions that a new result or waiver changes. The
-- functions that compare two decisions are those of the consumers, word for word.
pub mod Same
use greenwave.Prelude.{
  String, Bool, true, false, List, [], ◌∷◌, ◌++◌, Option, none, some, sort, pair_order,
  if◌then◌else◌,
}
use greenwave.Outcome.{Error, Result, ok, raise, ◌>>=◌}
use greenwave.Json.{Json, obj, Object}
use greenwave.Announcement.{at}
use greenwave.Listeners.Acts.{Act, counts, publishes}
use greenwave.Subject.{Subject}
use greenwave.Policy.{Policy}
use greenwave.Policy.Services.{Services}
use greenwave.Policy.Matching.Pairs.{Pair, applicable_pairs}
use greenwave.Consumers.{
  Event, decision_failed, decision_unchanged, decision_changed, Environment, message_attributes,
  is_decision_unchanged, old_and_new_decisions, update_message,
}

-- What was done, and the exception that ended it, if one did.
abbrev pub Work : Type 0
Work = List Act × Option Error

abbrev pub then_work : Work → Work → Work
then_work (acts, some e) later = (acts, some e)
then_work (acts, none) later = (acts ++ later.0, later.1)

-- `old_decision["summary"]` and `decision["summary"]`
abbrev pub summaries : Object → Object → Result (Unit {0})
summaries old new = do before ← at "summary" (obj old); now ← at "summary" (obj new); ok tt

abbrev pub unless_raised : Result (Unit {0}) → Work → Work
unless_raised (raise e) work = ([], some e)
unless_raised (ok u) work = work

module _ (environment : Environment) (submit_time : String) (s : Subject)
    (testcase : Option String) where
  -- What follows the comparison of the decisions before and after the submit time.
  unfoldable pub compared : Pair → Object → Object → Result Bool → Work
  compared pair old new (raise e) = ([], some e)
  compared pair old new (ok true) = (counts (decision_unchanged pair.0) ∷ [], none)
  compared pair old new (ok false) = (
    counts (decision_changed pair.0) ∷ publishes (update_message s testcase pair old new) ∷ [],
    none,
  )

  -- What follows the requests for them. Their summaries are read for a log message.
  unfoldable pub decided : Pair → Result (Option (Object × Object)) → Work
  decided pair (raise e) = ([], some e)
  decided pair (ok none) = (counts (decision_failed pair.0) ∷ [], none)
  decided pair (ok (some (old, new))) =
      unless_raised (summaries old new)
        (compared pair old new (is_decision_unchanged (some old) (some new)))

  -- The loop of `_publish_decision_change`.
  unfoldable pub change_decisions : List Pair → Work
  change_decisions [] = ([], none)
  change_decisions (pair ∷ rest) =
      then_work (decided pair (old_and_new_decisions environment submit_time pair))
        (change_decisions rest)

-- `BaseListener._publish_decision_change`
unfoldable pub change_decision :
    Services → List Policy → Environment → String → Subject → String → Option String → Bool → Work
change_decision services policies environment submit_time s testcase product_version
      publish_testcase =
    elim (applicable_pairs services policies (message_attributes s testcase product_version)) [
      | raise e ↦ ([], some e)
      | ok pairs ↦
          change_decisions environment submit_time s
            (if publish_testcase then some testcase else none) (sort pairs)
    ]

-- ===== src/Messages.antt =====
-- What the consumers do with a message: `_consume_message` of consumers/resultsdb.py and
-- consumers/waiverdb.py. The exceptions
-- KeyError, TypeError and AttributeError are `unexpected`.
pub mod Considered
use greenwave.Prelude.{
  ℕ, String, Bool, true, false, not, ◌&&◌, List, [], ◌∷◌, map, Option, none, some, ◌==◌, string_eq,
  elem, if◌then◌else◌,
}
use greenwave.Outcome.{Error, unexpected, Result, ok, raise, ◌>>=◌}
use greenwave.Json.{
  Json, null, bool, num, str, arr, obj, Array, nil, cons, Object, empty, entry, lookup, has_key,
  truthy_json,
}
use greenwave.Decimal.{read}
use greenwave.Subject.{SubjectType, Subject}
use greenwave.Announcement.{get_brew_task_id, at, or_else, announcement_subject}
use greenwave.Subject.Factory.{create_subject, create_subject_from_data}
use greenwave.Policy.{Policy}
use greenwave.Policy.Services.{Services}
use greenwave.Resources.Koji.{Koji}
use greenwave.ProductVersions.{Patterns, subject_product_versions}
use greenwave.Decision.Request.{text_value}
use greenwave.Subject.Requested.{text_entries}
use greenwave.Consumers.{Environment, Effects, Outcome, publish_decision_change}

-- What a handler uses: the configuration, the services for decisions, and Koji. The environment makes
-- the decisions about a subject and publishes the updates.
pub record Handling : Type 0 where
  pub subject_types : List SubjectType
  pub policies : List Policy
  pub services : Services
  pub patterns : Patterns
  pub koji : Koji
  pub environment : Subject → Environment

-- `product_versions` of the loop: None where nothing was guessed.
abbrev pub versions_or_none : List String → List (Option String)
versions_or_none [] = none ∷ []
versions_or_none (pv ∷ pvs) = map some (pv ∷ pvs)

-- The effects so far, and how the handler ends: it returns None, or it raises.
abbrev pub Handled : Type 0
Handled = Effects × Result (Unit {0})

abbrev pub then_handle : Outcome → (Effects → Handled) → Handled
then_handle (effects, some e) later = (effects, raise e)
then_handle (effects, none) later = later effects

abbrev name_in : String → Object → Result Json
name_in key msg = do v ← at key (obj msg); at "name" v

abbrev time_in_result : Object → Result Json
time_in_result msg = do v ← at "result" (obj msg); at "submit_time" v

abbrev pub task_json : Option ℕ → Option Json
task_json none = none
task_json (some n) = some (num n)

-- A version, or none.
abbrev pub text_or_none : Json → Result (Option String)
text_or_none null = ok none
text_or_none (str s) = ok (some s)
text_or_none v = raise (unexpected "TypeError")

-- What a new result leads to.
pub record Plan : Type 0 where
  pub submit_time : String
  pub subject : Subject
  pub testcase : String
  pub versions : List (Option String)

module _ (h : Handling) where
  -- The loop over the product versions.
  unfoldable pub for_versions : String → Subject → String → List (Option String) → Effects → Handled
  for_versions submit_time s testcase [] effects = (effects, ok tt)
  for_versions submit_time s testcase (pv ∷ pvs) effects =
      then_handle
        (publish_decision_change h.services h.policies (h.environment s) submit_time s testcase pv
          false effects)
        (for_versions submit_time s testcase pvs)

  -- `outcome in OUTCOMES_INCOMPLETE`
  abbrev pub is_incomplete : Object → Bool
  is_incomplete msg = elim (lookup "outcome" msg) [
    | some (str outcome) ↦ elem outcome h.services.config.outcomes_incomplete
    | _ ↦ false
  ]

  abbrev pub plan_for : Json → Json → Option ℕ → Option Subject → Result (Option Plan)
  plan_for testcase submit_time id none = ok none
  plan_for testcase submit_time id (some s) = do
    versions ← subject_product_versions h.patterns (some h.koji) (task_json id) s
    name ← text_value testcase
    time ← text_value submit_time
    ok (
        some (record {
          submit_time = time;
          subject = s;
          testcase = name;
          versions = versions_or_none versions;
        }))

  -- `_consume_message` of a result, up to its loop. None: no decision is expected to change.
  unfoldable pub plan_result : Object → Result (Option Plan)
  plan_result msg = do
    testcase ← or_else (name_in "testcase" msg) (name_in "task" msg)
    submit_time ← or_else (at "submit_time" (obj msg)) (time_in_result msg)
    if is_incomplete msg then ok none else (do
      id ← get_brew_task_id msg
      found ← announcement_subject h.subject_types msg
      plan_for testcase submit_time id found)

  abbrev pub run_plan : Result (Option Plan) → Effects → Handled
  run_plan (raise e) effects = (effects, raise e)
  run_plan (ok none) effects = (effects, ok tt)
  run_plan (ok (some p)) effects =
      for_versions p.submit_time p.subject p.testcase p.versions effects

  -- `ResultsDBHandler._consume_message`
  unfoldable pub consume_result : Object → Effects → Handled
  consume_result msg effects = run_plan (plan_result msg) effects

  -- A new waiver, with the version that it is for.
  unfoldable pub plan_waiver : Object → Result (String × Subject × String × Option String)
  plan_waiver msg = do
    product_version ← at "product_version" (obj msg)
    testcase ← at "testcase" (obj msg)
    subject_type ← at "subject_type" (obj msg)
    subject_identifier ← at "subject_identifier" (obj msg)
    timestamp ← at "timestamp" (obj msg)
    version ← text_or_none product_version
    name ← text_value testcase
    type ← text_value subject_type
    item ← text_value subject_identifier
    time ← text_value timestamp
    ok (time, create_subject h.subject_types type item, name, version)

  abbrev pub run_waiver : Result (String × Subject × String × Option String) → Effects → Handled
  run_waiver (raise e) effects = (effects, raise e)
  run_waiver (ok (time, s, name, version)) effects =
      then_handle
        (publish_decision_change h.services h.policies (h.environment s) time s name version true
          effects)
        (λ after. (after, ok tt))

  -- `WaiverDBHandler._consume_message`
  unfoldable pub consume_waiver : Object → Effects → Handled
  consume_waiver msg effects = run_waiver (plan_waiver msg) effects

-- `message.get("body", message)`
abbrev pub body_of : Object → Json
body_of message = elim (lookup "body" message) [ none ↦ obj message | some v ↦ v ]

abbrev pub kept_effects : (Object → Effects → Handled) → Result Json → Effects → Effects
kept_effects handler (ok (obj msg)) effects = (handler msg effects).0
kept_effects handler outcome effects = effects

-- `Consumer.consume`: whatever is raised ends here.
unfoldable pub consume : (Object → Effects → Handled) → Object → Effects → Effects
consume handler message effects = kept_effects handler (at "msg" (body_of message)) effects

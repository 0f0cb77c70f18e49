-- ===== src/Listeners/Incoming.antt =====
-- listeners/resultsdb.py and listeners/waiverdb.py: what the two listeners do with a message.
use greenwave.Prelude.{
  ℕ, String, Bool, true, false, not, ◌&&◌, List, [], ◌∷◌, ◌++◌, Option, none, some, ◌==◌, string_eq,
  elem, if◌then◌else◌,
}
use greenwave.Outcome.{unexpected, Result, ok, raise, ◌>>=◌}
use greenwave.Json.{Json, str, obj, Object, lookup, has_key}
use greenwave.Subject.{SubjectType, Subject}
use greenwave.Subject.Factory.{create_subject, create_subject_from_data}
use greenwave.Subject.Requested.{text_entries}
use greenwave.Announcement.{at, or_else, unpacked, get_brew_task_id}
use greenwave.ProductVersions.{subject_product_versions}
use greenwave.Decision.Request.{text_value}
use greenwave.Messages.{Handling, task_json, text_or_none, versions_or_none}
use greenwave.Listeners.{Handler}
use greenwave.Listeners.Acts.{Act}
use greenwave.Listeners.Changes.{Work, change_decision}

-- What is done with a message, and whether it was processed.
abbrev pub Handled : Type 0
Handled = List Act × Result Bool

abbrev pub then_handle : Work → Handled → Handled
then_handle (acts, some e) later = (acts, raise e)
then_handle (acts, none) later = (acts ++ later.0, later.1)

abbrev pub or_raise {ℓ} : {A : Type ℓ} → Result A → (A → Handled) → Handled
or_raise (raise e) next = ([], raise e)
or_raise (ok a) next = next a

-- `isinstance(subject.type, "compose") and …`: old messages about composes do not count.
abbrev pub unless_old_compose : Object → Option Subject → Option Subject
unless_old_compose d none = none
unless_old_compose d (some s) =
    if (s.subject_type.id == "compose") && not (has_key "productmd.compose.id" d)
    then none
    else some s

abbrev pub subject_of : List SubjectType → Json → Result (Option Subject)
subject_of types (obj d) =
    ok (unless_old_compose d (create_subject_from_data types (text_entries (unpacked d))))
subject_of types v = raise (unexpected "AttributeError")

-- `ResultsDBListener.announcement_subject`
unfoldable pub announced_subject : List SubjectType → Object → Result (Option Subject)
announced_subject types msg = do
  d ← or_else (at "data" (obj msg)) (at "task" (obj msg))
  subject_of types d

module _ (h : Handling) where
  -- The loop over the product versions.
  unfoldable pub change_for : String → Subject → String → List (Option String) → Handled
  change_for submit_time s testcase [] = ([], ok true)
  change_for submit_time s testcase (pv ∷ pvs) =
      then_handle
        (change_decision h.services h.policies (h.environment s) submit_time s testcase pv false)
        (change_for submit_time s testcase pvs)

  abbrev pub has_incomplete_outcome : Object → Bool
  has_incomplete_outcome msg = elim (lookup "outcome" msg) [
    | some (str outcome) ↦ elem outcome h.services.config.outcomes_incomplete
    | _ ↦ false
  ]

  abbrev pub consider : Json → Json → Option ℕ → Option Subject → Handled
  consider testcase submit_time brew_task_id none = ([], ok false)
  consider testcase submit_time brew_task_id (some s) =
      or_raise (subject_product_versions h.patterns (some h.koji) (task_json brew_task_id) s)
        λ product_versions. or_raise (text_value testcase) λ name.
          or_raise (text_value submit_time)
            λ time. change_for time s name (versions_or_none product_versions)

  -- `ResultsDBListener._consume_message`
  unfoldable pub handle_result : Object → Handled
  handle_result msg =
      or_raise (or_else (at "testcase" (obj msg) >>= at "name") (at "task" (obj msg) >>= at "name"))
        λ testcase.
          or_raise
            (or_else (at "submit_time" (obj msg)) (at "result" (obj msg) >>= at "submit_time"))
            λ submit_time.
              if has_incomplete_outcome msg
              then ([], ok false)
              else or_raise (get_brew_task_id msg) λ brew_task_id.
                or_raise (announced_subject h.subject_types msg)
                  (consider testcase submit_time brew_task_id)

  -- `WaiverDBListener._consume_message`
  unfoldable pub handle_waiver : Object → Handled
  handle_waiver msg = or_raise (at "product_version" (obj msg)) λ product_version.
      or_raise (at "testcase" (obj msg)) λ testcase.
        or_raise (at "subject_type" (obj msg)) λ subject_type.
          or_raise (at "subject_identifier" (obj msg)) λ subject_identifier.
            or_raise (at "timestamp" (obj msg)) λ submit_time.
              or_raise (text_or_none product_version) λ version.
                or_raise (text_value testcase) λ name. or_raise (text_value subject_type) λ type.
                  or_raise (text_value subject_identifier) λ item.
                    or_raise (text_value submit_time) λ time.
                      then_handle
                        (change_decision h.services h.policies
                          (h.environment (create_subject h.subject_types type item)) time
                          (create_subject h.subject_types type item) name version true)
                        ([], ok true)

-- The handler that `on_message` calls. A message that is no dictionary is not read.
abbrev pub as_handler : (Object → Handled) → Handler
as_handler handle (obj msg) = handle msg
as_handler handle v = ([], raise (unexpected "TypeError"))

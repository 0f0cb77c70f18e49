-- ===== src/Listeners/Alike.antt =====
-- The updates that a listener asks to send while they are all sent are those that a consumer publishes.
use mathlib.Core.List.{append-nil}
use greenwave.Listeners.Changes.Same.{Same, Summarized, then-Same, change_decision-Same}
use greenwave.Prelude.{
  ℕ, String, ◌≡◌, refl, sym, ap, Bool, true, false, List, [], ◌∷◌, Option, none, some, arith,
  string_eq, pair_order, if◌then◌else◌,
}
use greenwave.Outcome.{Result, ok, raise, ◌>>=◌}
use greenwave.Json.{Json, null, obj, Object}
use greenwave.Subject.{SubjectType, Subject}
use greenwave.Subject.Factory.{create_subject, create_subject_from_data}
use greenwave.Subject.Requested.{text_entries}
use greenwave.Consumers.{Effects, Outcome, publish_decision_change}
use greenwave.Messages as Consumer
use greenwave.Messages.{Handling}
use greenwave.Listeners.Changes.{Work, change_decision}
use greenwave.Listeners.Incoming.{
  announced_subject, subject_of, unless_old_compose, has_incomplete_outcome, Handled, then_handle,
  or_raise, change_for, consider, handle_result, handle_waiver,
}
use greenwave.Announcement.{
  at, or_else, data_of, announcement_subject, considered, subject_in, unpacked, get_brew_task_id,
}
use greenwave.ProductVersions.{subject_product_versions}
use greenwave.Decision.Request.{text_value}
use greenwave.Messages.{task_json, text_or_none}

-- What is returned is left out.
abbrev pub returned : Result Bool → Result (Unit {0})
returned (ok processed) = ok tt
returned (raise e) = raise e

abbrev pub SameHandled : Effects → Consumer.Handled → Handled → Type 0
SameHandled effects out work = Same effects out (work.0, returned work.1)

then_handle-Same :
    (f : Effects → Consumer.Handled) (effects : Effects) (out : Outcome) (work : Work)
    (later : Handled)
    → Same effects out work
    → ((after : Effects) → SameHandled after (f after) later)
    → SameHandled effects (Consumer.then_handle out f) (then_handle work later)
then_handle-Same f effects (after, some e) (acts, some e') later now next = (now.0, cc)
then_handle-Same f effects (after, none) (acts, none) later now next =
    then-Same effects after acts later.0 (f after) (returned later.1) now.0 (next after)
then_handle-Same f effects (after, some e) (acts, none) later now next = absurd (ground arith)
then_handle-Same f effects (after, none) (acts, some e') later now next = absurd (ground arith)

unless_old_compose-considered :
    (d : Object) (found : Option Subject) → unless_old_compose d found ≡ considered d found
unless_old_compose-considered d none = refl
unless_old_compose-considered d (some s) = refl

subject_of-subject_in :
    (types : List SubjectType) (m : Result Json)
    → (m >>= subject_of types) ≡ (m >>= subject_in types)
subject_of-subject_in types (raise e) = refl
subject_of-subject_in types (ok (obj d)) =
    ap ok
      (unless_old_compose-considered d (create_subject_from_data types (text_entries (unpacked d))))
subject_of-subject_in types (ok null) = refl
subject_of-subject_in types (ok v) = refl

announced_subject-announcement_subject :
    (types : List SubjectType) (msg : Object)
    → announced_subject types msg ≡ announcement_subject types msg
unfolding announced_subject announcement_subject data_of
announced_subject-announcement_subject types msg =
    subject_of-subject_in types (or_else (at "data" (obj msg)) (at "task" (obj msg)))

module _ (h : Handling) (summarized : (s : Subject) → Summarized (h.environment s)) where
  change_for-Same :
      (submit_time : String) (s : Subject) (testcase : String) (versions : List (Option String))
      (effects : Effects)
      → SameHandled effects
          (Consumer.for_versions h submit_time s testcase versions effects)
          (change_for h submit_time s testcase versions)
  unfolding Consumer.for_versions change_for
  change_for-Same submit_time s testcase [] effects = (sym (append-nil effects.published), refl)
  change_for-Same submit_time s testcase (version ∷ rest) effects =
      then_handle-Same (Consumer.for_versions h submit_time s testcase rest) effects
        (publish_decision_change h.services h.policies (h.environment s) submit_time s testcase
          version false effects)
        (change_decision h.services h.policies (h.environment s) submit_time s testcase version
          false)
        (change_for h submit_time s testcase rest)
        (change_decision-Same h summarized submit_time s testcase version false effects)
        (change_for-Same submit_time s testcase rest)

  -- A chain of calls that may raise.
  planned-Same {ℓ} :
      {A : Type ℓ} (m : Result A) (plan : A → Result (Option Consumer.Plan)) (next : A → Handled)
      (effects : Effects)
      → ((a : A) → SameHandled effects (Consumer.run_plan h (plan a) effects) (next a))
      → SameHandled effects (Consumer.run_plan h (m >>= plan) effects) (or_raise m next)
  planned-Same (raise e) plan next effects h' = (sym (append-nil effects.published), refl)
  planned-Same (ok a) plan next effects h' = h' a

  consider-Same :
      (testcase submit_time : Json) (id : Option ℕ) (found : Option Subject) (effects : Effects)
      → SameHandled effects
          (Consumer.run_plan h (Consumer.plan_for h testcase submit_time id found) effects)
          (consider h testcase submit_time id found)
  consider-Same testcase submit_time id none effects = (sym (append-nil effects.published), refl)
  consider-Same testcase submit_time id (some s) effects =
      planned-Same (subject_product_versions h.patterns (some h.koji) (task_json id) s) _ _ effects
        λ versions. planned-Same (text_value testcase) _ _ effects λ name.
          planned-Same (text_value submit_time) _ _ effects
            λ time. change_for-Same time s name (Consumer.versions_or_none versions) effects

  unless-Same :
      (b : Bool) (m : Result (Option Consumer.Plan)) (work : Handled) (effects : Effects)
      → SameHandled effects (Consumer.run_plan h m effects) work
      → SameHandled effects
          (Consumer.run_plan h (if b then ok none else m) effects)
          (if b then ([], ok false) else work)
  unless-Same true m work effects same = (sym (append-nil effects.published), refl)
  unless-Same false m work effects same = same

  pub handle_result-consume_result :
      (msg : Object) (effects : Effects)
      → SameHandled effects (Consumer.consume_result h msg effects) (handle_result h msg)
  unfolding Consumer.consume_result Consumer.plan_result handle_result
  handle_result-consume_result msg effects =
      planned-Same
        (or_else (at "testcase" (obj msg) >>= at "name") (at "task" (obj msg) >>= at "name")) _ _
        effects
        λ testcase.
          planned-Same
            (or_else (at "submit_time" (obj msg)) (at "result" (obj msg) >>= at "submit_time")) _ _
            effects
            λ submit_time. unless-Same (has_incomplete_outcome h msg) _ _ effects (
              planned-Same (get_brew_task_id msg) _ _ effects λ id.
                rw (announced_subject-announcement_subject h.subject_types msg) (
                  planned-Same (announcement_subject h.subject_types msg) _ _ effects
                    λ found. consider-Same testcase submit_time id found effects))

  waived-Same {ℓ} :
      {A : Type ℓ} (m : Result A) (plan : A → Result (String × Subject × String × Option String))
      (next : A → Handled) (effects : Effects)
      → ((a : A) → SameHandled effects (Consumer.run_waiver h (plan a) effects) (next a))
      → SameHandled effects (Consumer.run_waiver h (m >>= plan) effects) (or_raise m next)
  waived-Same (raise e) plan next effects h' = (sym (append-nil effects.published), refl)
  waived-Same (ok a) plan next effects h' = h' a

  handle_waiver-consume_waiver :
      (msg : Object) (effects : Effects)
      → SameHandled effects (Consumer.consume_waiver h msg effects) (handle_waiver h msg)
  unfolding Consumer.consume_waiver Consumer.plan_waiver handle_waiver
  handle_waiver-consume_waiver msg effects =
      waived-Same (at "product_version" (obj msg)) _ _ effects λ product_version.
        waived-Same (at "testcase" (obj msg)) _ _ effects λ testcase.
          waived-Same (at "subject_type" (obj msg)) _ _ effects λ subject_type.
            waived-Same (at "subject_identifier" (obj msg)) _ _ effects λ subject_identifier.
              waived-Same (at "timestamp" (obj msg)) _ _ effects λ timestamp.
                waived-Same (text_or_none product_version) _ _ effects λ version.
                  waived-Same (text_value testcase) _ _ effects λ name.
                    waived-Same (text_value subject_type) _ _ effects λ type.
                      waived-Same (text_value subject_identifier) _ _ effects λ item.
                        waived-Same (text_value timestamp) _ _ effects λ time.
                          then_handle-Same (λ after. (after, ok tt)) effects _ _ ([], ok true)
                            (change_decision-Same h summarized time
                              (create_subject h.subject_types type item) name version true effects)
                            (λ after. (sym (append-nil after.published), refl))

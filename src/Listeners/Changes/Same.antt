-- ===== src/Listeners/Changes/Same.antt =====
-- The updates for a product version: those that a listener asks to send while they are all sent are those
-- that a consumer publishes.
use mathlib.Core.List.{append-nil, append_assoc}
use greenwave.Prelude.{
  String, ◌≡◌, refl, sym, ap, ◌∙◌, Bool, true, false, List, [], ◌∷◌, ◌++◌, Option, none, some,
  arith, inl, inr, Option-cases, string_eq, sort, pair_order, if◌then◌else◌,
}
use greenwave.Outcome.{Error, http, Result, ok, raise, bind-eq-ok}
use greenwave.Json.{Json, obj, Object, lookup}
use greenwave.Subject.{Subject}
use greenwave.Policy.Matching.Pairs.{Pair, applicable_pairs}
use greenwave.Timestamp.{right_before_this_time}
use greenwave.Listeners.Addressed.{Has}
use greenwave.Consumers.{
  both, Effects, Outcome, Environment, is_decision_unchanged, old_and_new_decisions, update_message,
  after_comparison, after_decisions, turn, then_continue, count, decision_changed,
  message_attributes, publish_changes, publish_decision_change,
}
use greenwave.Consumers.Published.{publish_update-published}
use greenwave.Messages.{Handling}
use greenwave.Listeners.Acts.{Act, counts, publishes, updates_in}
use greenwave.Listeners.Changes.{
  summaries, Work, then_work, compared, decided, change_decisions, change_decision,
}
use greenwave.Announcement.{at}

updates_in-append :
    (acts more : List Act) → updates_in (acts ++ more) ≡ updates_in acts ++ updates_in more
updates_in-append [] more = refl
updates_in-append (counts event ∷ acts) more = updates_in-append acts more
updates_in-append (publishes update ∷ acts) more =
    ap (λ us. update ∷ us) (updates_in-append acts more)

-- A consumer and a listener publish the same, and end in the same way.
abbrev pub Same {ℓ} : {E : Type ℓ} → Effects → Effects × E → List Act × E → Type ℓ
Same effects out work =
    (out.0.published ≡ effects.published ++ updates_in work.0) × (out.1 ≡ work.1)

pub then-Same {ℓ} :
    {E : Type ℓ} (effects after : Effects) (acts more : List Act) (out : Effects × E) (end : E)
    → after.published ≡ effects.published ++ updates_in acts
    → Same after out (more, end)
    → Same effects out (acts ++ more, end)
then-Same effects after acts more out end now (later, ended) = (
  later
      ∙ ap (λ us. us ++ updates_in more) now
      ∙ append_assoc effects.published (updates_in acts) (updates_in more)
      ∙ ap (λ us. effects.published ++ us) (sym (updates_in-append acts more)),
  ended,
)

-- Every decision has a summary.
abbrev pub Summarized : Environment → Type 0
Summarized environment =
    (pair : Pair) (when : Option String) (d : Object)
    → environment.make_decision pair when ≡ ok d
    → Has d "summary"

both-ok :
    (m n : Result Object) (old new : Object)
    → both m n ≡ ok (some (old, new))
    → (m ≡ ok new) × (n ≡ ok old)
both-ok (ok a) (ok b) old new e = (ground arith, ground arith)
both-ok (ok a) (raise (http x)) old new e = absurd (ground arith)
both-ok (ok a) (raise x) old new e = absurd (ground arith)
both-ok (raise (http x)) n old new e = absurd (ground arith)
both-ok (raise x) n old new e = absurd (ground arith)

at-Has : (key : String) (d : Object) → Has d key → (v : Json) × (at key (obj d) ≡ ok v)
unfolding at
at-Has key d h = elim (Option-cases (lookup key d)) [
  | inl absent ↦ absurd (ground (arith, absent, h))
  | inr (v, there) ↦ (v, rw (there, at) refl)
]

summaries-Has :
    (old new : Object) → Has old "summary" → Has new "summary" → summaries old new ≡ ok tt
summaries-Has old new h k =
    let (before, e) = at-Has "summary" old h in
    let (now, e') = at-Has "summary" new k in rw (e, e') refl

module _ (environment : Environment) (submit_time : String) (s : Subject) (testcase : Option String)
    (summarized : Summarized environment) where
  compared-Same :
      (pair : Pair) (old new : Object) (unchanged : Result Bool) (effects : Effects)
      → Same effects
          (after_comparison environment submit_time s testcase pair old new unchanged effects)
          (compared environment submit_time s testcase pair old new unchanged)
  unfolding after_comparison compared
  compared-Same pair old new (raise e) effects = (sym (append-nil effects.published), refl)
  compared-Same pair old new (ok true) effects = (sym (append-nil effects.published), refl)
  compared-Same pair old new (ok false) effects = (
    publish_update-published environment submit_time s testcase
        (update_message s testcase pair old new) (count (decision_changed pair.0) effects),
    refl,
  )

  decided-Same :
      (pair : Pair) (decisions : Result (Option (Object × Object))) (effects : Effects)
      → ((old new : Object) → decisions ≡ ok (some (old, new)) → summaries old new ≡ ok tt)
      → Same effects
          (after_decisions environment submit_time s testcase pair decisions effects)
          (decided environment submit_time s testcase pair decisions)
  unfolding after_decisions decided
  decided-Same pair (raise e) effects read = (sym (append-nil effects.published), refl)
  decided-Same pair (ok none) effects read = (sym (append-nil effects.published), refl)
  decided-Same pair (ok (some (old, new))) effects read =
      rw (read old new refl)
        (compared-Same pair old new (is_decision_unchanged (some old) (some new)) effects)

  decisions-summaries :
      (pair : Pair) (old new : Object)
      → old_and_new_decisions environment submit_time pair ≡ ok (some (old, new))
      → summaries old new ≡ ok tt
  unfolding old_and_new_decisions
  decisions-summaries pair old new e =
      let (now, before) = both-ok _ _ old new e in
      let (time, asked, made) =
        bind-eq-ok (right_before_this_time submit_time)
          (λ time. environment.make_decision pair (some time)) before in
      summaries-Has old new (summarized pair (some time) old made) (summarized pair none new now)

  then_continue-Same :
      (f : Effects → Outcome) (effects : Effects) (out : Outcome) (work later : Work)
      → Same effects out work
      → ((after : Effects) → Same after (f after) later)
      → Same effects (then_continue environment submit_time s testcase f out) (then_work work later)
  then_continue-Same f effects (after, some e) (acts, some e') later now next = now
  then_continue-Same f effects (after, none) (acts, none) later now next =
      then-Same effects after acts later.0 (f after) later.1 now.0 (next after)
  then_continue-Same f effects (after, some e) (acts, none) later now next = absurd (ground arith)
  then_continue-Same f effects (after, none) (acts, some e') later now next = absurd (ground arith)

  change_decisions-Same :
      (pairs : List Pair) (effects : Effects)
      → Same effects
          (publish_changes environment submit_time s testcase pairs effects)
          (change_decisions environment submit_time s testcase pairs)
  unfolding publish_changes change_decisions turn
  change_decisions-Same [] effects = (sym (append-nil effects.published), refl)
  change_decisions-Same (pair ∷ rest) effects =
      then_continue-Same (publish_changes environment submit_time s testcase rest) effects
        (turn environment submit_time s testcase pair effects)
        (decided environment submit_time s testcase pair
          (old_and_new_decisions environment submit_time pair))
        (change_decisions environment submit_time s testcase rest)
        (decided-Same pair (old_and_new_decisions environment submit_time pair) effects
          (decisions-summaries pair))
        (change_decisions-Same rest)

module _ (h : Handling) (summarized : (s : Subject) → Summarized (h.environment s))
    (submit_time : String) (s : Subject) (testcase : String) where
  pub change_decision-Same :
      (version : Option String) (publish_testcase : Bool) (effects : Effects)
      → Same effects
          (publish_decision_change h.services h.policies
            (h.environment s)
            submit_time
            s
            testcase
            version
            publish_testcase
            effects)
          (change_decision h.services h.policies
            (h.environment s)
            submit_time
            s
            testcase
            version
            publish_testcase)
  unfolding publish_decision_change change_decision
  change_decision-Same version publish_testcase effects =
      by_pairs (applicable_pairs h.services h.policies (message_attributes s testcase version))
    where
      to_publish : Option String
      to_publish = if publish_testcase then some testcase else none

      by_pairs :
          (m : Result (List Pair))
          → Same {E = Option Error} effects
              (elim m [
                | raise e ↦ (effects, some e)
                | ok pairs ↦
                    publish_changes (h.environment s) submit_time s to_publish (sort pairs) effects
              ])
              (elim m [
                | raise e ↦ ([], some e)
                | ok pairs ↦
                    change_decisions (h.environment s) submit_time s to_publish (sort pairs)
              ])
      by_pairs (raise e) = (sym (append-nil effects.published), refl)
      by_pairs (ok pairs) =
          change_decisions-Same (h.environment s) submit_time s to_publish (summarized s)
            (sort pairs) effects

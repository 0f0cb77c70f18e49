-- ===== src/Decision/Request/Each.antt =====
-- The loop over the subjects of a request: each is checked as if it were alone.
use mathlib.Core.List.{append-nil, append_assoc}
use greenwave.Prelude.{
  String, ◌≡◌, refl, sym, ap, ◌∙◌, subst, Bool, false, List, [], ◌∷◌, ◌++◌, map, arith, is_empty,
  if◌then◌else◌, Bool-cases, inl, inr,
}
use greenwave.Outcome.{not_found, Result, ok, raise, ◌>>=◌, bind-eq-ok}
use greenwave.Subject.{Subject}
use greenwave.Answer.{Answer}
use greenwave.Policy.{Policy}
use greenwave.Policy.Services.{Services}
use greenwave.Decision.{
  Decision, new_decision, subject_policies, check_policies, context_of, note_verbose,
  no_policy_message, check,
}
use greenwave.Decision.Request.{check_subjects}

module _ (services : Services) (policies : List Policy) where
  -- A decision of these contexts and this version about one subject only, which is not verbose.
  abbrev pub checked_alone : List String → String → Subject → Result Decision
  checked_alone contexts version s = check services (new_decision contexts version false) s policies

  -- What is added to a decision for a subject.
  abbrev pub answers_in : Result Decision → List Answer
  answers_in (ok d) = d.answers
  answers_in (raise e) = []

  abbrev pub policies_in : Result Decision → List Policy
  policies_in (ok d) = d.applicable_policies
  policies_in (raise e) = []

  -- The answers and the applicable policies of each subject alone, in turn.
  abbrev pub answers_alone : List String → String → List Subject → List Answer
  answers_alone contexts version [] = []
  answers_alone contexts version (s ∷ subjects) =
      answers_in (checked_alone contexts version s) ++ answers_alone contexts version subjects

  abbrev pub policies_alone : List String → String → List Subject → List Policy
  policies_alone contexts version [] = []
  policies_alone contexts version (s ∷ subjects) =
      policies_in (checked_alone contexts version s) ++ policies_alone contexts version subjects

  -- What follows the choice of the policies.
  with_applicable : Decision → Subject → List Policy → Result Decision
  with_applicable d s applicable =
      if is_empty applicable
      then (if s.subject_type.ignore_missing_policy
          then ok d
          else raise (not_found (no_policy_message services d s)))
      else (do
        d' ← note_verbose services d s
        (answers, verified) ← check_policies services (context_of services d s) applicable []
        ok (record d' {
          answers = d'.answers ++ answers;
          applicable_policies = d'.applicable_policies ++ applicable;
        }))

  abbrev start : Decision → Decision
  start d = new_decision d.decision_contexts d.product_version false

  check-with_applicable :
      (d : Decision) (s : Subject)
      → check services d s policies
        ≡ (subject_policies services d s policies >>= with_applicable d s)
  unfolding check with_applicable
  check-with_applicable d s = refl

  start-applicable :
      (d : Decision) (s : Subject)
      → subject_policies services (start d) s policies ≡ subject_policies services d s policies
  unfolding subject_policies new_decision
  start-applicable d s = refl

  -- What `with_applicable` adds, beside what it makes of an empty decision that is not verbose.
  record AddedFor (d d' : Decision) (s : Subject) (applicable : List Policy) : Type 0 where
    alone : Decision
    returns : with_applicable (start d) s applicable ≡ ok alone
    answers_added : d'.answers ≡ d.answers ++ alone.answers
    policies_added : d'.applicable_policies ≡ d.applicable_policies ++ alone.applicable_policies
    same_contexts : d'.decision_contexts ≡ d.decision_contexts
    same_version : d'.product_version ≡ d.product_version

  note_verbose-kept :
      (d d' : Decision) (s : Subject)
      → note_verbose services d s ≡ ok d'
      → (d'.answers ≡ d.answers)
        × (d'.applicable_policies ≡ d.applicable_policies)
        × (d'.decision_contexts ≡ d.decision_contexts)
        × (d'.product_version ≡ d.product_version)
  unfolding note_verbose
  note_verbose-kept d d' s h = ground arith

  abbrev with_answers : Decision → List Answer → List Policy → Decision
  with_answers d answers applicable = record d {
    answers = d.answers ++ answers;
    applicable_policies = d.applicable_policies ++ applicable;
  }

  with_applicable-AddedFor :
      (d d' : Decision) (s : Subject) (applicable : List Policy)
      → with_applicable d s applicable ≡ ok d'
      → AddedFor d d' s applicable
  unfolding with_applicable new_decision note_verbose
  with_applicable-AddedFor d d' s [] e = elim (Bool-cases s.subject_type.ignore_missing_policy) [
    | inl ignored ↦
        let same : d ≡ d' = ground (arith, ignored, e) in
        subst (λ x. AddedFor d x s []) same
          (record {
            alone = start d;
            returns = rw (ignored, with_applicable) refl;
            answers_added = sym (append-nil d.answers);
            policies_added = sym (append-nil d.applicable_policies);
            same_contexts = refl;
            same_version = refl;
          })
    | inr refused ↦ absurd (ground (arith, refused, e))
  ]
  with_applicable-AddedFor d d' s (p ∷ ps) e =
      let (noted, taken, e1) =
        bind-eq-ok (note_verbose services d s)
          (λ noted. check_policies services (context_of services d s) (p ∷ ps) [] >>= λ r.
            ok (with_answers noted r.0 (p ∷ ps)))
          e in
      let (r, checked, e2) =
        bind-eq-ok (check_policies services (context_of services d s) (p ∷ ps) [])
          (λ r. ok (with_answers noted r.0 (p ∷ ps))) e1 in
      let same : with_answers noted r.0 (p ∷ ps) ≡ d' = ground arith in
      let kept = note_verbose-kept d noted s taken in
      subst (λ x. AddedFor d x s (p ∷ ps)) same
        (record {
          alone = with_answers (start d) r.0 (p ∷ ps);
          returns = rw checked refl;
          answers_added = ap (λ (l : List Answer). l ++ r.0) kept.0;
          policies_added = ap (λ (l : List Policy). l ++ p ∷ ps) kept.1;
          same_contexts = kept.2;
          same_version = kept.3;
        })

  check-AddedFor :
      (d d' : Decision) (s : Subject)
      → check services d s policies ≡ ok d'
      → (applicable : List Policy) × (added : AddedFor d d' s applicable) × (checked_alone
            d.decision_contexts d.product_version s
          ≡ ok added.alone)
  check-AddedFor d d' s e =
      let (applicable, found, rest) =
        bind-eq-ok (subject_policies services d s policies) (with_applicable d s)
          (sym (check-with_applicable d s) ∙ e) in
      let added = with_applicable-AddedFor d d' s applicable rest in
      (
        applicable,
        added,
        check-with_applicable (start d) s
            ∙ ap (λ m. m >>= with_applicable (start d) s) (start-applicable d s ∙ found)
            ∙ added.returns,
      )

  -- The loop, from any decision on.
  check_subjects-added :
      (subjects : List Subject) (d d' : Decision)
      → check_subjects services policies (map ok subjects) d ≡ ok d'
      → (d'.answers ≡ d.answers ++ answers_alone d.decision_contexts d.product_version subjects)
        × (d'.applicable_policies
            ≡ d.applicable_policies
              ++ policies_alone d.decision_contexts d.product_version subjects)
  unfolding check_subjects
  check_subjects-added [] d d' e =
      let same : d ≡ d' = ground arith in
      subst
        (λ x. (x.answers ≡ d.answers ++ []) × (x.applicable_policies ≡ d.applicable_policies ++ []))
        same (sym (append-nil d.answers), sym (append-nil d.applicable_policies))
  check_subjects-added (s ∷ subjects) d d' e =
      let (d1, checked, e1) =
        bind-eq-ok (check services d s policies)
          (check_subjects services policies (map ok subjects)) e in
      let (applicable, added, alone) = check-AddedFor d d1 s checked in
      let rest = check_subjects-added subjects d1 d' e1 in
      let contexts = d.decision_contexts in
      let version = d.product_version in
      (
        rest.0
            ∙ ap (λ (c : List String). d1.answers ++ answers_alone c d1.product_version subjects)
                added.same_contexts
            ∙ ap (λ v. d1.answers ++ answers_alone contexts v subjects) added.same_version
            ∙ ap (λ (l : List Answer). l ++ answers_alone contexts version subjects)
                added.answers_added
            ∙ append_assoc d.answers added.alone.answers (answers_alone contexts version subjects)
            ∙ ap (λ m. d.answers ++ (answers_in m ++ answers_alone contexts version subjects))
                (sym alone),
        rest.1
            ∙ ap
                (λ (c : List String).
                  d1.applicable_policies ++ policies_alone c d1.product_version subjects)
                added.same_contexts
            ∙ ap (λ v. d1.applicable_policies ++ policies_alone contexts v subjects)
                added.same_version
            ∙ ap (λ (l : List Policy). l ++ policies_alone contexts version subjects)
                added.policies_added
            ∙ append_assoc d.applicable_policies added.alone.applicable_policies
                (policies_alone contexts version subjects)
            ∙ ap
                (λ m.
                  d.applicable_policies
                  ++ (policies_in m ++ policies_alone contexts version subjects))
                (sym alone),
      )

pub check_subjects-each :
    (services : Services) (policies : List Policy) (contexts : List String) (version : String)
    (verbose : Bool) (subjects : List Subject) (d' : Decision)
    → check_subjects services policies (map ok subjects) (new_decision contexts version verbose)
      ≡ ok d'
    → (d'.answers ≡ answers_alone services policies contexts version subjects)
      × (d'.applicable_policies ≡ policies_alone services policies contexts version subjects)
unfolding new_decision
check_subjects-each services policies contexts version verbose subjects d' e =
    check_subjects-added services policies subjects (new_decision contexts version verbose) d' e

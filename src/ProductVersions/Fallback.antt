-- ===== src/ProductVersions/Fallback.antt =====
-- What becomes of the failures of Koji.
use greenwave.Prelude.{
  String, ◌≡◌, refl, true, false, ◌&&◌, [], Option, none, some, truthy, ◌<>◌, inl, inr, Bool-cases,
}
use greenwave.Outcome.{Result, ok, raise, bad_gateway}
use greenwave.Json.{Json, truthy_json}
use greenwave.SafeYaml.{text_of}
use greenwave.Subject.{Subject}
use greenwave.Resources.Koji.{
  Koji, Reply, answered, fault, broken, value_of, retrieve_koji_build_task_id,
  retrieve_koji_build_attributes, retrieve_koji_build_target,
}
use greenwave.ProductVersions.{
  guessed_product_versions, Patterns, task_of, koji_product_versions,
  guess_koji_build_product_versions, short_versions, subject_product_versions,
}

-- Every call ends with a Fault.
abbrev IsFault {ℓ} : {A : Type ℓ} → Reply A → Type 0
IsFault (fault text code) = Unit
IsFault r = ⊥

abbrev pub Faulty : Koji → Type 0
Faulty koji =
    ((nvr : String) → IsFault (koji.get_build nvr))
    × ((id : Json) → IsFault (koji.get_task_request id))

-- The call raises BadGateway.
abbrev Fails {ℓ} : {A : Type ℓ} → Result A → Type ℓ
Fails m = (message : String) × (m ≡ raise (bad_gateway message))

value_of-Fails : (problem : String) (r : Reply Json) → IsFault r → Fails (value_of problem r)
value_of-Fails problem (fault text code) h = (_, refl)
value_of-Fails problem (answered v) h = absurd h
value_of-Fails problem (broken message) h = absurd h

task_of-Fails : (koji : Koji) (s : Subject) → Faulty koji → Fails (task_of koji s none)
unfolding task_of retrieve_koji_build_task_id retrieve_koji_build_attributes
task_of-Fails koji s h =
    let (message, e) =
      value_of-Fails ("Failed to get Koji build for \"" <> s.item <> "\"") (koji.get_build s.item)
        (h.0 s.item) in
    (message, rw e refl)

target-Fails : (koji : Koji) (id : Json) → Faulty koji → Fails (retrieve_koji_build_target koji id)
unfolding retrieve_koji_build_target
target-Fails koji id h =
    let (message, e) =
      value_of-Fails ("Failed to get Koji task request ID " <> text_of koji.formats id)
        (koji.get_task_request id) (h.1 id) in
    (message, rw e refl)

given_task :
    (koji : Koji) (id : Json) (s : Subject)
    → truthy_json id ≡ true
    → task_of koji s (some id) ≡ ok (some id)
unfolding task_of
given_task koji id s h = rw h refl

no_task :
    (koji : Koji) (id : Json) (s : Subject)
    → truthy_json id ≡ false
    → task_of koji s (some id) ≡ task_of koji s none
unfolding task_of
no_task koji id s h = rw h refl

koji_product_versions-Fails :
    (patterns : Patterns) (koji : Koji) (id : Option Json) (s : Subject)
    → Faulty koji
    → Fails (koji_product_versions patterns koji s id)
unfolding koji_product_versions
koji_product_versions-Fails patterns koji none s h =
    let (message, e) = task_of-Fails koji s h in (message, rw e refl)
koji_product_versions-Fails patterns koji (some id) s h = elim (Bool-cases (truthy_json id)) [
  | inl nonzero ↦
      let (message, e) = target-Fails koji id h in
      (message, rw (given_task koji id s nonzero, e) refl)
  | inr zero ↦
      let (message, e) = task_of-Fails koji s h in (message, rw (no_task koji id s zero, e) refl)
]

guess_koji-Faulty :
    (patterns : Patterns) (koji : Koji) (id : Option Json) (s : Subject)
    → Faulty koji
    → guess_koji_build_product_versions patterns koji s id ≡ ok []
unfolding guess_koji_build_product_versions
guess_koji-Faulty patterns koji id s h =
    let (message, e) = koji_product_versions-Fails patterns koji id s h in
    rw (e, guess_koji_build_product_versions) refl

guessed_product_versions-Faulty :
    (patterns : Patterns) (koji : Koji) (id : Option Json) (s : Subject)
    → Faulty koji
    → guessed_product_versions patterns (some koji) id s ≡ ok (short_versions s)
unfolding guessed_product_versions
guessed_product_versions-Faulty patterns koji id s h =
    let e = guess_koji-Faulty patterns koji id s h in
    elim (Bool-cases (truthy koji.url && s.subject_type.is_koji_build)) [
      | inl asked ↦ rw (asked, e) refl
      | inr unasked ↦ rw unasked refl
    ]

-- A Koji server that answers every call with a Fault counts as one that is not configured: the
-- versions come from the configuration and the identifier alone, and no exception is raised.
pub subject_product_versions-Faulty :
    (patterns : Patterns) (koji : Koji) (id : Option Json) (s : Subject)
    → Faulty koji
    → subject_product_versions patterns (some koji) id s
      ≡ subject_product_versions patterns none id s
unfolding subject_product_versions guessed_product_versions
subject_product_versions-Faulty patterns koji id s h =
    rw (guessed_product_versions-Faulty patterns koji id s h) refl

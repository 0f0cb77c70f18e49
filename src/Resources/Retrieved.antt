-- ===== src/Resources/Retrieved.antt =====
-- What the retrievers leave out of the answers of WaiverDB.
use greenwave.Prelude.{
  ◌≡◌, Bool, true, false, not, List, [], ◌∷◌, arith, elem, nat_eq, select, Bool-cases, inl, inr,
  All, subst,
}
use greenwave.Outcome.{ok, bind-eq-ok}
use greenwave.Waiver.{Waiver, WaiverFilter}
use greenwave.Policy.Services.{Config}
use greenwave.Resources.{Server, Retriever, retrieve_data, retrieve_waivers}

-- The waiver counts for the request.
abbrev pub InForce : Retriever → Waiver → Type 0
InForce r w = (w.waived ≡ true) × (elem w.id r.ignore_ids ≡ false)

-- What a comprehension keeps passes its test.
All-select {ℓ κ} :
    {A : Type ℓ} (P : A → Type κ) (p : A → Bool) (xs : List A)
    → All P xs
    → All (λ x. P x × (p x ≡ true)) (select p xs)
All-select P p [] h = tt
All-select P p (x ∷ xs) h = elim (Bool-cases (p x)) [
  | inl kept ↦ rw kept ((h.0, kept), All-select P p xs h.1)
  | inr dropped ↦ rw dropped (All-select P p xs h.1)
]

weaken-All {ℓ κ μ} :
    {A : Type ℓ} (P : A → Type κ) (Q : A → Type μ) (xs : List A)
    → ((x : A) → P x → Q x)
    → All P xs
    → All Q xs
weaken-All P Q [] f h = tt
weaken-All P Q (x ∷ xs) f h = (f x h.0, weaken-All P Q xs f h.1)

All-Unit {ℓ} : {A : Type ℓ} (xs : List A) → All (λ x. Unit {0}) xs
All-Unit [] = tt
All-Unit (x ∷ xs) = (tt, All-Unit xs)

in_force :
    (r : Retriever) (waivers : List Waiver)
    → All (InForce r) (select (λ w. not (elem w.id r.ignore_ids)) (select (λ w. w.waived) waivers))
in_force r waivers =
    let waived = select (λ w. w.waived) waivers in
    let kept = select (λ w. not (elem w.id r.ignore_ids)) waived in
    weaken-All (λ w. (Unit {0} × (w.waived ≡ true)) × (not (elem w.id r.ignore_ids) ≡ true))
      (InForce r) kept (λ w h. (h.0.1, ground arith))
      (All-select (λ w. Unit {0} × (w.waived ≡ true)) (λ w. not (elem w.id r.ignore_ids)) waived
        (All-select (λ w. Unit {0}) (λ w. w.waived) waivers (All-Unit waivers)))

-- The waivers that a retrieval returns are in force, and the request does not ignore them.
pub retrieve_waivers-InForce :
    (config : Config) (server : Server) (r : Retriever) (filters : List WaiverFilter)
    (waivers : List Waiver)
    → retrieve_waivers config server r filters ≡ ok waivers
    → All (InForce r) waivers
unfolding retrieve_waivers
retrieve_waivers-InForce config server r filters waivers e =
    let keep = λ (answered : List Waiver).
      select (λ w. not (elem w.id r.ignore_ids)) (select (λ w. w.waived) answered) in
    let (answered, got, same) =
      bind-eq-ok (retrieve_data (server.filtered r.since filters)) (λ answered. ok (keep answered))
        e in
    let equal : keep answered ≡ waivers = ground arith in
    subst (All (InForce r)) equal (in_force r answered)

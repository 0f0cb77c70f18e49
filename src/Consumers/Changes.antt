-- ===== src/Consumers/Changes.antt =====
-- What counts as a change of a decision.
use greenwave.Prelude.{
  String, ◌≡◌, Bool, true, false, not, ◌&&◌, List, [], ◌∷◌, some, ◌==◌, ==_iff, nat_eq, string_eq,
  arith, elem, all, select, inl, inr, length, All, Bool-cases, if◌then◌else◌,
}
use greenwave.Outcome.{ok, bind-eq-ok, ◌>>=◌}
use greenwave.Json.{Object, keys}
use greenwave.Consumers.{
  same_at, equals_except_keys, requirements, requirements_keys, all_equal, same_requirements,
  is_decision_unchanged,
}

all-elem :
    (p : String → Bool) (key : String) (ks : List String)
    → all p ks ≡ true
    → elem key ks ≡ true
    → p key ≡ true
all-elem p key [] h found = absurd (ground arith)
all-elem p key (k ∷ ks) h found = ground (arith, all-elem p key ks, ==_iff key k)

elem-select :
    (p : String → Bool) (key : String) (ks : List String)
    → elem key ks ≡ true
    → p key ≡ true
    → elem key (select p ks) ≡ true
elem-select p key [] found h = absurd (ground arith)
elem-select p key (k ∷ ks) found h = ground (arith, elem-select p key ks, ==_iff key k)

equals_except_keys-same_at :
    (lhs rhs : Object) (except_keys : List String) (key : String)
    → equals_except_keys lhs rhs except_keys ≡ true
    → elem key (keys lhs) ≡ true
    → elem key except_keys ≡ false
    → same_at lhs rhs key ≡ true
unfolding equals_except_keys
equals_except_keys-same_at lhs rhs except_keys key same found kept =
    all-elem (same_at lhs rhs) key (select (λ k. not (elem k except_keys)) (keys lhs))
      (ground arith)
      (elem-select (λ k. not (elem k except_keys)) key (keys lhs) found (ground arith))

pub is_decision_unchanged-same_at :
    (old new : Object) (key : String)
    → is_decision_unchanged (some old) (some new) ≡ ok true
    → elem key (keys old) ≡ true
    → elem key requirements_keys ≡ false
    → same_at old new key ≡ true
unfolding is_decision_unchanged
is_decision_unchanged-same_at old new key unchanged found kept =
    equals_except_keys-same_at old new requirements_keys key (ground arith) found kept

-- Two lists of as many requirements, each equal to the other's but for result_id.
abbrev pub AllEqual : List Object → List Object → Type 0
AllEqual [] [] = Unit
AllEqual (a ∷ olds) (b ∷ news) =
    (equals_except_keys a b ("result_id" ∷ []) ≡ true) × AllEqual olds news
AllEqual _ _ = ⊥

all_equal-AllEqual :
    (olds news : List Object)
    → ((length olds == length news) && all_equal olds news) ≡ true
    → AllEqual olds news
unfolding all_equal
all_equal-AllEqual [] [] h = tt
all_equal-AllEqual [] (b ∷ news) h = absurd (ground arith)
all_equal-AllEqual (a ∷ olds) [] h = absurd (ground arith)
all_equal-AllEqual (a ∷ olds) (b ∷ news) h =
    (ground arith, all_equal-AllEqual olds news (ground arith))

-- The requirements under a key of both decisions are such lists.
abbrev pub SameRequirements : Object → Object → String → Type 0
SameRequirements old new key =
    (olds : List Object) × (news : List Object) × (requirements key old ≡ ok olds)
    × (requirements key new ≡ ok news)
    × AllEqual olds news

same_requirements-SameRequirements :
    (ks : List String) (old new : Object)
    → same_requirements ks old new ≡ ok true
    → All (SameRequirements old new) ks
unfolding same_requirements
same_requirements-SameRequirements [] old new h = tt
same_requirements-SameRequirements (key ∷ ks) old new h =
    let later = same_requirements ks old new in
    let test = λ (olds news : List Object). (length olds == length news) && all_equal olds news in
    let (olds, before, h1) =
      bind-eq-ok (requirements key old)
        (λ olds. requirements key new >>= λ news. if test olds news then later else ok false) h in
    let (news, after, h2) =
      bind-eq-ok (requirements key new) (λ news. if test olds news then later else ok false) h1 in
    elim (Bool-cases (test olds news)) [
      | inl same ↦ (
        (olds, news, before, after, all_equal-AllEqual olds news same),
        same_requirements-SameRequirements ks old new (rw same at h2),
      )
      | inr other ↦ absurd (ground arith)
    ]

-- If two decisions count as unchanged, then the satisfied and the unsatisfied requirements are as
-- many in both, and equal one by one but for result_id.
pub is_decision_unchanged-SameRequirements :
    (old new : Object)
    → is_decision_unchanged (some old) (some new) ≡ ok true
    → All (SameRequirements old new) requirements_keys
unfolding is_decision_unchanged
is_decision_unchanged-SameRequirements old new unchanged =
    same_requirements-SameRequirements requirements_keys old new (ground arith)

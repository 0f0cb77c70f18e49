-- ===== src/Waiver/Laws.antt =====
-- What waiving does to a list of answers: which answers change, and that more waivers never block.
use greenwave.Prelude.{
  ◌≡◌, refl, sym, ◌∙◌, inl, inr, Bool, true, false, List, [], ◌∷◌, ◌++◌, none, arith, all, any,
  is_some, All, Option-cases, Bool-cases, any-append,
}
use greenwave.Answer.{RuleNotSatisfied, Answer, satisfied, unsatisfied, is_satisfied, to_waived}
use greenwave.Waiver.{Waiver, waiver_matches, find_waived_id, waive_answers}

-- No waiver of the list matches the answer.
abbrev pub Unwaived : List Waiver → Answer → Type 0
Unwaived waivers (satisfied a) = Unit
Unwaived waivers (unsatisfied a) = All (λ w. waiver_matches a w ≡ false) waivers

find_waived_id-none :
    (a : RuleNotSatisfied) (waivers : List Waiver)
    → find_waived_id a waivers ≡ none
    → All (λ w. waiver_matches a w ≡ false) waivers
unfolding find_waived_id
find_waived_id-none a [] h = tt
find_waived_id-none a (w ∷ rest) h = elim (Bool-cases (waiver_matches a w)) [
  | inl hit ↦ absurd (ground arith)
  | inr miss ↦ (miss, find_waived_id-none a rest (ground arith))
]

-- An unsatisfied answer that is left after waiving has no matching waiver.
pub waive_answers-Unwaived :
    (answers : List Answer) (waivers : List Waiver)
    → All (Unwaived waivers) (waive_answers answers waivers)
unfolding waive_answers to_waived
waive_answers-Unwaived [] waivers = tt
waive_answers-Unwaived (satisfied a ∷ rest) waivers = (tt, waive_answers-Unwaived rest waivers)
waive_answers-Unwaived (unsatisfied a ∷ rest) waivers =
    elim (Option-cases (find_waived_id a waivers)) [
      | inl missed ↦
          ground (
            arith,
            missed,
            find_waived_id-none a waivers missed,
            waive_answers-Unwaived rest waivers,
          )
      | inr (id, hit) ↦ ground (arith, hit, waive_answers-Unwaived rest waivers)
    ]

find_waived_id_of_Unwaived :
    (a : RuleNotSatisfied) (waivers : List Waiver)
    → All (λ w. waiver_matches a w ≡ false) waivers
    → find_waived_id a waivers ≡ none
unfolding find_waived_id
find_waived_id_of_Unwaived a [] h = refl
find_waived_id_of_Unwaived a (w ∷ rest) h = ground (arith, find_waived_id_of_Unwaived a rest h.1)

waive_answers_of_Unwaived :
    (answers : List Answer) (waivers : List Waiver)
    → All (Unwaived waivers) answers
    → waive_answers answers waivers ≡ answers
unfolding waive_answers
waive_answers_of_Unwaived [] waivers h = refl
waive_answers_of_Unwaived (satisfied a ∷ rest) waivers h =
    rw (waive_answers_of_Unwaived rest waivers h.1)
waive_answers_of_Unwaived (unsatisfied a ∷ rest) waivers h =
    ground
      (arith, find_waived_id_of_Unwaived a waivers h.0, waive_answers_of_Unwaived rest waivers h.1)

-- Waiving a second time with the same waivers changes nothing.
pub waive_answers_idempotent :
    (answers : List Answer) (waivers : List Waiver)
    → waive_answers (waive_answers answers waivers) waivers ≡ waive_answers answers waivers
waive_answers_idempotent answers waivers =
    waive_answers_of_Unwaived (waive_answers answers waivers) waivers
      (waive_answers-Unwaived answers waivers)

-- The answer is satisfied, or some waiver of the list matches it.
abbrev pub covered : List Waiver → Answer → Bool
covered waivers (satisfied a) = true
covered waivers (unsatisfied a) = any (waiver_matches a) waivers

is_some-find_waived_id :
    (a : RuleNotSatisfied) (waivers : List Waiver)
    → is_some (find_waived_id a waivers) ≡ any (waiver_matches a) waivers
unfolding find_waived_id
is_some-find_waived_id a [] = refl
is_some-find_waived_id a (w ∷ rest) = ground (arith, is_some-find_waived_id a rest)

-- After waiving every answer is satisfied exactly when each answer was satisfied before or has a
-- matching waiver.
pub all_satisfied_iff_covered :
    (answers : List Answer) (waivers : List Waiver)
    → all is_satisfied (waive_answers answers waivers) ≡ all (covered waivers) answers
unfolding waive_answers is_satisfied to_waived
all_satisfied_iff_covered [] waivers = refl
all_satisfied_iff_covered (satisfied a ∷ rest) waivers = all_satisfied_iff_covered rest waivers
all_satisfied_iff_covered (unsatisfied a ∷ rest) waivers =
    ground (arith, is_some-find_waived_id a waivers, all_satisfied_iff_covered rest waivers)

covered_more :
    (a : Answer) (waivers more : List Waiver)
    → covered waivers a ≡ true
    → covered (waivers ++ more) a ≡ true
covered_more (satisfied a) waivers more h = refl
covered_more (unsatisfied a) waivers more h =
    ground (arith, any-append (waiver_matches a) waivers more)

all-covered_more :
    (answers : List Answer) (waivers more : List Waiver)
    → all (covered waivers) answers ≡ true
    → all (covered (waivers ++ more)) answers ≡ true
all-covered_more [] waivers more h = refl
all-covered_more (a ∷ rest) waivers more h =
    ground (arith, covered_more a waivers more, all-covered_more rest waivers more)

-- If some waivers satisfy every answer, then so do these waivers and any others after them.
pub waive_answers_mono :
    (answers : List Answer) (waivers more : List Waiver)
    → all is_satisfied (waive_answers answers waivers) ≡ true
    → all is_satisfied (waive_answers answers (waivers ++ more)) ≡ true
waive_answers_mono answers waivers more h =
    all_satisfied_iff_covered answers (waivers ++ more)
    ∙ all-covered_more answers waivers more (sym (all_satisfied_iff_covered answers waivers) ∙ h)

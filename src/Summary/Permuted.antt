-- ===== src/Summary/Permuted.antt =====
-- The order of the answers does not show in a summary.
use mathlib.Core.Logic.{∥∥₁_elim}
use mathlib.Core.List.{Perm, Permᴰ}
use greenwave.Prelude.{
  ℕ, ◌+◌, String, ◌≡◌, refl, sym, ap, ◌∙◌, false, List, [], ◌∷◌, Dict, arith, ◌==◌, nat_eq,
  string_eq, ==_iff, is_empty, inl, inr, Bool-cases, String-set, string_order, text_leq_total,
  text_leq_trans, text_leq_antisymm, if◌then◌else◌,
}
use greenwave.Answer.{Answer, satisfied, unsatisfied, is_test_result}
use greenwave.Summary.{
  Summary, empty_summary, summary_text, satisfied_is_test, add_message, append, append_all,
  insert_item, sorted_items, messages, problems, to_text, summarize_answers,
}

-- `add_message` on a dictionary that is kept sorted.
bump : String → Dict String ℕ → Dict String ℕ
bump text [] = (text, 1) ∷ []
bump text ((t, n) ∷ msgs) =
    if t == text
    then (t, n + 1) ∷ msgs
    else if string_order.leq text t
    then (text, 1) ∷ (t, n) ∷ msgs
    else (t, n) ∷ bump text msgs

insert_item-bump_self :
    (text : String) (n : ℕ) (msgs : Dict String ℕ)
    → insert_item (text, n + 1) msgs ≡ bump text (insert_item (text, n) msgs)
unfolding bump
insert_item-bump_self text n [] = ground (arith, ==_iff text text)
insert_item-bump_self text n ((t, m) ∷ msgs) = ground (
  arith,
  ==_iff text text,
  ==_iff t text,
  text_leq_total t text,
  text_leq_total text text,
  insert_item-bump_self text n msgs,
)

insert_item-bump :
    (text x : String) (n : ℕ) (msgs : Dict String ℕ)
    → (x == text) ≡ false
    → insert_item (x, n) (bump text msgs) ≡ bump text (insert_item (x, n) msgs)
unfolding bump
insert_item-bump text x n [] h =
    ground (arith, ==_iff x text, text_leq_total text x, text_leq_antisymm text x)
insert_item-bump text x n ((t, m) ∷ msgs) h = ground (
  arith,
  ==_iff x text,
  ==_iff t text,
  text_leq_total text x,
  text_leq_total t x,
  text_leq_total t text,
  text_leq_antisymm text x,
  text_leq_trans text x t,
  text_leq_trans x text t,
  insert_item-bump text x n msgs,
)

bump-bump : (a b : String) (msgs : Dict String ℕ) → bump a (bump b msgs) ≡ bump b (bump a msgs)
unfolding bump
bump-bump a b [] = ground (arith, ==_iff a b, ==_iff b a, text_leq_total a b, text_leq_antisymm a b)
bump-bump a b ((t, m) ∷ msgs) = ground (
  arith,
  ==_iff a b,
  ==_iff b a,
  ==_iff t a,
  ==_iff t b,
  text_leq_total a b,
  text_leq_antisymm a b,
  text_leq_trans a b t,
  text_leq_trans b a t,
  bump-bump a b msgs,
)

sorted_items-add_message :
    (text : String) (msgs : Dict String ℕ)
    → sorted_items (add_message text msgs) ≡ bump text (sorted_items msgs)
unfolding sorted_items add_message bump
sorted_items-add_message text [] = refl
sorted_items-add_message text ((x, n) ∷ msgs) = elim (Bool-cases (x == text)) [
  | inl same ↦ rw (same, (==_iff x text).0 same) (insert_item-bump_self text n (sorted_items msgs))
  | inr other ↦
      rw (other, sorted_items, sorted_items-add_message text msgs)
        (insert_item-bump text x n (sorted_items msgs) other)
]

-- All that the text of a summary depends on.
record View : Type 0 where
  tests : Dict String ℕ
  others : Dict String ℕ
  count : ℕ

view : Summary → View
view s = record {
  tests = sorted_items s.test_msgs;
  others = sorted_items s.non_test_msgs;
  count = s.test_count;
}

step : View → Answer → View
step v (satisfied a) = if satisfied_is_test a then record v { count = v.count + 1 } else v
step v (unsatisfied a) =
    if is_test_result a
    then record v { tests = bump (summary_text a) v.tests; count = v.count + 1 }
    else record v { others = bump (summary_text a) v.others }

steps : View → List Answer → View
steps v [] = v
steps v (a ∷ rest) = steps (step v a) rest

view-append : (s : Summary) (a : Answer) → view (append s a) ≡ step (view s) a
unfolding view append step
view-append s (satisfied a) = ground arith
view-append s (unsatisfied a) = ground (
  arith,
  sorted_items-add_message (summary_text a) s.test_msgs,
  sorted_items-add_message (summary_text a) s.non_test_msgs,
)

view-append_all :
    (s : Summary) (answers : List Answer) → view (append_all s answers) ≡ steps (view s) answers
unfolding append_all steps
view-append_all s [] = refl
view-append_all s (a ∷ rest) =
    view-append_all (append s a) rest ∙ ap (λ v. steps v rest) (view-append s a)

step-step : (v : View) (a b : Answer) → step (step v a) b ≡ step (step v b) a
unfolding step
step-step v (satisfied a) (satisfied b) = ground arith
step-step v (satisfied a) (unsatisfied b) = ground arith
step-step v (unsatisfied a) (satisfied b) = ground arith
step-step v (unsatisfied a) (unsatisfied b) = ground (
  arith,
  bump-bump (summary_text a) (summary_text b) v.tests,
  bump-bump (summary_text a) (summary_text b) v.others,
)

steps-perm : {xs ys : List Answer} → Permᴰ xs ys → (v : View) → steps v xs ≡ steps v ys
unfolding steps
steps-perm Permᴰ.nil v = refl
steps-perm (Permᴰ.cons {a = a} {l₂ = ys} e p) v =
    steps-perm p (step v a) ∙ ap (λ x. steps (step v x) ys) e
steps-perm (Permᴰ.swap {a = a} {b = b} {l = rest} e e') v =
    ap (λ w. steps w rest) (step-step v a b) ∙ cc (e, e')
steps-perm (Permᴰ.trans p q) v = steps-perm p v ∙ steps-perm q v

is_empty-insert_item :
    (m : String × ℕ) (msgs : Dict String ℕ) → is_empty (insert_item m msgs) ≡ false
is_empty-insert_item m [] = refl
is_empty-insert_item m (x ∷ msgs) = ground arith

is_empty-sorted_items : (msgs : Dict String ℕ) → is_empty (sorted_items msgs) ≡ is_empty msgs
unfolding sorted_items
is_empty-sorted_items [] = refl
is_empty-sorted_items (m ∷ msgs) = is_empty-insert_item m (sorted_items msgs)

module _ (s s' : Summary) (same : view s ≡ view s') where
  same_tests : sorted_items s.test_msgs ≡ sorted_items s'.test_msgs
  unfolding view
  same_tests = ap (λ (v : View). v.tests) same

  same_others : sorted_items s.non_test_msgs ≡ sorted_items s'.non_test_msgs
  unfolding view
  same_others = ap (λ (v : View). v.others) same

  same_count : s.test_count ≡ s'.test_count
  unfolding view
  same_count = ap (λ (v : View). v.count) same

  problems_of_view : problems s ≡ problems s'
  unfolding problems messages
  problems_of_view = cc (
    same_tests,
    same_others,
    same_count,
    is_empty-sorted_items s.test_msgs,
    is_empty-sorted_items s'.test_msgs,
    is_empty-sorted_items s.non_test_msgs,
    is_empty-sorted_items s'.non_test_msgs,
  )

  to_text_of_view : to_text s ≡ to_text s'
  unfolding to_text
  to_text_of_view = cc (problems_of_view, same_count)

summarize_answers-permᴰ :
    {xs ys : List Answer} → Permᴰ xs ys → summarize_answers xs ≡ summarize_answers ys
unfolding summarize_answers
summarize_answers-permᴰ {xs} {ys} p =
    to_text_of_view (append_all empty_summary xs) (append_all empty_summary ys) (
      view-append_all empty_summary xs
      ∙ steps-perm p (view empty_summary)
      ∙ sym (view-append_all empty_summary ys))

-- Answers in another order have the same summary, to the letter.
pub summarize_answers-perm :
    (xs ys : List Answer) → Perm xs ys → summarize_answers xs ≡ summarize_answers ys
summarize_answers-perm xs ys p = ∥∥₁_elim p (String-set _ _) (λ q. summarize_answers-permᴰ q)

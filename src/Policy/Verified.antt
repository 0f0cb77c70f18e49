-- ===== src/Policy/Verified.antt =====
-- When two rules count as the same rule.
use greenwave.Prelude.{
  String, ◌≡◌, refl, ◌↔◌, true, List, [], ◌∷◌, Option, none, some, arith, string_eq, option_eq,
  ==_iff,
}
use greenwave.Json.{str_array, opt_str, json_eq, array_eq}
use greenwave.Policy.{Rule, remote_rule, passing_test_case_rule, rule_eq}

array_eq-str_array : (s t : List String) → (array_eq (str_array s) (str_array t) ≡ true) ↔ (s ≡ t)
unfolding json_eq
array_eq-str_array [] [] = ground arith
array_eq-str_array [] (y ∷ t) = ground arith
array_eq-str_array (x ∷ s) [] = ground arith
array_eq-str_array (x ∷ s) (y ∷ t) = ground (arith, ==_iff x y, array_eq-str_array s t)

json_eq-opt_str : (s t : Option String) → (json_eq (opt_str s) (opt_str t) ≡ true) ↔ (s ≡ t)
unfolding json_eq
json_eq-opt_str none none = ground arith
json_eq-opt_str none (some y) = ground arith
json_eq-opt_str (some x) none = ground arith
json_eq-opt_str (some x) (some y) = ground (arith, ==_iff x y)

-- What the equality of two rules looks at.
abbrev pub SameRule : Rule → Rule → Type 0
SameRule (remote_rule s r) (remote_rule s' r') = (s ≡ s') × (r ≡ r')
SameRule (passing_test_case_rule n c since until) (passing_test_case_rule n' c' since' until') =
    (n ≡ n') × (c ≡ c')
SameRule _ _ = ⊥

-- Two rules are equal exactly when they are of one class and agree on the sources and `required`,
-- or on the test case and the scenario; the validity times do not count.
pub rule_eq_iff : (r s : Rule) → (rule_eq r s ≡ true) ↔ SameRule r s
unfolding rule_eq
rule_eq_iff (remote_rule s r) (remote_rule s' r') = ground (arith, array_eq-str_array s s')
rule_eq_iff (remote_rule s r) (passing_test_case_rule n' c' since' until') = ground arith
rule_eq_iff (passing_test_case_rule n c since until) (remote_rule s' r') = ground arith
rule_eq_iff (passing_test_case_rule n c since until) (passing_test_case_rule n' c' since' until') =
    ground (arith, ==_iff n n', json_eq-opt_str c c')

SameRule-symm : (r s : Rule) → SameRule r s → SameRule s r
SameRule-symm (remote_rule s r) (remote_rule s' r') h = ground arith
SameRule-symm (passing_test_case_rule n c since until) (passing_test_case_rule n' c' since' until')
      h =
    ground arith
SameRule-symm (remote_rule s r) (passing_test_case_rule n' c' since' until') h = absurd h
SameRule-symm (passing_test_case_rule n c since until) (remote_rule s' r') h = absurd h

SameRule-trans : (r s t : Rule) → SameRule r s → SameRule s t → SameRule r t
SameRule-trans (remote_rule s r) (remote_rule s' r') (remote_rule s'' r'') h k = ground arith
SameRule-trans (passing_test_case_rule n c since until) (passing_test_case_rule n' c' since' until')
      (passing_test_case_rule n'' c'' since'' until'') h k =
    ground arith
SameRule-trans (remote_rule s r) (passing_test_case_rule n' c' since' until') t h k = absurd h
SameRule-trans (passing_test_case_rule n c since until) (remote_rule s' r') t h k = absurd h
SameRule-trans (remote_rule s r) (remote_rule s' r') (passing_test_case_rule n c since until) h k =
    absurd k
SameRule-trans (passing_test_case_rule n c since until) (passing_test_case_rule n' c' since' until')
      (remote_rule s r) h k =
    absurd k

pub SameRule-refl : (r : Rule) → SameRule r r
SameRule-refl (remote_rule s r) = (refl, refl)
SameRule-refl (passing_test_case_rule n c since until) = (refl, refl)

pub rule_eq_refl : (r : Rule) → rule_eq r r ≡ true
rule_eq_refl r = (rule_eq_iff r r).1 (SameRule-refl r)

pub rule_eq_of_SameRule : (r s x : Rule) → SameRule r s → rule_eq r x ≡ true → rule_eq s x ≡ true
rule_eq_of_SameRule r s x same h =
    (rule_eq_iff s x).1 (SameRule-trans s r x (SameRule-symm r s same) ((rule_eq_iff r x).0 h))

-- `==` of rules does not depend on the side.
pub rule_eq_comm : (r s : Rule) → rule_eq r s ≡ true → rule_eq s r ≡ true
rule_eq_comm r s h = (rule_eq_iff s r).1 (SameRule-symm r s ((rule_eq_iff r s).0 h))

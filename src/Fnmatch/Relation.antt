-- ===== src/Fnmatch/Relation.antt =====
-- What the tokens of a pattern stand for, as a relation that `matches` decides.
use greenwave.Prelude.{
  ℕ, ◌≡◌, refl, subst, sym, ap, inl, inr, Bool, true, List, [], ◌∷◌, ◌++◌, arith, nat_eq, ==_iff,
  Bool-cases,
}
use greenwave.Fnmatch.{Token, star, any_char, lit, one_of, in_class, matches}

pub data Matches : List Token → List ℕ → Type 0 where
  done : Matches [] []
  -- `*` stands for any text, the empty one too.
  text_of_star :
      {ts : List Token} {s : List ℕ} (before rest : List ℕ)
      → s ≡ before ++ rest
      → Matches ts rest
      → Matches (star ∷ ts) s
  any_one : {ts : List Token} {s : List ℕ} (c : ℕ) → Matches ts s → Matches (any_char ∷ ts) (c ∷ s)
  same_one :
      {ts : List Token} {s : List ℕ} (c d : ℕ) → c ≡ d → Matches ts s → Matches (lit d ∷ ts) (c ∷ s)
  listed_one :
      {ts : List Token} {s : List ℕ} (c : ℕ) (negated : Bool) (ranges : List (ℕ × ℕ))
      → in_class c negated ranges ≡ true
      → Matches ts s
      → Matches (one_of negated ranges ∷ ts) (c ∷ s)

star-cons :
    {ts : List Token} {s : List ℕ} (c : ℕ) → Matches (star ∷ ts) s → Matches (star ∷ ts) (c ∷ s)
star-cons c (text_of_star before rest e m) = text_of_star (c ∷ before) rest (ap (◌∷◌ c) e) m

pub matches→Matches : (ts : List Token) (s : List ℕ) → matches ts s ≡ true → Matches ts s
unfolding matches
matches→Matches [] [] h = done
matches→Matches [] (c ∷ s) h = absurd (ground arith)
matches→Matches (star ∷ ts) [] h = text_of_star [] [] refl (matches→Matches ts [] h)
matches→Matches (star ∷ ts) (c ∷ s) h = elim (Bool-cases (matches ts (c ∷ s))) [
  | inl now ↦ text_of_star [] (c ∷ s) refl (matches→Matches ts (c ∷ s) now)
  | inr later ↦ star-cons c (matches→Matches (star ∷ ts) s (ground arith))
]
matches→Matches (any_char ∷ ts) [] h = absurd (ground arith)
matches→Matches (any_char ∷ ts) (c ∷ s) h = any_one c (matches→Matches ts s h)
matches→Matches (lit d ∷ ts) [] h = absurd (ground arith)
matches→Matches (lit d ∷ ts) (c ∷ s) h =
    same_one c d (ground (arith, ==_iff c d)) (matches→Matches ts s (ground arith))
matches→Matches (one_of negated ranges ∷ ts) [] h = absurd (ground arith)
matches→Matches (one_of negated ranges ∷ ts) (c ∷ s) h =
    listed_one c negated ranges (ground arith) (matches→Matches ts s (ground arith))

matches_star :
    (ts : List Token) (before rest : List ℕ)
    → matches ts rest ≡ true
    → matches (star ∷ ts) (before ++ rest) ≡ true
unfolding matches
matches_star ts [] [] h = h
matches_star ts [] (c ∷ rest) h = ground arith
matches_star ts (c ∷ before) rest h = ground (arith, matches_star ts before rest h)

pub Matches→matches : {ts : List Token} {s : List ℕ} → Matches ts s → matches ts s ≡ true
unfolding matches
Matches→matches done = refl
Matches→matches (text_of_star {ts = ts} before rest e m) =
    subst (λ s. matches (star ∷ ts) s ≡ true) (sym e)
      (matches_star ts before rest (Matches→matches m))
Matches→matches (any_one c m) = Matches→matches m
Matches→matches (same_one c d e m) = ground (arith, ==_iff c d, Matches→matches m)
Matches→matches (listed_one c negated ranges h m) = ground (arith, Matches→matches m)

-- ===== src/Prelude/Sorting.antt =====
-- The order of texts and of pairs, and `sorted`.
use Prim.Native.Char.{code}
use Prim.Native.String.{String}
use mathlib.Core.Path.{◌≡◌, refl}
use mathlib.Core.Bool.{Bool, true, false, ◌&&◌, ◌||◌}
use mathlib.Core.Logic.{inl, inr}
use mathlib.Core.List.{List, [], ◌∷◌}
use native.Mathlib.Omega.{arith}
use text.Mathlib.TextEquality.{Char-path}
use greenwave.Prelude.Tests.{ltb, nat_beq, if◌then◌else◌, Bool-cases}
use greenwave.Prelude.Equality.{Eq, ◌==◌, ==_iff, string_eq}
use greenwave.Prelude.Lists.{All, elem}

-- `a <= b`, a total order.
pub record Order {ℓ} (A : Type ℓ) : Type ℓ where
  pub leq : A → A → Bool
  pub leq_total : (a b : A) → (leq a b || leq b a) ≡ true
  pub leq_trans : (a b c : A) → leq a b ≡ true → leq b c ≡ true → leq a c ≡ true
  pub leq_antisymm : (a b : A) → leq a b ≡ true → leq b a ≡ true → a ≡ b

-- Texts are compared by their code points.
abbrev text_leq : String → String → Bool
text_leq String.[] t = true
text_leq (String.◌∷◌ c s) String.[] = false
text_leq (String.◌∷◌ c s) (String.◌∷◌ d t) =
    ltb (code c) (code d) || (nat_beq (code c) (code d) && text_leq s t)

pub text_leq_total : (s t : String) → (text_leq s t || text_leq t s) ≡ true
text_leq_total String.[] t = refl
text_leq_total (String.◌∷◌ c s) String.[] = refl
text_leq_total (String.◌∷◌ c s) (String.◌∷◌ d t) = ground (arith, text_leq_total s t)

pub text_leq_trans :
    (s t u : String) → text_leq s t ≡ true → text_leq t u ≡ true → text_leq s u ≡ true
text_leq_trans String.[] t u p q = refl
text_leq_trans (String.◌∷◌ c s) String.[] u p q = absurd (ground arith)
text_leq_trans (String.◌∷◌ c s) (String.◌∷◌ d t) String.[] p q = absurd (ground arith)
text_leq_trans (String.◌∷◌ c s) (String.◌∷◌ d t) (String.◌∷◌ e u) p q =
    ground (arith, text_leq_trans s t u)

pub text_leq_antisymm : (s t : String) → text_leq s t ≡ true → text_leq t s ≡ true → s ≡ t
text_leq_antisymm String.[] String.[] p q = refl
text_leq_antisymm String.[] (String.◌∷◌ d t) p q = absurd (ground arith)
text_leq_antisymm (String.◌∷◌ c s) String.[] p q = absurd (ground arith)
text_leq_antisymm (String.◌∷◌ c s) (String.◌∷◌ d t) p q =
    let same : code c ≡ code d = ground arith in
    let rest : s ≡ t = text_leq_antisymm s t (ground arith) (ground arith) in
    cc (Char-path c d same, rest)

instance abbrev pub string_order : Order String
string_order = record {
  leq = text_leq;
  leq_total = text_leq_total;
  leq_trans = text_leq_trans;
  leq_antisymm = text_leq_antisymm;
}

-- Tuples of texts are compared by the first text, then by the second.
abbrev pair_leq : String × String → String × String → Bool
pair_leq p q = if p.0 == q.0 then text_leq p.1 q.1 else text_leq p.0 q.0

pub pair_leq_total : (p q : String × String) → (pair_leq p q || pair_leq q p) ≡ true
pair_leq_total (a, b) (c, d) =
    ground (arith, text_leq_total a c, text_leq_total b d, ==_iff a c, ==_iff c a)

pub pair_leq_trans :
    (p q r : String × String) → pair_leq p q ≡ true → pair_leq q r ≡ true → pair_leq p r ≡ true
pair_leq_trans (a, b) (c, d) (e, f) h k = ground (
  arith,
  text_leq_trans a c e,
  text_leq_trans b d f,
  text_leq_antisymm a c,
  ==_iff a c,
  ==_iff c e,
  ==_iff a e,
)

pub pair_leq_antisymm : (p q : String × String) → pair_leq p q ≡ true → pair_leq q p ≡ true → p ≡ q
pair_leq_antisymm (a, b) (c, d) h k =
    ground (arith, text_leq_antisymm a c, text_leq_antisymm b d, ==_iff a c, ==_iff c a)

instance abbrev pub pair_order : Order (String × String)
pair_order = record {
  leq = pair_leq;
  leq_total = pair_leq_total;
  leq_trans = pair_leq_trans;
  leq_antisymm = pair_leq_antisymm;
}

module _ {ℓ} {A : Type ℓ} ⦃o : Order A⦄ where
  -- Insertion into a sorted list.
  unfoldable pub insert_sorted : A → List A → List A
  insert_sorted a [] = a ∷ []
  insert_sorted a (x ∷ xs) = if o.leq a x then a ∷ x ∷ xs else x ∷ insert_sorted a xs

  -- `sorted(xs)`
  unfoldable pub sort : List A → List A
  unfolding insert_sorted
  sort [] = []
  sort (x ∷ xs) = insert_sorted x (sort xs)

  abbrev pub Ascending : List A → Type 0
  Ascending [] = Unit
  Ascending (x ∷ xs) = All (λ y. o.leq x y ≡ true) xs × Ascending xs

  All-insert_sorted :
      (p : A) (a : A) (xs : List A)
      → o.leq p a ≡ true
      → All (λ y. o.leq p y ≡ true) xs
      → All (λ y. o.leq p y ≡ true) (insert_sorted a xs)
  unfolding insert_sorted
  All-insert_sorted p a [] h hs = (h, tt)
  All-insert_sorted p a (x ∷ xs) h hs = elim (Bool-cases (o.leq a x)) [
    | inl le ↦ rw le (h, hs)
    | inr gt ↦ rw gt (hs.0, All-insert_sorted p a xs h hs.1)
  ]

  All-leq_trans :
      (a x : A) (xs : List A)
      → o.leq a x ≡ true
      → All (λ y. o.leq x y ≡ true) xs
      → All (λ y. o.leq a y ≡ true) xs
  All-leq_trans a x [] h hs = tt
  All-leq_trans a x (y ∷ ys) h hs = (o.leq_trans a x y h hs.0, All-leq_trans a x ys h hs.1)

  insert_sorted-Ascending : (a : A) (xs : List A) → Ascending xs → Ascending (insert_sorted a xs)
  unfolding insert_sorted
  insert_sorted-Ascending a [] h = (tt, tt)
  insert_sorted-Ascending a (x ∷ xs) h = elim (Bool-cases (o.leq a x)) [
    | inl le ↦ rw le ((le, All-leq_trans a x xs le h.0), h)
    | inr gt ↦ rw gt (
      All-insert_sorted x a xs (ground (arith, o.leq_total a x)) h.0,
      insert_sorted-Ascending a xs h.1,
    )
  ]

  pub sort-Ascending : (xs : List A) → Ascending (sort xs)
  unfolding sort
  sort-Ascending [] = tt
  sort-Ascending (x ∷ xs) = insert_sorted-Ascending x (sort xs) (sort-Ascending xs)

  -- The order of two insertions does not count, so neither does that of the items of `sorted`.
  pub insert_sorted-insert_sorted :
      (a b : A) (xs : List A)
      → insert_sorted a (insert_sorted b xs) ≡ insert_sorted b (insert_sorted a xs)
  unfolding insert_sorted
  insert_sorted-insert_sorted a b [] = ground (arith, o.leq_total a b, o.leq_antisymm a b)
  insert_sorted-insert_sorted a b (x ∷ xs) = ground (
    arith,
    o.leq_total a b,
    o.leq_antisymm a b,
    o.leq_total a x,
    o.leq_total b x,
    o.leq_trans a b x,
    o.leq_trans b a x,
    insert_sorted-insert_sorted a b xs,
  )

module _ {ℓ} {A : Type ℓ} ⦃e : Eq A⦄ ⦃o : Order A⦄ where
  pub elem-insert_sorted :
      (c a : A) (xs : List A) → elem c (insert_sorted a xs) ≡ ((c == a) || elem c xs)
  unfolding insert_sorted
  elem-insert_sorted c a [] = refl
  elem-insert_sorted c a (x ∷ xs) = ground (arith, elem-insert_sorted c a xs)

  -- `sorted` keeps what its argument holds.
  pub elem-sort : (c : A) (xs : List A) → elem c (sort xs) ≡ elem c xs
  unfolding sort
  elem-sort c [] = refl
  elem-sort c (x ∷ xs) = ground (arith, elem-insert_sorted c x (sort xs), elem-sort c xs)

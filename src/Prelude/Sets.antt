-- ===== src/Prelude/Sets.antt =====
-- Sets, as lists without repeats.
use mathlib.Core.Path.{◌≡◌, refl}
use mathlib.Core.Bool.{false}
use mathlib.Core.Logic.{inl, inr}
use mathlib.Core.List.{List, [], ◌∷◌}
use native.Mathlib.Omega.{arith}
use greenwave.Prelude.Tests.{if◌then◌else◌, Bool-cases}
use greenwave.Prelude.Equality.{Eq, ==_iff}
use greenwave.Prelude.Lists.{elem}
use greenwave.Prelude.Sorting.{Order, insert_sorted, sort, elem-insert_sorted, elem-sort}

module _ {ℓ} {A : Type ℓ} ⦃e : Eq A⦄ where
  -- `set(xs)`, as a list without repeats
  unfoldable pub unique : List A → List A
  unique [] = []
  unique (x ∷ xs) = let rest = unique xs in if elem x xs then rest else x ∷ rest

  pub elem-unique : (x : A) (xs : List A) → elem x (unique xs) ≡ elem x xs
  unfolding unique
  elem-unique x [] = refl
  elem-unique x (y ∷ ys) = ground (arith, elem-unique x ys, ==_iff {A = A} x y)

  -- No pair stands twice.
  abbrev pub NoRepeats : List A → Type 0
  NoRepeats [] = Unit
  NoRepeats (x ∷ xs) = (elem x xs ≡ false) × NoRepeats xs

  pub unique-NoRepeats : (xs : List A) → NoRepeats (unique xs)
  unfolding unique
  unique-NoRepeats [] = tt
  unique-NoRepeats (x ∷ xs) = elim (Bool-cases (elem x xs)) [
    | inl found ↦ rw found (unique-NoRepeats xs)
    | inr new ↦ rw new (ground (arith, elem-unique x xs), unique-NoRepeats xs)
  ]

module _ {ℓ} {A : Type ℓ} ⦃e : Eq A⦄ ⦃o : Order A⦄ where
  insert_sorted-NoRepeats :
      (a : A) (xs : List A) → elem a xs ≡ false → NoRepeats xs → NoRepeats (insert_sorted a xs)
  unfolding insert_sorted
  insert_sorted-NoRepeats a [] new h = (refl, tt)
  insert_sorted-NoRepeats a (x ∷ xs) new h = elim (Bool-cases (o.leq a x)) [
    | inl le ↦ rw le (new, h)
    | inr gt ↦ rw gt (
      ground (arith, elem-insert_sorted x a xs, ==_iff {A = A} a x, ==_iff {A = A} x a, h.0),
      insert_sorted-NoRepeats a xs (ground arith) h.1,
    )
  ]

  pub sort-NoRepeats : (xs : List A) → NoRepeats xs → NoRepeats (sort xs)
  unfolding sort
  sort-NoRepeats [] h = tt
  sort-NoRepeats (x ∷ xs) h =
      insert_sorted-NoRepeats x (sort xs) (ground (arith, elem-sort x xs)) (sort-NoRepeats xs h.1)

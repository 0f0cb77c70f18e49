-- ===== src/ProductVersions/Number.antt =====
-- The number behind the name of a product.
use Prim.Native.Char.{Char, code}
use text.Mathlib.TextLemmas.{nil-append, cons-append}
use greenwave.Prelude.{
  String, ◌≡◌, refl, true, false, [], ◌∷◌, arith, ◌==◌, ==_iff, nat_eq, string_eq, truthy, ◌<>◌,
}
use greenwave.Decimal.{Digits, is_digit, read}
use greenwave.ProductVersions.{split_digits, split_dashes, product_version_number_or_none}

-- Neither digits nor dashes.
abbrev pub Plain : String → Type 0
Plain String.[] = Unit
Plain (String.◌∷◌ c s) = (is_digit c ≡ false) × ((code c == b'-') ≡ false) × Plain s

split_digits-Digits :
    (c : Char) (s : String)
    → Digits (String.◌∷◌ c s)
    → split_digits (String.◌∷◌ c s) ≡ "" ∷ String.◌∷◌ c s ∷ "" ∷ []
unfolding split_digits
split_digits-Digits c String.[] h = rw h.0 refl
split_digits-Digits c (String.◌∷◌ d s) h = rw (h.0, split_digits-Digits d s h.1) refl

split_digits-Plain :
    (p : String) (c : Char) (s : String)
    → Plain p
    → Digits (String.◌∷◌ c s)
    → split_digits (p <> String.◌∷◌ c s) ≡ p ∷ String.◌∷◌ c s ∷ "" ∷ []
unfolding split_digits
split_digits-Plain String.[] c s hp hs = rw (nil-append, split_digits-Digits c s hs) refl
split_digits-Plain (String.◌∷◌ d p) c s hp hs =
    rw (cons-append, split_digits) (rw (hp.0, split_digits-Plain p c s hp.2 hs) refl)

-- Digits are no dashes.
is_digit-dash : (c : Char) → is_digit c ≡ true → (code c == b'-') ≡ false
unfolding is_digit
is_digit-dash c h = ground (arith, ==_iff (code c) b'-')

split_dashes-Digits : (s : String) → Digits s → split_dashes (s <> "-") ≡ s ∷ "" ∷ []
unfolding split_dashes
split_dashes-Digits String.[] h = refl
split_dashes-Digits (String.◌∷◌ c s) h =
    rw (cons-append, split_dashes) (rw (is_digit-dash c h.0, split_dashes-Digits s h.1) refl)

split_dashes-Plain :
    (p s : String) → Plain p → Digits s → split_dashes (p <> "-" <> s <> "-") ≡ p ∷ s ∷ "" ∷ []
unfolding split_dashes
split_dashes-Plain String.[] s hp hs =
    rw (nil-append, cons-append, nil-append) (rw (split_dashes-Digits s hs) refl)
split_dashes-Plain (String.◌∷◌ c p) s hp hs =
    rw (cons-append c p ("-" <> s <> "-"), split_dashes)
      (rw (hp.1, split_dashes-Plain p s hp.2 hs) refl)

-- Behind a name without digits and dashes, all digits that follow are the number.
pub product_version_number_or_none-append :
    (p s : String)
    → Plain p
    → truthy p ≡ true
    → Digits s
    → truthy s ≡ true
    → product_version_number_or_none (p <> s) ≡ read s
unfolding product_version_number_or_none
product_version_number_or_none-append p String.[] hp named hs given = absurd (ground arith)
product_version_number_or_none-append p (String.◌∷◌ c s) hp named hs given =
    rw (split_digits-Plain p c s hp hs, split_dashes-Plain p (String.◌∷◌ c s) hp hs, named, given)
      refl

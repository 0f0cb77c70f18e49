-- ===== src/ProductVersions/Guessed.antt =====
-- Which product versions are guessed.
use Prim.Native.Char.{Char, code}
use text.Mathlib.TextLemmas.{nil-append, cons-append}
use greenwave.Prelude.{
  ℕ, ◌<◌, String, ◌≡◌, ◌≢◌, refl, ap, ◌⊎◌, inl, inr, Bool, true, false, ◌&&◌, ◌||◌, List, [], ◌∷◌,
  Option, none, some, arith, ◌==◌, ==_iff, nat_eq, string_eq, elem, truthy, ◌<>◌, if◌then◌else◌,
  Bool-cases,
}
use greenwave.Decimal.{show, Digits, is_digit, show-truthy, show-Digits, read-show}
use greenwave.ProductVersions.{
  product_version_number_or_none, product_of, has_prefix, has_digit_after, numbered,
  guess_product_versions,
}
use greenwave.ProductVersions.Number.{product_version_number_or_none-append, Plain}

-- No version, rawhide, or a product with a positive number.
abbrev pub Guess : List String → Type 0
Guess versions =
    (versions ≡ [])
    ⊎ (versions ≡ "fedora-rawhide" ∷ [])
    ⊎ ((product : String) × (n : ℕ) × (elem product ("fedora-" ∷ "epel-" ∷ "rhel-" ∷ []) ≡ true)
        × (0 < n)
        × (versions ≡ (product <> show n) ∷ []))

-- Empty, or one of the products.
abbrev Known : String → Type 0
Known product = ((product == "") || elem product ("fedora-" ∷ "epel-" ∷ "rhel-" ∷ [])) ≡ true

Known-if : (b : Bool) (s t : String) → Known s → Known t → Known (if b then s else t)
Known-if true s t hs ht = hs
Known-if false s t hs ht = ht

product_of-Known : (text : String) (koji_build : Bool) → Known (product_of text koji_build)
unfolding product_of
product_of-Known text koji_build = Known-if (has_prefix "f" text && koji_build) "fedora-" _ refl (
    Known-if (has_prefix "epel" text) "epel-" _ refl (
      Known-if (has_digit_after "el" text) "rhel-" _ refl (
        Known-if (has_digit_after "rhel-" text) "rhel-" _ refl
          (Known-if (has_prefix "fc" text || has_prefix "Fedora" text) "fedora-" "" refl refl))))

numbered-Guess :
    (product : String) (number : Option ℕ)
    → elem product ("fedora-" ∷ "epel-" ∷ "rhel-" ∷ []) ≡ true
    → Guess (numbered product number)
numbered-Guess product none known = inl refl
numbered-Guess product (some n) known = elim (Bool-cases (n == 0)) [
  | inl zero ↦ inl (rw zero refl)
  | inr positive ↦ inr (inr (product, n, known, ground (arith, ==_iff n 0), rw positive refl))
]

-- At most one version is guessed: "fedora-rawhide", or "fedora-", "epel-" or "rhel-" and a positive
-- number.
pub guess_product_versions-Guess :
    (text : String) (koji_build : Bool) → Guess (guess_product_versions text koji_build)
unfolding guess_product_versions
guess_product_versions-Guess text koji_build =
    elim (Bool-cases ((text == "rawhide") || has_prefix "Fedora-Rawhide" text)) [
      | inl rawhide ↦ rw rawhide (inr (inl refl))
      | inr numbered ↦ elim (Bool-cases (product_of text koji_build == "")) [
        | inl unknown ↦ rw (numbered, unknown) (inl refl)
        | inr known ↦
            rw (numbered, known)
              (numbered-Guess (product_of text koji_build) (product_version_number_or_none text)
                (ground (arith, product_of-Known text koji_build)))
      ]
    ]

guess_product_versions-numbered :
    (p product : String) (n : ℕ) (koji_build : Bool)
    → Plain p
    → truthy p ≡ true
    → 0 < n
    → ((p <> show n == "rawhide") || has_prefix "Fedora-Rawhide" (p <> show n)) ≡ false
    → product_of (p <> show n) koji_build ≡ product
    → truthy product ≡ true
    → guess_product_versions (p <> show n) koji_build ≡ (product <> show n) ∷ []
unfolding guess_product_versions
guess_product_versions-numbered p product n koji_build hp named positive other found there =
    let unknown : (product == "") ≡ false = ground arith in
    let counted : (n == 0) ≡ false = ground (arith, ==_iff n 0) in
    let number : product_version_number_or_none (p <> show n) ≡ some n =
      rw (product_version_number_or_none-append p (show n) hp named (show-Digits n) (show-truthy n))
        (read-show n) in
    rw (other, found, unknown, number, counted) refl

-- The code of the first character.
abbrev first_code : String → ℕ
first_code String.[] = 0
first_code (String.◌∷◌ c s) = code c

differ_first : (s t : String) → first_code s ≢ first_code t → (s == t) ≡ false
differ_first s t h = elim (Bool-cases (s == t)) [
  | inr differs ↦ differs
  | inl same ↦ let equal : s ≡ t = ground (arith, ==_iff s t) in absurd (h (ap first_code equal))
]

has_digit_after-Digits : (s : String) → Digits s → truthy s ≡ true → has_digit_after "" s ≡ true
unfolding has_digit_after
has_digit_after-Digits String.[] h there = absurd (ground arith)
has_digit_after-Digits (String.◌∷◌ c s) h there = h.0

-- Where a name, its product and the code of its first character are these, no other rule applies.
guess-show :
    (p product : String) (n : ℕ) (koji_build : Bool) (c : Char) (s : String)
    → p <> show n ≡ String.◌∷◌ c s
    → code c ≢ b'r'
    → has_prefix "Fedora-Rawhide" (String.◌∷◌ c s) ≡ false
    → Plain p
    → truthy p ≡ true
    → 0 < n
    → product_of (String.◌∷◌ c s) koji_build ≡ product
    → truthy product ≡ true
    → guess_product_versions (p <> show n) koji_build ≡ (product <> show n) ∷ []
guess-show p product n koji_build c s whole first other hp named positive found there =
    let different : (String.◌∷◌ c s == "rawhide") ≡ false =
      differ_first (String.◌∷◌ c s) "rawhide" first in
    guess_product_versions-numbered p product n koji_build hp named positive
      (rw whole (rw (different, other) refl)) (rw whole found) there

-- The names that releases have: "el" and a positive number is that version of RHEL, "epel" and a
-- number is that of EPEL, "fc" and a number is that of Fedora, and so is "f" and a number in the target
-- of a Koji build. The number keeps all its digits.
pub guess_product_versions-show :
    (n : ℕ)
    → 0 < n
    → (guess_product_versions ("el" <> show n) false ≡ ("rhel-" <> show n) ∷ [])
      × (guess_product_versions ("epel" <> show n) false ≡ ("epel-" <> show n) ∷ [])
      × (guess_product_versions ("fc" <> show n) false ≡ ("fedora-" <> show n) ∷ [])
      × (guess_product_versions ("f" <> show n) true ≡ ("fedora-" <> show n) ∷ [])
unfolding product_of has_prefix has_digit_after is_digit
guess_product_versions-show n positive =
    let digit : has_digit_after "" (show n) ≡ true =
      has_digit_after-Digits (show n) (show-Digits n) (show-truthy n) in
    (
      guess-show "el" "rhel-" n false "e" (String.◌∷◌ "l" (show n))
          (rw (cons-append, cons-append, nil-append) refl) (omega arith) refl
          (refl, refl, (refl, refl, tt)) refl positive (rw digit refl) refl,
      guess-show "epel" "epel-" n false "e"
          (String.◌∷◌ "p" (String.◌∷◌ "e" (String.◌∷◌ "l" (show n))))
          (rw (cons-append, cons-append, cons-append, cons-append, nil-append) refl) (omega arith)
          refl (refl, refl, (refl, refl, (refl, refl, (refl, refl, tt)))) refl positive refl refl,
      guess-show "fc" "fedora-" n false "f" (String.◌∷◌ "c" (show n))
          (rw (cons-append, cons-append, nil-append) refl) (omega arith) refl
          (refl, refl, (refl, refl, tt)) refl positive refl refl,
      guess-show "f" "fedora-" n true "f" (show n) (rw (cons-append, nil-append) refl) (omega arith)
          refl (refl, refl, tt) refl positive refl refl,
    )

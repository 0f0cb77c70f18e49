-- ===== src/Policy/Versions.antt =====
-- Which product versions a policy is for (`Policy.matches_product_version`).
use greenwave.Prelude.{
  String, ◌≡◌, ◌↔◌, ◌⊎◌, inl, inr, true, List, [], ◌∷◌, arith, All, any, Bool-cases,
}
use greenwave.Fnmatch.{codes, fnmatch}
use greenwave.Fnmatch.Text.{Means, no_bracket, fnmatch-Means}
use greenwave.Policy.{Policy, matches_product_version}

abbrev pub HasNoBracket : String → Type 0
HasNoBracket pattern = no_bracket (codes pattern) ≡ true

-- One of the patterns stands for the version.
abbrev pub IsMeant : String → List String → Type 0
IsMeant version [] = ⊥
IsMeant version (pattern ∷ patterns) =
    Means (codes pattern) (codes version) ⊎ IsMeant version patterns

any→IsMeant :
    (version : String) (patterns : List String)
    → All HasNoBracket patterns
    → any (fnmatch version) patterns ≡ true
    → IsMeant version patterns
any→IsMeant version [] h e = absurd (ground arith)
any→IsMeant version (pattern ∷ patterns) h e = elim (Bool-cases (fnmatch version pattern)) [
  | inl matched ↦ inl ((fnmatch-Means version pattern h.0).0 matched)
  | inr other ↦ inr (any→IsMeant version patterns h.1 (ground arith))
]

IsMeant→any :
    (version : String) (patterns : List String)
    → All HasNoBracket patterns
    → IsMeant version patterns
    → any (fnmatch version) patterns ≡ true
IsMeant→any version [] h m = absurd m
IsMeant→any version (pattern ∷ patterns) h (inl meant) =
    ground (arith, (fnmatch-Means version pattern h.0).1 meant)
IsMeant→any version (pattern ∷ patterns) h (inr later) =
    ground (arith, IsMeant→any version patterns h.1 later)

-- A policy is for a product version exactly when one of its patterns can be read as the version: `*` as any
-- text, `?` as any one character, and each other character as itself. This is so where no pattern
-- has a `[`.
pub matches_product_version_iff :
    (p : Policy) (version : String)
    → All HasNoBracket p.product_versions
    → (matches_product_version p version ≡ true) ↔ IsMeant version p.product_versions
unfolding matches_product_version
matches_product_version_iff p version h =
    (any→IsMeant version p.product_versions h, IsMeant→any version p.product_versions h)

-- ===== src/Subject/Names.antt =====
-- The parts of an NVR identifier: what a name, version and release are joined to comes apart again.
use Prim.Native.Char.{Char, code}
use text.Mathlib.TextLemmas.{nil-append, cons-append, append_assoc}
use greenwave.Prelude.{
  ℕ, String, ◌≡◌, refl, ◌≢◌, true, [], ◌∷◌, ◌++◌, suc, none, some, arith, nat_eq, ==_iff, ==_refl,
  ◌<>◌,
}
use greenwave.Subject.{SubjectType, rsplit_once, rsplit, package_name, short_product_version}

-- The character does not occur in the text.
abbrev pub Without : ℕ → String → Type 0
Without sep String.[] = Unit
Without sep (String.◌∷◌ c s) = (code c ≢ sep) × Without sep s

abbrev char_text : Char → String
char_text c = String.◌∷◌ c String.[]

rsplit_once-Without : (sep : ℕ) (s : String) → Without sep s → rsplit_once sep s ≡ none
unfolding rsplit_once
rsplit_once-Without sep String.[] h = refl
rsplit_once-Without sep (String.◌∷◌ c s) h =
    rw (rsplit_once-Without sep s h.1, rsplit_once) (ground (arith, ==_iff (code c) sep))

-- The last separator is the one that is cut at.
rsplit_once-append :
    (c : Char) (s t : String)
    → Without (code c) t
    → rsplit_once (code c) (s <> char_text c <> t) ≡ some (s, t)
unfolding rsplit_once
rsplit_once-append c String.[] t h =
    rw (nil-append, cons-append, nil-append, rsplit_once)
      (rw (rsplit_once-Without (code c) t h, ==_refl {A = ℕ}, nil-append))
rsplit_once-append c (String.◌∷◌ d s) t h =
    rw (cons-append d s (char_text c <> t), rsplit_once) (rw (rsplit_once-append c s t h))

-- A cut at the last separator leaves one cut less for what is before it.
pub rsplit-append :
    (c : Char) (n : ℕ) (s t : String)
    → Without (code c) t
    → rsplit (code c) (suc n) (s <> String.◌∷◌ c String.[] <> t) ≡ rsplit (code c) n s ++ t ∷ []
unfolding rsplit
rsplit-append c n s t h = rw (rsplit_once-append c s t h, rsplit) refl

abbrev dash : Char
dash = "-"

abbrev dot : Char
dot = "."

-- `name-version-release`
abbrev nvr : String → String → String → String
nvr name version release = name <> "-" <> version <> "-" <> release

rsplit-nvr :
    (name version release : String)
    → Without b'-' version
    → Without b'-' release
    → rsplit b'-' 2 (nvr name version release) ≡ name ∷ version ∷ release ∷ []
unfolding rsplit
rsplit-nvr name version release hv hr =
    let regroup : nvr name version release ≡ (name <> "-" <> version) <> "-" <> release =
      simp append_assoc in
    rw regroup (
      rw (rsplit_once-append dash (name <> "-" <> version) release hr, rsplit)
        (rw (rsplit_once-append dash name version hv)))

-- The package name of an NVR is the name, dashes and all, if the type's identifiers are NVRs and
-- neither the version nor the release holds a dash.
package_name-nvr :
    (t : SubjectType) (name version release : String)
    → t.is_nvr ≡ true
    → Without b'-' version
    → Without b'-' release
    → package_name (record { subject_type = t; item = nvr name version release }) ≡ some name
unfolding package_name
package_name-nvr t name version release is_nvr hv hr =
    rw (is_nvr, rsplit-nvr name version release hv hr)

-- The short product version of an NVR is what follows the last dot of the release.
pub short_product_version-nvr :
    (t : SubjectType) (name version release short : String)
    → t.is_nvr ≡ true
    → Without b'-' version
    → Without b'-' (release <> "." <> short)
    → Without b'.' short
    → short_product_version
        (record { subject_type = t; item = nvr name version (release <> "." <> short) })
      ≡ some short
unfolding short_product_version rsplit
short_product_version-nvr t name version release short is_nvr hv hr hs =
    rw (is_nvr, rsplit-nvr name version (release <> "." <> short) hv hr)
      (rw (rsplit_once-append dot release short hs, rsplit))

-- ===== src/Prelude/Text.antt =====
-- Texts: joining, and the truth value of a text.
use Prim.Native.String
use Prim.Native.String.{String}
use Prim.Native.Char.{Char}
use mathlib.Core.Path.{◌≡◌, refl, subst}
use mathlib.Core.Logic.{inl, inr}
use mathlib.Core.Bool.{Bool, true, false, not, ◌||◌}
use native.Mathlib.Omega.{arith}
use mathlib.Core.Option.{Option, none, some}
use mathlib.Core.List.{List, [], ◌∷◌}
use greenwave.Prelude.Tests.{Bool-cases, if◌then◌else◌}
use greenwave.Prelude.Equality.{◌==◌, ==_iff, string_eq}

infixr 66 ◌<>◌
abbrev pub ◌<>◌ : String → String → String
s <> t = String.◌++◌ s t

-- `bool(s)`
abbrev pub truthy : String → Bool
truthy s = not (s == "")

-- A text with a character in it counts as true.
pub cons-truthy : (c : Char) (s : String) → truthy (String.◌∷◌ c s) ≡ true
cons-truthy c s = elim (Bool-cases (String.◌∷◌ c s == "")) [
  | inr differs ↦ rw differs refl
  | inl same ↦
      let equal : String.◌∷◌ c s ≡ "" = ground (arith, ==_iff (String.◌∷◌ c s) "") in
      absurd (subst Cons equal tt)
]
  where
    Cons : String → Type 0
    Cons String.[] = ⊥
    Cons (String.◌∷◌ d t) = Unit

-- A text that may be absent: Python treats None and "" alike in a test.
abbrev pub given : Option String → Bool
given none = false
given (some s) = truthy s

-- `sep.join(parts)`
abbrev pub join : String → List String → String
join sep [] = ""
join sep (s ∷ []) = s
join sep (s ∷ t ∷ rest) = s <> sep <> join sep (t ∷ rest)

-- `re.sub(suffix + "$", "", text)`
unfoldable pub strip_suffix : String → String → String
strip_suffix suffix String.[] = ""
strip_suffix suffix (String.◌∷◌ c s) =
    let rest = strip_suffix suffix s in if String.◌∷◌ c s == suffix then "" else String.◌∷◌ c rest

-- `text.endswith(suffix)`
unfoldable pub ends_with : String → String → Bool
ends_with suffix String.[] = suffix == ""
ends_with suffix (String.◌∷◌ c s) = (String.◌∷◌ c s == suffix) || ends_with suffix s

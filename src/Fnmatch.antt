-- ===== src/Fnmatch.antt =====
-- `fnmatch.fnmatch` as policies use it on package names and product versions, on POSIX: `*`, `?`,
-- `[seq]` and `[!seq]`, over code points.
pub mod Relation
pub mod Text
use Prim.Native.Char.{code}
use Prim.Native.String
use greenwave.Prelude.{
  ℕ, zero, suc, ◌+◌, String, Bool, true, false, not, ◌&&◌, ◌||◌, List, [], ◌∷◌, Option, none, some,
  ◌==◌, nat_eq, leb, any, length, if◌then◌else◌,
}

pub data Token : Type 0 where
  star any_char : Token
  lit : ℕ → Token
  -- whether the class is negated, and its ranges
  one_of : Bool → List (ℕ × ℕ) → Token

abbrev pub codes : String → List ℕ
codes String.[] = []
codes (String.◌∷◌ c s) = code c ∷ codes s

-- What stands before the next `]`.
until_bracket : List ℕ → Option (List ℕ)
until_bracket [] = none
until_bracket (c ∷ cs) =
    let rest = until_bracket cs in
    if c == b']' then some [] else elim rest [ none ↦ none | some stuff ↦ some (c ∷ stuff) ]

-- A `]` that stands first belongs to the class.
class_stuff : List ℕ → Option (List ℕ)
class_stuff [] = none
class_stuff (c ∷ cs) = elim (until_bracket cs) [ none ↦ none | some stuff ↦ some (c ∷ stuff) ]

class_ranges : List ℕ → List (ℕ × ℕ)
class_ranges [] = []
class_ranges (x ∷ []) = (x, x) ∷ []
class_ranges (x ∷ y ∷ []) = (x, x) ∷ (y, y) ∷ []
class_ranges (x ∷ y ∷ z ∷ rest) =
    let range = (x, z) ∷ class_ranges rest in
    let single = (x, x) ∷ class_ranges (y ∷ z ∷ rest) in if y == b'-' then range else single

-- The class that a `[` opens, and how many characters it takes.
class_token : Bool → ℕ → Option (List ℕ) → Token × ℕ
class_token negated extra none = (lit b'[', 0)
class_token negated extra (some stuff) =
    (one_of negated (class_ranges stuff), length stuff + 1 + extra)

open_class : List ℕ → Token × ℕ
open_class [] = (lit b'[', 0)
open_class (c ∷ cs) =
    if c == b'!'
    then class_token true 1 (class_stuff cs)
    else class_token false 0 (class_stuff (c ∷ cs))

pub token_at : ℕ → List ℕ → Token × ℕ
token_at c rest =
    if c == b'*'
    then (star, 0)
    else if c == b'?'
    then (any_char, 0)
    else if c == b'['
    then open_class rest
    else (lit c, 0)

-- The number counts the characters that the class before has taken.
pub compile : ℕ → List ℕ → List Token
compile skip [] = []
compile (suc skip) (c ∷ cs) = compile skip cs
compile zero (c ∷ cs) = let t = token_at c cs in t.0 ∷ compile t.1 cs

in_range : ℕ → ℕ × ℕ → Bool
in_range c r = leb r.0 c && leb c r.1

-- `[!seq]` takes what `[seq]` does not.
pub in_class : ℕ → Bool → List (ℕ × ℕ) → Bool
unfolding in_range
in_class c negated ranges =
    if negated then not (any (in_range c) ranges) else any (in_range c) ranges

pub matches : List Token → List ℕ → Bool
unfolding in_class
matches [] [] = true
matches [] (c ∷ s) = false
matches (star ∷ ts) [] = matches ts []
matches (star ∷ ts) (c ∷ s) = matches ts (c ∷ s) || matches (star ∷ ts) s
matches (any_char ∷ ts) [] = false
matches (any_char ∷ ts) (c ∷ s) = matches ts s
matches (lit d ∷ ts) [] = false
matches (lit d ∷ ts) (c ∷ s) = (c == d) && matches ts s
matches (one_of negated ranges ∷ ts) [] = false
matches (one_of negated ranges ∷ ts) (c ∷ s) = in_class c negated ranges && matches ts s

unfoldable pub tokens : String → List Token
unfolding compile token_at open_class class_token class_ranges class_stuff until_bracket
tokens pattern = compile 0 (codes pattern)

unfoldable pub fnmatch : String → String → Bool
unfolding matches tokens
fnmatch name pattern = matches (tokens pattern) (codes name)

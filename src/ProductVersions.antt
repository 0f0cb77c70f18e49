-- ===== src/ProductVersions.antt =====
-- product_versions.py, and the product versions of subjects/subject.py: which versions of a product a
-- subject belongs to. `re.match` and `re.sub` on configured patterns are functions of `Patterns`.
-- Letters and digits are those of ASCII.
pub mod Number
pub mod Guessed
pub mod Fallback
use Prim.Native.Char.{Char, code}
use Prim.Native.String
use greenwave.Prelude.{
  ℕ, String, Bool, true, false, not, ◌&&◌, ◌||◌, List, [], ◌∷◌, map, Option, none, some, ◌==◌,
  nat_eq, string_eq, string_order, select, is_empty, truthy, join, given, ◌<>◌, sort, unique,
  if◌then◌else◌,
}
use greenwave.Outcome.{Result, ok, raise, ◌>>=◌, not_found, bad_gateway, connection, os_error}
use greenwave.Json.{Json, truthy_json}
use greenwave.Decimal.{show, read, is_digit}
use greenwave.Subject.{VersionMatch, Subject, short_product_version}
use greenwave.Resources.Koji.{Koji, retrieve_koji_build_task_id, retrieve_koji_build_target}

-- `re.match(pattern, text)` and `re.sub(pattern, replacement, text)`
pub record Patterns : Type 0 where
  pub is_match : String → String → Bool
  pub sub : String → String → String → String

abbrev lower_in : String → String → Char → Char
lower_in (String.◌∷◌ u us) (String.◌∷◌ l ls) c = if code c == code u then l else lower_in us ls c
lower_in _ _ c = c

-- `text.lower()`
unfoldable pub lower : String → String
lower String.[] = ""
lower (String.◌∷◌ c s) =
    String.◌∷◌ (lower_in "ABCDEFGHIJKLMNOPQRSTUVWXYZ" "abcdefghijklmnopqrstuvwxyz" c) (lower s)

-- `Subject._matching_product_versions`, before the texts become a set
unfoldable pub matching_product_versions : Patterns → String → List VersionMatch → List String
matching_product_versions patterns text [] = []
matching_product_versions patterns text (m ∷ rest) =
    let later = matching_product_versions patterns text rest in
    if patterns.is_match m.match_pattern text
    then patterns.sub m.match_pattern m.product_version text ∷ later
    else later

unfoldable pub product_versions_from_koji_build_target : Patterns → Subject → String → List String
product_versions_from_koji_build_target patterns s target = sort (
    unique (
      matching_product_versions patterns target
        s.subject_type.product_version_from_koji_build_target))

-- `Subject.product_versions`
unfoldable pub product_versions : Patterns → Subject → List String
product_versions patterns s =
    elim (sort (
      unique (
        map lower
          (matching_product_versions patterns s.item s.subject_type.product_version_match)))) [
            | pv ∷ pvs ↦ pv ∷ pvs
            | [] ↦ elim s.subject_type.product_version [
              | none ↦ []
              | some pv ↦ if truthy pv then pv ∷ [] else []
            ]
          ]

-- `re.split(r"(\d+)", text)`: what is not digits, digits, and so on in turn.
unfoldable pub split_digits : String → List String
split_digits String.[] = "" ∷ []
split_digits (String.◌∷◌ c s) = add_character (is_digit c) c (split_digits s)
  where
    -- A character before a text that is split.
    add_character : Bool → Char → List String → List String
    add_character false c [] = []
    add_character false c (other ∷ rest) = String.◌∷◌ c other ∷ rest
    add_character true c (other ∷ digits ∷ rest) =
        if other == ""
        then "" ∷ String.◌∷◌ c digits ∷ rest
        else "" ∷ String.◌∷◌ c "" ∷ other ∷ digits ∷ rest
    add_character true c rest = "" ∷ String.◌∷◌ c "" ∷ rest

-- `text.split("-")`
unfoldable pub split_dashes : String → List String
split_dashes String.[] = "" ∷ []
split_dashes (String.◌∷◌ c s) =
    let rest = split_dashes s in if code c == b'-' then "" ∷ rest else add_first c rest
  where
    add_first : Char → List String → List String
    add_first c [] = []
    add_first c (part ∷ rest) = String.◌∷◌ c part ∷ rest

abbrev pub second_number : List String → Option ℕ
second_number (first ∷ second ∷ rest) = read second
second_number _ = none

-- `_product_version_number_or_none`
unfoldable pub product_version_number_or_none : String → Option ℕ
product_version_number_or_none text =
    second_number (select truthy (split_dashes (join "-" (split_digits text))))

-- `text.startswith(prefix)`
unfoldable pub has_prefix : String → String → Bool
has_prefix String.[] text = true
has_prefix (String.◌∷◌ c p) String.[] = false
has_prefix (String.◌∷◌ c p) (String.◌∷◌ d text) = (code c == code d) && has_prefix p text

-- `text.startswith(prefix)`, and a digit follows
unfoldable pub has_digit_after : String → String → Bool
has_digit_after String.[] String.[] = false
has_digit_after String.[] (String.◌∷◌ d text) = is_digit d
has_digit_after (String.◌∷◌ c p) String.[] = false
has_digit_after (String.◌∷◌ c p) (String.◌∷◌ d text) = (code c == code d) && has_digit_after p text

-- The name of the product, with a dash; empty where there is none.
unfoldable pub product_of : String → Bool → String
product_of text koji_build =
    if has_prefix "f" text && koji_build
    then "fedora-"
    else if has_prefix "epel" text
    then "epel-"
    else if has_digit_after "el" text
    then "rhel-"
    else if has_digit_after "rhel-" text
    then "rhel-"
    else if has_prefix "fc" text || has_prefix "Fedora" text
    then "fedora-"
    else ""

abbrev pub numbered : String → Option ℕ → List String
numbered product none = []
numbered product (some n) = if n == 0 then [] else (product <> show n) ∷ []

-- `_guess_product_versions`
unfoldable pub guess_product_versions : String → Bool → List String
guess_product_versions text koji_build =
    if (text == "rawhide") || has_prefix "Fedora-Rawhide" text
    then "fedora-rawhide" ∷ []
    else if product_of text koji_build == ""
    then []
    else numbered (product_of text koji_build) (product_version_number_or_none text)

abbrev task_or_none : Result (Option Json) → Result (Option Json)
task_or_none (ok (some id)) = ok (if truthy_json id then some id else none)
task_or_none (ok none) = ok none
task_or_none (raise (not_found message)) = ok none
task_or_none (raise e) = raise e

abbrev task_of_build : Koji → Subject → Result (Option Json)
task_of_build koji s = task_or_none (retrieve_koji_build_task_id koji s.item)

-- A task that is given, if it is not zero, or the task of the build.
unfoldable pub task_of : Koji → Subject → Option Json → Result (Option Json)
task_of koji s (some id) = if truthy_json id then ok (some id) else task_of_build koji s
task_of koji s none = task_of_build koji s

abbrev or_else : List String → List String → List String
or_else [] later = later
or_else (pv ∷ pvs) later = pv ∷ pvs

abbrev versions_of_target : Patterns → Subject → Option String → List String
versions_of_target patterns s none = []
versions_of_target patterns s (some target) =
    if truthy target
    then or_else (product_versions_from_koji_build_target patterns s target)
        (guess_product_versions target true)
    else []

-- The part of `_guess_koji_build_product_versions` in `try`.
unfoldable pub koji_product_versions :
    Patterns → Koji → Subject → Option Json → Result (List String)
koji_product_versions patterns koji s given_id = do
  id ← task_of koji s given_id
  elim id [
    | none ↦ ok []
    | some task ↦ do
      target ← retrieve_koji_build_target koji task
      ok (versions_of_target patterns s target)
  ]

-- `_guess_koji_build_product_versions`
unfoldable pub guess_koji_build_product_versions :
    Patterns → Koji → Subject → Option Json → Result (List String)
guess_koji_build_product_versions patterns koji s id =
    elim (koji_product_versions patterns koji s id) [
      | ok versions ↦ ok versions
      | raise (os_error message) ↦ raise (connection ("Could not reach Koji: " <> message))
      | raise (bad_gateway message) ↦ ok []
      | raise e ↦ raise e
    ]

-- The last lines of `subject_product_versions`.
unfoldable pub short_versions : Subject → List String
short_versions s = elim (short_product_version s) [
  | none ↦ []
  | some short ↦
      if truthy short then guess_product_versions short s.subject_type.is_koji_build else []
]

abbrev unless_found : List String → Result (List String) → Result (List String)
unless_found [] later = later
unless_found (pv ∷ pvs) later = ok (pv ∷ pvs)

-- The part of `subject_product_versions` after the configured versions; without a Koji server nothing
-- is asked.
unfoldable pub guessed_product_versions :
    Patterns → Option Koji → Option Json → Subject → Result (List String)
guessed_product_versions patterns none id s = ok (short_versions s)
guessed_product_versions patterns (some koji) id s =
    if truthy koji.url && s.subject_type.is_koji_build
    then (do
      guessed ← guess_koji_build_product_versions patterns koji s id
      ok (or_else guessed (short_versions s)))
    else ok (short_versions s)

unfoldable pub subject_product_versions :
    Patterns → Option Koji → Option Json → Subject → Result (List String)
subject_product_versions patterns server id s =
    unless_found (product_versions patterns s) (guessed_product_versions patterns server id s)

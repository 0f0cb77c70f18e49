-- ===== src/Subject.antt =====
-- subjects/subject_type.py, subjects/subject.py and subjects/factory.py: what a decision is about.
pub mod Factory
pub mod Names
pub mod Requested
use Prim.Native.Char.{code}
use Prim.Native.String
use greenwave.Prelude.{
  ℕ, zero, suc, String, Bool, true, false, ◌||◌, List, [], ◌∷◌, ◌++◌, Option, none, some, Dict,
  ◌==◌, nat_eq, string_eq, elem, is_empty, truthy, if◌then◌else◌,
}
use greenwave.Json.{Json, str, Object, empty, assign, of_entries}

-- One dictionary of `product_version_match`.
pub record VersionMatch : Type 0 where
  pub match_pattern : String
  pub product_version : String

-- A serialization dictionary: `item_key` and `keys`.
pub record ItemDict : Type 0 where
  pub item_key : Option String
  pub keys : List (String × Json)

-- `SubjectType`, and `GenericSubjectType` with the same attributes.
pub record SubjectType : Type 0 where
  pub id : String
  pub aliases : List String
  pub item_key : Option String
  pub is_koji_build : Bool
  pub is_nvr : Bool
  pub ignore_missing_policy : Bool
  pub product_version_match : List VersionMatch
  pub product_version_from_koji_build_target : List VersionMatch
  pub product_version : Option String
  pub item_dict : Option ItemDict
  pub result_queries : List ItemDict

-- `GenericSubjectType(id_)`: the defaults of the attributes, but for two.
unfoldable pub generic_subject_type : String → SubjectType
generic_subject_type id = record {
  id = id;
  aliases = [];
  item_key = none;
  is_koji_build = true;
  is_nvr = false;
  ignore_missing_policy = false;
  product_version_match = [];
  product_version_from_koji_build_target = [];
  product_version = none;
  item_dict = none;
  result_queries = [];
}

-- `matches` of both classes
unfoldable pub type_matches : SubjectType → String → Bool
type_matches t id = (id == t.id) || elem id t.aliases

pub record Subject : Type 0 where
  pub subject_type : SubjectType
  pub item : String

-- The loop over `keys` of `_to_dict`.
abbrev assign_all : List (String × Json) → Object → Object
assign_all [] d = d
assign_all ((k, v) ∷ rest) d = assign_all rest (assign k v d)

unfoldable pub item_to_dict : ItemDict → String → Object
item_to_dict format item = elim format.item_key [
  | none ↦ assign_all format.keys empty
  | some key ↦ assign_all format.keys (if truthy key then assign key (str item) empty else empty)
]

unfoldable pub to_dict : Subject → Object
unfolding item_to_dict
to_dict s = elim s.subject_type.item_dict [
  | none ↦ of_entries (("type", str s.subject_type.id) ∷ ("item", str s.item) ∷ [])
  | some format ↦ item_to_dict format s.item
]

queries_of : List ItemDict → String → List Object
queries_of [] item = []
queries_of (format ∷ rest) item = item_to_dict format item ∷ queries_of rest item

unfoldable pub result_queries : Subject → List Object
unfolding queries_of item_to_dict to_dict
result_queries s =
    if is_empty s.subject_type.result_queries
    then to_dict s ∷ []
    else queries_of s.subject_type.result_queries s.item

-- The text before and after the last `sep`.
pub rsplit_once : ℕ → String → Option (String × String)
rsplit_once sep String.[] = none
rsplit_once sep (String.◌∷◌ c s) = elim (rsplit_once sep s) [
  | none ↦ if code c == sep then some ("", s) else none
  | some (before, after) ↦ some (String.◌∷◌ c before, after)
]

-- `text.rsplit(sep, n)`
unfoldable pub rsplit : ℕ → ℕ → String → List String
unfolding rsplit_once
rsplit sep zero text = text ∷ []
rsplit sep (suc n) text = elim (rsplit_once sep text) [
  | none ↦ text ∷ []
  | some (before, after) ↦ rsplit sep n before ++ after ∷ []
]

abbrev first_or : String → List String → String
first_or d [] = d
first_or d (x ∷ xs) = x

-- None, where the type's identifiers are no NVR
unfoldable pub package_name : Subject → Option String
unfolding rsplit
package_name s = if s.subject_type.is_nvr then some (first_or "" (rsplit b'-' 2 s.item)) else none

-- `_, short = release.rsplit(".", 1)`, which fails on one part
abbrev after_dot : List String → Option String
after_dot (name ∷ short ∷ []) = some short
after_dot _ = none

abbrev release_of : List String → Option String
release_of (name ∷ version ∷ release ∷ []) = some release
release_of _ = none

unfoldable pub short_product_version : Subject → Option String
unfolding rsplit
short_product_version s =
    if s.subject_type.is_nvr
    then elim (release_of (rsplit b'-' 2 s.item)) [
      | none ↦ none
      | some release ↦ after_dot (rsplit b'.' 1 release)
    ]
    else none

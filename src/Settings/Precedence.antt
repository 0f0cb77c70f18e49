-- ===== src/Settings/Precedence.antt =====
-- Which of its origins a setting comes from.
use greenwave.Prelude.{
  String, ◌≡◌, refl, false, ◌&&◌, Option, none, some, get, truthy, subst, ◌==◌, ==_iff, string_eq,
  if◌then◌else◌, arith, Bool-cases, inl, inr,
}
use greenwave.Outcome.{ok}
use greenwave.Json.{Json, str, Object, empty, entry, lookup, has_key, assign, update, lookup-assign}
use greenwave.Settings.{Origins, config_class, assign_if_given, override, config_file, load_config}

-- A dictionary has each key once.
abbrev pub HasEachOnce : Object → Type 0
HasEachOnce empty = Unit
HasEachOnce (entry k v d) = (has_key k d ≡ false) × HasEachOnce d

-- The first of two that is there.
abbrev pub first_of : Option Json → Option Json → Option Json
first_of (some v) other = some v
first_of none other = other

lookup-has_key : (k : String) (d : Object) → has_key k d ≡ false → lookup k d ≡ none
lookup-has_key k empty h = refl
lookup-has_key k (entry i v d) h = ground (arith, lookup-has_key k d)

lookup-update :
    (j : String) (d e : Object)
    → HasEachOnce e
    → lookup j (update d e) ≡ first_of (lookup j e) (lookup j d)
lookup-update j d empty h = refl
lookup-update j d (entry k v e) h = elim (Bool-cases (k == j)) [
  | inl same ↦
      let key : k ≡ j = (==_iff k j).0 same in
      let absent : lookup j e ≡ none = lookup-has_key j e (ground (arith, h.0)) in
      rw (lookup-update j (assign k v d) e h.1, absent, lookup-assign j k v d, same) refl
  | inr other ↦ rw (lookup-update j (assign k v d) e h.1, lookup-assign j k v d, other) refl
]

-- A value that is not empty, for its key only.
abbrev given_for : Option String → String → String → Option Json
given_for none key j = none
given_for (some value) key j = if truthy value && (key == j) then some (str value) else none

-- The value of an environment variable for a key.
abbrev pub from_environment : Origins → String → String → String → Option Json
from_environment o name key j = given_for (get name o.environ) key j

lookup-assign_if_given :
    (m : Option String) (key j : String) (d : Object)
    → lookup j (assign_if_given m key d) ≡ first_of (given_for m key j) (lookup j d)
lookup-assign_if_given none key j d = refl
lookup-assign_if_given (some value) key j d = elim (Bool-cases (truthy value)) [
  | inl full ↦ elim (Bool-cases (key == j)) [
    | inl same ↦ rw (full, lookup-assign j key (str value) d, same) refl
    | inr other ↦ rw (full, lookup-assign j key (str value) d, other) refl
  ]
  | inr none_given ↦ rw none_given refl
]

lookup-override :
    (o : Origins) (name key j : String) (d : Object)
    → lookup j (override o name key d) ≡ first_of (from_environment o name key j) (lookup j d)
unfolding override
lookup-override o name key j d = lookup-assign_if_given (get name o.environ) key j d

-- Each setting comes from the first of these that has it: the environment, for SECRET_KEY; the custom
-- file; the environment, for the two directories; the configuration class. This is so if the file has
-- each setting once.
pub load_config_precedence :
    (o : Origins) (config_obj : Option String) (custom config : Object) (key : String)
    → o.from_pyfile (config_file o) ≡ ok custom
    → HasEachOnce custom
    → load_config o config_obj ≡ ok config
    → lookup key config
      ≡ first_of (from_environment o "SECRET_KEY" "SECRET_KEY" key) (
          first_of (lookup key custom) (
            first_of (from_environment o "GREENWAVE_POLICIES_DIR" "POLICIES_DIR" key) (
              first_of
                (from_environment o "GREENWAVE_SUBJECT_TYPES_DIR" "SUBJECT_TYPES_DIR" key)
                (lookup key (o.from_object (config_class o config_obj))))))
unfolding load_config
load_config_precedence o config_obj custom config key file once loaded =
    let defaults = o.from_object (config_class o config_obj) in
    let with_types = override o "GREENWAVE_SUBJECT_TYPES_DIR" "SUBJECT_TYPES_DIR" defaults in
    let with_policies = override o "GREENWAVE_POLICIES_DIR" "POLICIES_DIR" with_types in
    let all = override o "SECRET_KEY" "SECRET_KEY" (update with_policies custom) in
    let given : load_config o config_obj ≡ ok all = rw (file, load_config) refl in
    let same : all ≡ config = cc in
    subst
      (λ c.
        lookup key c
        ≡ first_of (from_environment o "SECRET_KEY" "SECRET_KEY" key) (
            first_of (lookup key custom) (
              first_of (from_environment o "GREENWAVE_POLICIES_DIR" "POLICIES_DIR" key) (
                first_of (from_environment o "GREENWAVE_SUBJECT_TYPES_DIR" "SUBJECT_TYPES_DIR" key)
                  (lookup key defaults)))))
      same
      (rw
        (
          lookup-override o "SECRET_KEY" "SECRET_KEY" key (update with_policies custom),
          lookup-update key with_policies custom once,
          lookup-override o "GREENWAVE_POLICIES_DIR" "POLICIES_DIR" key with_types,
          lookup-override o "GREENWAVE_SUBJECT_TYPES_DIR" "SUBJECT_TYPES_DIR" key defaults,
        )
        refl)

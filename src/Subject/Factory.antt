-- ===== src/Subject/Factory.antt =====
-- subjects/factory.py and `create_subject_type`: from request data to a subject.
pub mod Chosen
use greenwave.Prelude.{
  String, Bool, false, List, [], ◌∷◌, Option, none, some, Dict, get, ◌==◌, not, ◌&&◌, string_eq,
  truthy, if◌then◌else◌,
}
use greenwave.Subject.{SubjectType, Subject, generic_subject_type, type_matches}

unfoldable pub create_subject_type : String → List SubjectType → SubjectType
create_subject_type id [] = generic_subject_type id
create_subject_type id (t ∷ rest) = if type_matches t id then t else create_subject_type id rest

unfoldable pub create_subject : List SubjectType → String → String → Subject
create_subject types id item = record { subject_type = create_subject_type id types; item = item }

-- `type_id and type_.id != type_id`
abbrev other_type : Option String → SubjectType → Bool
other_type none t = false
other_type (some id) t = truthy id && not (t.id == id)

-- The item under the key of the type, if the type has a key and the item is not empty.
abbrev item_of : SubjectType → Dict String String → Option String
item_of t fields = elim t.item_key [
  | none ↦ none
  | some key ↦
      if truthy key
      then (elim (get key fields) [
        | none ↦ none
        | some item ↦ if truthy item then some item else none
      ])
      else none
]

-- The loop of `create_subject_from_data`.
find_by_key : Option String → Dict String String → List SubjectType → Option Subject
find_by_key type_id fields [] = none
find_by_key type_id fields (t ∷ rest) =
    let later = find_by_key type_id fields rest in
    if other_type type_id t then later else elim (item_of t fields) [
      | none ↦ later
      | some item ↦ some (record { subject_type = t; item = item })
    ]

-- What is left when no configured type has its key among the data.
by_item : List SubjectType → Option String → Option String → Option Subject
unfolding create_subject
by_item types (some type_id) (some item) =
    if truthy type_id && truthy item then some (create_subject types type_id item) else none
by_item types _ _ = none

-- None stands for `UnknownSubjectDataError`.
unfoldable pub create_subject_from_data : List SubjectType → Dict String String → Option Subject
unfolding find_by_key by_item
create_subject_from_data types fields = elim (find_by_key (get "type" fields) fields types) [
  | some s ↦ some s
  | none ↦ by_item types (get "type" fields) (get "item" fields)
]

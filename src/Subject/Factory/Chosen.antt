-- ===== src/Subject/Factory/Chosen.antt =====
-- Which subject request data stand for.
use greenwave.Prelude.{
  String, ◌≡◌, refl, Bool, true, false, not, ◌&&◌, ◌||◌, List, [], ◌∷◌, ◌++◌, none, some, Dict, get,
  arith, is_some, all, string_eq, truthy,
}
use greenwave.Subject.{SubjectType}
use greenwave.Subject.Factory.{
  other_type, item_of, find_by_key, by_item, create_subject, create_subject_from_data,
}

-- The data do not name an item of this type.
abbrev pub skipped : Dict String String → SubjectType → Bool
skipped fields t = other_type (get "type" fields) t || not (is_some (item_of t fields))

find_by_key_first :
    (fields : Dict String String) (before : List SubjectType) (t : SubjectType)
    (after : List SubjectType) (item : String)
    → all (skipped fields) before ≡ true
    → other_type (get "type" fields) t ≡ false
    → item_of t fields ≡ some item
    → find_by_key (get "type" fields) fields (before ++ t ∷ after)
      ≡ some (record { subject_type = t; item = item })
unfolding find_by_key
find_by_key_first fields [] t after item skip mine named = rw (mine, named)
find_by_key_first fields (u ∷ before) t after item skip mine named =
    ground (arith, find_by_key_first fields before t after item)

find_by_key-none :
    (fields : Dict String String) (types : List SubjectType)
    → all (skipped fields) types ≡ true
    → find_by_key (get "type" fields) fields types ≡ none
unfolding find_by_key
find_by_key-none fields [] skip = refl
find_by_key-none fields (u ∷ types) skip = ground (arith, find_by_key-none fields types)

-- The first configured type that the data name an item of is the type of the subject.
pub create_subject_from_data_first :
    (fields : Dict String String) (before : List SubjectType) (t : SubjectType)
    (after : List SubjectType) (item : String)
    → all (skipped fields) before ≡ true
    → other_type (get "type" fields) t ≡ false
    → item_of t fields ≡ some item
    → create_subject_from_data (before ++ t ∷ after) fields
      ≡ some (record { subject_type = t; item = item })
unfolding create_subject_from_data
create_subject_from_data_first fields before t after item skip mine named =
    rw (find_by_key_first fields before t after item skip mine named, create_subject_from_data)

by_item-given :
    (types : List SubjectType) (type item : String)
    → (truthy type && truthy item) ≡ true
    → by_item types (some type) (some item) ≡ some (create_subject types type item)
unfolding by_item
by_item-given types type item given = rw given

-- If the data name an item of no configured type, then a type and an item that are given make the
-- subject, with the first configured type of that name or alias, or else a generic one.
pub create_subject_from_data_named :
    (fields : Dict String String) (types : List SubjectType) (type item : String)
    → all (skipped fields) types ≡ true
    → get "type" fields ≡ some type
    → get "item" fields ≡ some item
    → (truthy type && truthy item) ≡ true
    → create_subject_from_data types fields ≡ some (create_subject types type item)
unfolding create_subject_from_data
create_subject_from_data_named fields types type item skip typed named given =
    rw (find_by_key-none fields types skip, typed, named, create_subject_from_data)
      (by_item-given types type item given)

-- ===== src/Announcement.antt =====
-- What a message about a result says: its task and its subject (consumers/resultsdb.py).
use greenwave.Prelude.{
  ℕ, String, true, false, not, ◌&&◌, List, Option, none, some, ◌==◌, string_eq, if◌then◌else◌,
}
use greenwave.Outcome.{unexpected, Result, ok, raise, ◌>>=◌}
use greenwave.Json.{
  Json, bool, num, str, arr, obj, nil, cons, Object, empty, entry, lookup, has_key, truthy_json,
}
use greenwave.Decimal.{read}
use greenwave.Subject.{SubjectType, Subject}
use greenwave.Subject.Factory.{create_subject_from_data}
use greenwave.Subject.Requested.{text_entries}

-- `_unpack_value`
unfoldable pub unpack_value : Json → Json
unpack_value (arr (cons v nil)) = v
unpack_value v = v

-- `int(value)`; None is a ValueError or a TypeError.
abbrev int_of : Json → Option ℕ
int_of (num n) = some n
int_of (bool true) = some 1
int_of (bool false) = some 0
int_of (str s) = read s
int_of v = none

-- `data.get("brew_task_id")`, unpacked, as a number
abbrev task_id_of : Object → Option ℕ
task_id_of d = elim (lookup "brew_task_id" d) [ none ↦ none | some v ↦ int_of (unpack_value v) ]

-- `_get_brew_task_id`
unfoldable pub get_brew_task_id : Object → Result (Option ℕ)
get_brew_task_id msg = elim (lookup "data" msg) [
  | none ↦ ok none
  | some (obj d) ↦ ok (task_id_of d)
  | some v ↦ if truthy_json v then raise (unexpected "AttributeError") else ok none
]

-- `value[key]`
unfoldable pub at : String → Json → Result Json
at key (obj d) = elim (lookup key d) [ none ↦ raise (unexpected "KeyError") | some v ↦ ok v ]
at key v = raise (unexpected "TypeError")

-- `try: first; except KeyError: second`
abbrev pub or_else : Result Json → Result Json → Result Json
or_else (raise (unexpected name)) second =
    if name == "KeyError" then second else raise (unexpected name)
or_else first second = first

-- `{k: _unpack_value(v) for k, v in data.items()}`
unfoldable pub unpacked : Object → Object
unpacked empty = empty
unpacked (entry k v d) = entry k (unpack_value v) (unpacked d)

-- The data are in the new format or in the old one.
unfoldable pub data_of : Object → Result Json
data_of msg = or_else (at "data" (obj msg)) (at "task" (obj msg))

-- Old messages about composes do not count.
abbrev pub considered : Object → Option Subject → Option Subject
considered d none = none
considered d (some s) =
    if (s.subject_type.id == "compose") && not (has_key "productmd.compose.id" d)
    then none
    else some s

abbrev pub subject_in : List SubjectType → Json → Result (Option Subject)
subject_in types (obj d) =
    ok (considered d (create_subject_from_data types (text_entries (unpacked d))))
subject_in types v = raise (unexpected "AttributeError")

-- `announcement_subject`
unfoldable pub announcement_subject : List SubjectType → Object → Result (Option Subject)
announcement_subject types msg = data_of msg >>= subject_in types

-- ===== src/Subject/Requested.antt =====
-- `_decision_subjects_for_request` of decision.py: the subjects that a request names.
use greenwave.Prelude.{String, List, [], ◌∷◌, map, Option, none, some, Dict, string_eq}
use greenwave.Outcome.{Result, ok, raise, bad_request, unexpected}
use greenwave.Json.{Json, str, arr, obj, Array, nil, cons, Object, empty, entry, lookup}
use greenwave.Subject.{SubjectType, Subject}
use greenwave.Subject.Factory.{create_subject, create_subject_from_data}

-- The entries of a dictionary that `create_subject_from_data` may use: None is as good as no entry.
unfoldable pub text_entries : Object → Dict String String
text_entries empty = []
text_entries (entry key (str s) d) = (key, s) ∷ text_entries d
text_entries (entry key _ d) = text_entries d

-- `_decision_subject`
unfoldable pub decision_subject : List SubjectType → Object → Result Subject
decision_subject types fields = elim (create_subject_from_data types (text_entries fields)) [
  | none ↦ raise (bad_request "Could not detect subject_identifier.")
  | some s ↦ ok s
]

-- The dictionaries of a list, unless it holds something else.
unfoldable pub subject_entries : Array → Option (List Object)
subject_entries nil = some []
subject_entries (cons (obj d) a) = elim (subject_entries a) [
  | none ↦ none
  | some ds ↦ some (d ∷ ds)
]
subject_entries (cons _ a) = none

unfoldable pub named_subject : List SubjectType → Json → Json → Result Subject
named_subject types (str id) (str item) = ok (create_subject types id item)
named_subject types _ _ = raise (unexpected "TypeError")

unfoldable pub listed_subjects : List SubjectType → Json → List (Result Subject)
listed_subjects types (arr (cons v a)) = elim (subject_entries (cons v a)) [
  | none ↦ raise (bad_request "Invalid subject, must be a list of dicts") ∷ []
  | some ds ↦ map (decision_subject types) ds
]
listed_subjects types _ = raise (bad_request "Invalid subject, must be a list of dicts") ∷ []

-- `_decision_subjects_for_request`: what the generator yields, in order, up to what it raises.
unfoldable pub decision_subjects : List SubjectType → Object → List (Result Subject)
decision_subjects types request = elim (lookup "subject" request) [
  | some v ↦ listed_subjects types v
  | none ↦ elim (lookup "subject_type" request) [
    | none ↦ raise (bad_request "Missing required \"subject_type\" parameter") ∷ []
    | some type ↦ elim (lookup "subject_identifier" request) [
      | none ↦ raise (bad_request "Missing required \"subject_identifier\" parameter") ∷ []
      | some identifier ↦ named_subject types type identifier ∷ []
    ]
  ]
]

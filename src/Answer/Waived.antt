-- ===== src/Answer/Waived.antt =====
-- What `to_json` of a waived answer changes.
use greenwave.Prelude.{
  ℕ, String, ◌≡◌, refl, ap, ◌∙◌, false, Option, none, some, arith, ◌==◌, string_eq, ◌<>◌,
  if◌then◌else◌,
}
use greenwave.Json.{
  Json, null, bool, num, str, arr, obj, Object, lookup, assign, lookup-assign, delete,
  lookup-delete, has_key,
}
use greenwave.Answer.{
  satisfied, unsatisfied, RuleNotSatisfied, test_result_waived, mark_waived, waived_to_json,
  satisfied_to_json, not_satisfied_to_json, to_json,
}

lookup-mark_waived :
    (key : String) (type : Option Json) (o : Object)
    → ("type" == key) ≡ false
    → lookup key (mark_waived type o) ≡ lookup key o
lookup-mark_waived key none o other = refl
lookup-mark_waived key (some null) o other = refl
lookup-mark_waived key (some (bool b)) o other = refl
lookup-mark_waived key (some (num n)) o other = refl
lookup-mark_waived key (some (arr a)) o other = refl
lookup-mark_waived key (some (obj d)) o other = refl
lookup-mark_waived key (some (str type)) o other =
    ground (arith, lookup-assign key "type" (str (type <> "-waived")) o)

lookup-without_item :
    (key : String) (o : Object)
    → ("item" == key) ≡ false
    → lookup key (if has_key "item" o then delete "item" o else o) ≡ lookup key o
lookup-without_item key o other = ground (arith, lookup-delete key "item" o other)

lookup-waived_to_json :
    (key : String) (o : Object) (waiver_id : ℕ)
    → ("item" == key) ≡ false
    → lookup key (waived_to_json o waiver_id)
      ≡ lookup key (assign "waiver_id" (num waiver_id) (mark_waived (lookup "type" o) o))
unfolding waived_to_json
lookup-waived_to_json key o waiver_id other =
    lookup-without_item key (assign "waiver_id" (num waiver_id) (mark_waived (lookup "type" o) o))
      other

-- The report of a waived answer has the number of the waiver, the type of the answer with "-waived",
-- and otherwise, but for the old "item", what the report of the answer has.
pub to_json-waived :
    (a : RuleNotSatisfied) (waiver_id : ℕ) (type key : String)
    → lookup "type" (to_json (unsatisfied a)) ≡ some (str type)
    → ("type" == key) ≡ false
    → ("waiver_id" == key) ≡ false
    → ("item" == key) ≡ false
    → (lookup "waiver_id" (to_json (satisfied (test_result_waived a waiver_id)))
        ≡ some (num waiver_id))
      × (lookup "type" (to_json (satisfied (test_result_waived a waiver_id)))
          ≡ some (str (type <> "-waived")))
      × (lookup key (to_json (satisfied (test_result_waived a waiver_id)))
          ≡ lookup key (to_json (unsatisfied a)))
unfolding to_json satisfied_to_json
to_json-waived a waiver_id type key typed other1 other2 other3 =
    let o = not_satisfied_to_json a in
    let marked = mark_waived (lookup "type" o) o in
    (
      lookup-waived_to_json "waiver_id" o waiver_id refl
          ∙ lookup-assign "waiver_id" "waiver_id" (num waiver_id) marked,
      lookup-waived_to_json "type" o waiver_id refl
          ∙ lookup-assign "type" "waiver_id" (num waiver_id) marked
          ∙ ap (λ t. lookup "type" (mark_waived t o)) typed
          ∙ lookup-assign "type" "type" (str (type <> "-waived")) o,
      lookup-waived_to_json key o waiver_id other3
          ∙ lookup-assign key "waiver_id" (num waiver_id) marked
          ∙ rw other2 (lookup-mark_waived key (lookup "type" o) o other1),
    )

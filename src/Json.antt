-- ===== src/Json.antt =====
-- JSON values and Python dictionaries of them, as the answers, rules and decisions hold them. The
-- numbers are identifiers and counts, so they are natural.
use greenwave.Prelude.{
  ℕ, ◌+◌, String, Bool, true, false, ◌&&◌, List, [], ◌∷◌, Option, none, some, not, truthy, ◌==◌,
  ==_iff, ◌≡◌, refl, arith, nat_eq, string_eq, if◌then◌else◌,
}

mutual
  pub data Json : Type 0 where
    null : Json
    bool : Bool → Json
    num : ℕ → Json
    str : String → Json
    arr : Array → Json
    obj : Object → Json

  pub data Array : Type 0 where
    nil : Array
    cons : Json → Array → Array

  -- A dictionary in insertion order.
  pub data Object : Type 0 where
    empty : Object
    entry : String → Json → Object → Object

-- `d.get(key)`
abbrev pub lookup : String → Object → Option Json
lookup key empty = none
lookup key (entry k v d) = if k == key then some v else lookup key d

-- `d[key] = value`
abbrev pub assign : String → Json → Object → Object
assign key value empty = entry key value empty
assign key value (entry k v d) =
    if k == key then entry k value d else entry k v (assign key value d)

pub lookup-assign :
    (j k : String) (v : Json) (d : Object)
    → lookup j (assign k v d) ≡ (if k == j then some v else lookup j d)
lookup-assign j k v empty = refl
lookup-assign j k v (entry i w d) =
    ground (arith, lookup-assign j k v d, ==_iff i k, ==_iff i j, ==_iff k j)

-- `d.update(e)`
abbrev pub update : Object → Object → Object
update d empty = d
update d (entry k v e) = update (assign k v d) e

-- `del d[key]`, where the key is there
abbrev pub delete : String → Object → Object
delete key empty = empty
delete key (entry k v d) = if k == key then d else entry k v (delete key d)

pub lookup-delete :
    (j k : String) (d : Object) → (k == j) ≡ false → lookup j (delete k d) ≡ lookup j d
lookup-delete j k empty other = refl
lookup-delete j k (entry i w d) other =
    ground (arith, lookup-delete j k d other, ==_iff i k, ==_iff i j, ==_iff k j)

abbrev pub has_key : String → Object → Bool
has_key key empty = false
has_key key (entry k v d) = if k == key then true else has_key key d

abbrev pub of_entries : List (String × Json) → Object
of_entries [] = empty
of_entries ((k, v) ∷ rest) = entry k v (of_entries rest)

abbrev pub str_array : List String → Array
str_array [] = nil
str_array (s ∷ rest) = cons (str s) (str_array rest)

-- None, or a text
abbrev pub opt_str : Option String → Json
opt_str none = null
opt_str (some s) = str s

abbrev number_of : Bool → ℕ
number_of true = 1
number_of false = 0

abbrev pub size : Object → ℕ
size empty = 0
size (entry k v d) = size d + 1

-- `==` of Python: True is 1 and False is 0, and the order of the keys does not count.
unfoldable mutual
  pub json_eq : Json → Json → Bool
  json_eq null null = true
  json_eq (bool a) (bool b) = number_of a == number_of b
  json_eq (bool a) (num n) = number_of a == n
  json_eq (num m) (bool b) = m == number_of b
  json_eq (num m) (num n) = m == n
  json_eq (str s) (str t) = s == t
  json_eq (arr a) (arr b) = array_eq a b
  json_eq (obj a) (obj b) = (size a == size b) && entries_in a b
  json_eq _ _ = false

  pub array_eq : Array → Array → Bool
  array_eq nil nil = true
  array_eq (cons v a) (cons w b) = json_eq v w && array_eq a b
  array_eq _ _ = false

  -- every entry of the first dictionary is one of the second
  pub entries_in : Object → Object → Bool
  entries_in empty d = true
  entries_in (entry k v rest) d =
      elim (lookup k d) [ none ↦ false | some w ↦ json_eq v w ] && entries_in rest d

pub object_eq : Object → Object → Bool
object_eq a b = (size a == size b) && entries_in a b

-- `bool(value)`
abbrev pub truthy_json : Json → Bool
truthy_json null = false
truthy_json (bool b) = b
truthy_json (num n) = not (n == 0)
truthy_json (str s) = truthy s
truthy_json (arr nil) = false
truthy_json (arr (cons v a)) = true
truthy_json (obj empty) = false
truthy_json (obj (entry k v d)) = true

-- `d.keys()`
abbrev pub keys : Object → List String
keys empty = []
keys (entry k v d) = k ∷ keys d

-- ===== src/SafeYaml.antt =====
-- safe_yaml.py: attributes and objects that are read from YAML nodes or from JSON values. Parsing of
-- YAML text into nodes, `yaml.safe_load` of a scalar, `dateutil` and `str` are functions of `Formats`.
use greenwave.Prelude.{
  ℕ, String, Bool, List, [], ◌∷◌, map, Option, none, some, Dict, get, is_some, ◌==◌, string_eq,
  truthy, ◌<>◌, if◌then◌else◌,
}
use greenwave.Outcome.{Error, safe_yaml, yaml, unexpected, Result, ok, raise, ◌>>=◌}
use greenwave.Json.{
  Json, null, bool, str, arr, obj, Array, nil, cons, Object, empty, entry, lookup, keys,
  truthy_json,
}

-- The tag that the parser resolves for a scalar: a text, another plain type, or one that is written.
pub data Tag : Type 0 where
  plain_text plain_other : Tag
  written : String → Tag

-- Composed nodes. Tags stand without "!"; a mapping or a scalar may have one, and the keys of mappings
-- are scalars.
mutual
  pub data Node : Type 0 where
    scalar : Tag → String → Node
    sequence : Nodes → Node
    mapping : Option String → Entries → Node

  pub data Nodes : Type 0 where
    no_nodes : Nodes
    node : Node → Nodes → Nodes

  pub data Entries : Type 0 where
    no_entries : Entries
    named : String → Node → Entries → Entries

pub record Formats : Type 0 where
  -- `str(value)`, for values other than texts
  pub show : Json → String
  -- `dateutil.parser.parse`, on one scale of time; None is a ValueError
  pub parse : String → Option ℕ
  -- `yaml.safe_load` of the text of a scalar
  pub load_scalar : String → Result Json
  -- `yaml.compose_all`: the documents of a file, up to the first that is not well formed
  pub compose : String → List (Result Node)

-- An item of a list: a text, an object of a registered class, or another value.
pub data Value {ℓ} (O : Type ℓ) : Type ℓ where
  text : String → Value O
  object : O → Value O
  other : Value O

-- What each kind of attribute makes of a node or of a value, before the list attributes test the types
-- of the items.
pub record Field {ℓ} (O : Type ℓ) : Type ℓ where
  pub string : Result String
  pub boolean : Result Bool
  pub date_time : Result ℕ
  pub items : Result (List (Value O))

abbrev pub Fields {ℓ} : Type ℓ → Type ℓ
Fields O = Dict String (Field O)

-- Whether an object is made by `from_yaml` or by `from_value`.
pub data Loader : Type 0 where
  by_yaml by_value : Loader

abbrev characters : String → List String
characters String.[] = []
characters (String.◌∷◌ c s) = String.◌∷◌ c "" ∷ characters s

-- `str(value)`
abbrev pub text_of : Formats → Json → String
text_of formats (str s) = s
text_of formats v = formats.show v

-- `SafeYAMLBool.from_value`
unfoldable pub bool_value : Formats → Json → Result Bool
bool_value formats (bool b) = ok b
bool_value formats v = raise (safe_yaml ("Expected a boolean value, got: " <> text_of formats v))

-- `SafeYAMLDateTime.from_value`
unfoldable pub date_time_value : Formats → String → Result ℕ
date_time_value formats s = elim (formats.parse s) [
  | none ↦ raise (safe_yaml ("Could not parse string as date/time, got: " <> s))
  | some time ↦ ok time
]

-- What the loader's `construct_scalar` and `construct_sequence` say of another node.
abbrev wrong_node : String → String → Error
wrong_node expected found = yaml ("expected a " <> expected <> " node, but found " <> found)

-- A field on which no kind of attribute but a list may be read.
abbrev not_scalar {ℓ} : {O : Type ℓ} → String → Result (List (Value O)) → Field O
not_scalar found items = record {
  string = raise (wrong_node "scalar" found);
  boolean = raise (wrong_node "scalar" found);
  date_time = raise (wrong_node "scalar" found);
  items = items;
}

-- `safe_yaml_tag_to_class`: how an object of each class is made.
abbrev pub Registry {ℓ} : Type ℓ → Type ℓ
Registry O = Loader → String → Option (Fields O → Result O)

abbrev pub as_object {ℓ} : {O : Type ℓ} → Result O → Result (Value O)
as_object (ok o) = ok (object o)
as_object (raise e) = raise e

module _ {ℓ} {O : Type ℓ} (formats : Formats) (classes : Registry O) where
  -- The constructor that the YAML loader has for a tag.
  unfoldable pub construct : String → Result (Fields O) → Result (Value O)
  construct tag fields = elim (classes by_yaml tag) [
    | none ↦ raise (yaml ("could not determine a constructor for the tag '!" <> tag <> "'"))
    | some make ↦ as_object (fields >>= make)
  ]

  unfoldable mutual
    pub node_value : Node → Result (Value O)
    node_value (scalar plain_text s) = ok (text s)
    node_value (scalar plain_other s) = ok other
    node_value (scalar (written tag) s) =
        construct tag (if s == "" then ok [] else raise (unexpected "ValueError"))
    node_value (sequence ns) = ok other
    node_value (mapping none es) = ok other
    node_value (mapping (some tag) es) = construct tag (ok (entry_fields es))

    -- `construct_sequence`
    pub node_values : Nodes → Result (List (Value O))
    node_values no_nodes = ok []
    node_values (node n ns) =
        let rest = node_values ns in node_value n >>= λ v. rest >>= λ vs. ok (v ∷ vs)

    -- What `from_yaml` of each attribute makes of a node.
    pub node_field : Node → Field O
    node_field (scalar tag s) = record {
      string = ok s;
      boolean = formats.load_scalar s >>= bool_value formats;
      date_time = date_time_value formats s;
      items = raise (wrong_node "sequence" "scalar");
    }
    node_field (sequence ns) = not_scalar "sequence" (node_values ns)
    node_field (mapping tag es) = not_scalar "mapping" (raise (wrong_node "sequence" "mapping"))

    -- `{name_node.value: value_node for …}`: of equal keys the last counts.
    pub entry_fields : Entries → Fields O
    entry_fields no_entries = []
    entry_fields (named key n es) =
        let rest = entry_fields es in
        if is_some (get key rest) then rest else (key, node_field n) ∷ rest

  -- The class that the "type" of a list item names.
  unfoldable pub by_type : Option Json → Fields O → Result (Value O)
  by_type (some (str tag)) fields =
      if truthy tag
      then (elim (classes by_value tag) [
        | none ↦ raise (safe_yaml ("Key 'type' for an list item is not valid: " <> tag))
        | some make ↦ as_object (make fields)
      ])
      else raise (safe_yaml "Key 'type' is required for each list item")
  by_type (some (arr (cons v a))) fields = raise (unexpected "TypeError")
  by_type (some (obj (entry k v d))) fields = raise (unexpected "TypeError")
  by_type (some v) fields =
      if truthy_json v
      then raise (safe_yaml ("Key 'type' for an list item is not valid: " <> formats.show v))
      else raise (safe_yaml "Key 'type' is required for each list item")
  by_type none fields = raise (safe_yaml "Key 'type' is required for each list item")

  unfoldable mutual
    -- One turn of the loop of `SafeYAMLList.from_value`.
    pub json_value : Json → Result (Value O)
    json_value (str s) = ok (text s)
    json_value (obj d) = by_type (lookup "type" d) (json_fields d)
    json_value _ = ok other

    pub json_values : Array → Result (List (Value O))
    json_values nil = ok []
    json_values (cons v a) =
        let rest = json_values a in json_value v >>= λ w. rest >>= λ ws. ok (w ∷ ws)

    -- The loop: over a list, over the characters of a text or over the keys of a dictionary.
    pub json_items : Json → Result (List (Value O))
    json_items (arr a) = json_values a
    json_items (str s) = ok (map text (characters s))
    json_items (obj d) = ok (map text (keys d))
    json_items _ = raise (unexpected "TypeError")

    -- What `from_value` of each attribute makes of a value. None counts as absent.
    pub json_fields : Object → Fields O
    json_fields empty = []
    json_fields (entry key null d) = json_fields d
    json_fields (entry key v d) =
        (
          key,
          record {
            string = ok (text_of formats v);
            boolean = bool_value formats v;
            date_time = date_time_value formats (text_of formats v);
            items = json_items v;
          },
        )
        ∷ json_fields d

-- A failure of an attribute names it. `from_yaml` puts the label of the object before.
unfoldable pub about {ℓ} : {A : Type ℓ} → String → String → Result A → Result A
about prefix name (raise (safe_yaml message)) =
    raise (safe_yaml (prefix <> "Attribute '" <> name <> "': " <> message))
about prefix name (raise (yaml message)) =
    raise (safe_yaml (prefix <> "Attribute '" <> name <> "': " <> message))
about prefix name outcome = outcome

-- One turn of the loop over `safe_yaml_attributes`; no default stands for a required attribute.
unfoldable pub attribute {ℓ κ} :
    {O : Type ℓ} {A : Type κ}
    → String
    → String
    → Option A
    → (Field O → Result A)
    → Fields O
    → Result A
attribute prefix name default read fields = elim (get name fields) [
  | some field ↦ about prefix name (read field)
  | none ↦ elim default [
    | none ↦ raise (safe_yaml (prefix <> "Attribute '" <> name <> "' is required"))
    | some value ↦ ok value
  ]
]

-- `SafeYAMLList._from_value`, for texts and for objects.
unfoldable pub all_texts {ℓ} : {O : Type ℓ} → List (Value O) → Result (List String)
all_texts [] = ok []
all_texts (text s ∷ values) = all_texts values >>= λ rest. ok (s ∷ rest)
all_texts (_ ∷ values) = raise (safe_yaml "Expected list of str objects")

unfoldable pub all_objects {ℓ} : {O : Type ℓ} → String → List (Value O) → Result (List O)
all_objects name [] = ok []
all_objects name (object o ∷ values) = all_objects name values >>= λ rest. ok (o ∷ rest)
all_objects name (_ ∷ values) = raise (safe_yaml ("Expected list of " <> name <> " objects"))

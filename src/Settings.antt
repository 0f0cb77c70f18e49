-- ===== src/Settings.antt =====
-- utils.py: `load_config`. The attributes of a configuration class and the settings in a file are
-- dictionaries, as Flask's `from_object` and `from_pyfile` read them.
pub mod Precedence
use Prim.Native.Char.{code}
use greenwave.Prelude.{
  String, Bool, true, false, ◌||◌, Option, none, some, Dict, get, truthy, ◌==◌, string_eq, ◌<>◌,
  if◌then◌else◌,
}
use greenwave.Outcome.{Result, ok, raise, ◌>>=◌}
use greenwave.Json.{str, Object, assign, update}
use greenwave.Subject.{rsplit_once}

-- Where the settings come from.
pub record Origins : Type 0 where
  -- `os.environ`
  pub environ : Dict String String
  -- `os.getcwd()`, an absolute path without "." and ".."
  pub getcwd : String
  -- `Config.from_object`
  pub from_object : String → Object
  -- `Config.from_pyfile`, or the exception that it raises
  pub from_pyfile : String → Result Object

-- `os.getenv(name) == "true"`
abbrev pub is_set : Origins → String → Bool
is_set o name = elim (get name o.environ) [ none ↦ false | some value ↦ value == "true" ]

-- `os.path.join`, of an absolute path and a relative one
abbrev path_join : String → String → String
path_join base path = if base == "/" then "/" <> path else base <> "/" <> path

-- `os.path.normpath(os.path.join(base, "..", path))`, of such paths
abbrev join_to_parent : String → String → String
join_to_parent base path = elim (rsplit_once b'/' base) [
  | none ↦ "/" <> path
  | some (parent, last) ↦ parent <> "/" <> path
]

-- The class of the configuration.
unfoldable pub config_class : Origins → Option String → String
config_class o (some config_obj) = config_obj
config_class o none =
    if is_set o "TEST"
    then "greenwave.config.TestingConfig"
    else if is_set o "DEV" || is_set o "DOCS"
    then "greenwave.config.DevelopmentConfig"
    else "greenwave.config.ProductionConfig"

unfoldable pub default_config_file : Origins → String
default_config_file o =
    if is_set o "TEST"
    then path_join o.getcwd "conf/settings.py.example"
    else if is_set o "DEV"
    then path_join o.getcwd "conf/settings.py"
    else if is_set o "DOCS"
    then join_to_parent o.getcwd "conf/settings.py.example"
    else "/etc/greenwave/settings.py"

abbrev pub assign_if_given : Option String → String → Object → Object
assign_if_given none key config = config
assign_if_given (some value) key config =
    if truthy value then assign key (str value) config else config

-- `if os.environ.get(name): config[key] = os.environ[name]`
unfoldable pub override : Origins → String → String → Object → Object
override o name key config = assign_if_given (get name o.environ) key config

-- `os.environ.get("GREENWAVE_CONFIG", default_config_file)`
unfoldable pub config_file : Origins → String
config_file o = elim (get "GREENWAVE_CONFIG" o.environ) [
  | none ↦ default_config_file o
  | some file ↦ file
]

unfoldable pub load_config : Origins → Option String → Result Object
load_config o config_obj = do
  let defaults = o.from_object (config_class o config_obj)
  let with_types = override o "GREENWAVE_SUBJECT_TYPES_DIR" "SUBJECT_TYPES_DIR" defaults
  let with_policies = override o "GREENWAVE_POLICIES_DIR" "POLICIES_DIR" with_types
  custom ← o.from_pyfile (config_file o)
  ok (override o "SECRET_KEY" "SECRET_KEY" (update with_policies custom))

-- ===== src/Application.antt =====
-- app_factory.py: `create_app`, which loads the configuration, the policies and the subject types. Flask, the
-- set-up of logging, tracing and caches, and the routes are left out; the contents of the files of a
-- directory and the loading of subject types are functions of `Installation`.

pub mod Started
use text.Mathlib.Text.{starts_with}
use greenwave.Prelude.{
  ℕ, zero, suc, String, Bool, true, false, ◌&&◌, List, Option, none, some, ◌<>◌, truthy, ◌==◌,
  string_eq, if◌then◌else◌,
}
use greenwave.Outcome.{unexpected, Result, ok, raise, ◌>>=◌}
use greenwave.Json.{Json, str, obj, Object, lookup, assign, truthy_json}
use greenwave.Announcement.{at}
use greenwave.Subject.{SubjectType}
use greenwave.SafeYaml.{Formats}
use greenwave.Policy.{Policy}
use greenwave.Policy.Loading.{load_policies}
use greenwave.Settings.{Origins, load_config}

pub record Installation : Type 0 where
  pub origins : Origins
  pub formats : Formats
  -- the contents of the files in a directory that end in ".yaml"
  pub yaml_files : String → List String
  pub load_subject_types : String → Result (List SubjectType)

-- `app.config`
pub record App : Type 0 where
  pub config : Object
  pub policies : List Policy
  pub subject_types : List SubjectType

abbrev pub default_secret_key : String
default_secret_key = "replace-me-with-something-random"

abbrev pub is_default_secret_key : Option Json → Bool
is_default_secret_key (some (str key)) = key == default_secret_key
is_default_secret_key _ = false

abbrev pub refuse_if : Bool → Result (Unit {0})
refuse_if bad = if bad then raise (unexpected "Warning") else ok tt

-- The test of the secret key.
unfoldable pub check_secret_key : Object → Result (Unit {0})
check_secret_key config = do
  production ← at "PRODUCTION" (obj config)
  refuse_if (truthy_json production && is_default_secret_key (lookup "SECRET_KEY" config))

-- `text.replace(old, new)`, for a text `old` with so many characters behind its first one.
unfoldable pub replace_from : ℕ → String → ℕ → String → String → String
replace_from skip old behind new String.[] = ""
replace_from (suc skip) old behind new (String.◌∷◌ c s) = replace_from skip old behind new s
replace_from zero old behind new (String.◌∷◌ c s) =
    let found = new <> replace_from behind old behind new s in
    let other = String.◌∷◌ c (replace_from zero old behind new s) in
    if starts_with (String.◌∷◌ c s) old then found else other

abbrev pub base_url_field : String
base_url_field = "{DIST_GIT_BASE_URL}"

abbrev pub is_given : Option Json → Bool
is_given none = false
is_given (some v) = truthy_json v

-- The template of the remote rule files, with the address of the git server in it. Values that are no
-- texts have no `replace`.
abbrev pub filled_in : Option Json → Option Json → Object → Result Object
filled_in (some (str template)) (some (str url)) config =
    ok (assign "DIST_GIT_URL_TEMPLATE" (str (replace_from 0 base_url_field 18 url template)) config)
filled_in _ _ config = raise (unexpected "AttributeError")

unfoldable pub with_base_url : Object → Result Object
with_base_url config =
    let template = lookup "DIST_GIT_URL_TEMPLATE" config in
    let url = lookup "DIST_GIT_BASE_URL" config in
    if is_given template && is_given url then filled_in template url config else ok config

-- A directory in the settings.
abbrev pub directory : String → Object → Result String
directory key config = do v ← at key (obj config); as_text v
  where
    as_text : Json → Result String
    as_text (str s) = ok s
    as_text v = raise (unexpected "TypeError")

unfoldable pub create_app : Installation → Option String → Result App
create_app i config_obj = do
  config ← load_config i.origins config_obj
  checked ← check_secret_key config
  policies_dir ← directory "POLICIES_DIR" config
  policies ← load_policies i.formats (i.yaml_files policies_dir)
  subject_types_dir ← directory "SUBJECT_TYPES_DIR" config
  subject_types ← i.load_subject_types subject_types_dir
  with_url ← with_base_url config
  headers ← at "RESPONSE_HEADERS" (obj with_url)
  cache ← at "CACHE" (obj with_url)
  ok (record { config = with_url; policies = policies; subject_types = subject_types })

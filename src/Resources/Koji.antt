-- ===== src/Resources/Koji.antt =====
-- resources.py: the builds and tasks of Koji, the SCM reference of a build, and remote rule files from
-- the git web UI. XML-RPC and HTTP requests, `urlparse`, the clock and `str` are functions of `Koji`.
-- The caches of these functions are left out: what Koji says of a build does not change.
pub mod Urls
pub mod Unknown
use greenwave.Prelude.Text.{strip_suffix}
use greenwave.Prelude.{
  ℕ, zero, suc, String, Bool, not, List, [], ◌∷◌, ◌++◌, Option, none, some, ◌==◌, string_eq, truthy,
  ◌<>◌, if◌then◌else◌,
}
use greenwave.Outcome.{
  Result, ok, raise, ◌>>=◌, not_found, bad_gateway, koji_scm_url_parse, no_source, connection,
  os_error, unexpected,
}
use greenwave.Json.{Json, null, str, arr, obj, nil, cons, Object, empty, entry, lookup, truthy_json}
use greenwave.SafeYaml.{Formats, text_of}
use greenwave.Subject.{rsplit}
use greenwave.Policy.Services.{Scm, Services}
use greenwave.Resources.{Response, retrieve_data}

-- How an XML-RPC call ends: with a value, with a Fault (its text and code), or without a connection.
pub data Reply {ℓ} (A : Type ℓ) : Type ℓ where
  answered : A → Reply A
  fault : String → String → Reply A
  broken : String → Reply A

pub record Koji : Type 0 where
  pub url : String
  pub get_build : String → Reply Json
  pub get_task_request : Json → Reply Json
  -- `urlparse(source).path` and `urlparse(source).fragment`
  pub url_path : String → String
  pub url_fragment : String → String
  pub formats : Formats
  -- `datetime.now`
  pub now : ℕ
  -- the git web UI
  pub get_page : String → Response String

-- The value of a call; a Fault is a bad gateway.
abbrev pub value_of : String → Reply Json → Result Json
value_of problem (answered v) = ok v
value_of problem (fault text code) =
    raise (bad_gateway (problem <> ": " <> text <> " (code: " <> code <> ")"))
value_of problem (broken message) = raise (os_error message)

-- The second item of a list, if it is a text.
abbrev target_of : Json → Option String
target_of (arr (cons v (cons (str target) a))) = some target
target_of _ = none

unfoldable pub retrieve_koji_build_target : Koji → Json → Result (Option String)
retrieve_koji_build_target koji task_id = do
  task_request ←
      value_of ("Failed to get Koji task request ID " <> text_of koji.formats task_id)
        (koji.get_task_request task_id)
  ok (target_of task_request)

-- `value[key]` of a value that may be no dictionary
abbrev item : String → Option Json → Option Json
item key (some (obj d)) = lookup key d
item key _ = none

-- The task, the source and the creation time.
pub record BuildAttributes : Type 0 where
  pub task_id : Option Json
  pub source : Option Json
  pub creation_time : Option Json

abbrev source_of : Object → Option Json
source_of build = elim (lookup "source" build) [
  | none ↦ item "original_url" (item "source" (lookup "extra" build))
  | some v ↦
      if truthy_json v then some v else item "original_url" (item "source" (lookup "extra" build))
]

attributes_of : Koji → String → Json → Result BuildAttributes
attributes_of koji nvr (obj (entry k v d)) = ok (record {
  task_id = lookup "task_id" (entry k v d);
  source = source_of (entry k v d);
  creation_time = lookup "creation_time" (entry k v d);
})
attributes_of koji nvr build =
    if truthy_json build
    then raise (unexpected "AttributeError")
    else raise
        (not_found ("Failed to find Koji build for \"" <> nvr <> "\" at \"" <> koji.url <> "\""))

-- `_retrieve_koji_build_attributes`
unfoldable pub retrieve_koji_build_attributes : Koji → String → Result BuildAttributes
unfolding attributes_of
retrieve_koji_build_attributes koji nvr = do
  build ← value_of ("Failed to get Koji build for \"" <> nvr <> "\"") (koji.get_build nvr)
  attributes_of koji nvr build

unfoldable pub retrieve_koji_build_task_id : Koji → String → Result (Option Json)
retrieve_koji_build_task_id koji nvr = do
  attributes ← retrieve_koji_build_attributes koji nvr
  ok attributes.task_id

unfoldable pub retrieve_koji_build_source : Koji → String → Result (Option Json)
retrieve_koji_build_source koji nvr = do
  attributes ← retrieve_koji_build_attributes koji nvr
  ok attributes.source

-- `str` of a value that may be None
abbrev text_or_none : Formats → Option Json → String
text_or_none formats none = "None"
text_or_none formats (some v) = text_of formats v

-- A time that cannot be read is now.
unfoldable pub retrieve_koji_build_creation_time : Koji → String → Result ℕ
retrieve_koji_build_creation_time koji nvr = do
  attributes ← retrieve_koji_build_attributes koji nvr
  elim (koji.formats.parse (text_or_none koji.formats attributes.creation_time)) [
    | none ↦ ok koji.now
    | some time ↦ ok time
  ]

-- `url.path.rsplit("/", 2)[-2]`, where there are three parts
abbrev pub namespace_of : List String → String
namespace_of (before ∷ namespace ∷ last ∷ []) = namespace
namespace_of _ = ""

-- `url.path.split("/")[-1]`
abbrev pub last_part : List String → String
last_part [] = ""
last_part (s ∷ []) = s
last_part (s ∷ t ∷ rest) = last_part (t ∷ rest)

abbrev at_koji : String → Koji → String
at_koji nvr koji = "Koji build \"" <> nvr <> "\" at \"" <> koji.url <> "\""

scm_of : Koji → String → String → Result Scm
scm_of koji nvr source =
    if truthy (koji.url_fragment source)
    then ok (record {
      namespace = namespace_of (rsplit b'/' 2 (koji.url_path source));
      pkg_name = strip_suffix ".git" (last_part (rsplit b'/' 1 (koji.url_path source)));
      rev = koji.url_fragment source;
    })
    else raise (
        koji_scm_url_parse (
          "Failed to parse SCM URL \""
          <> source
          <> "\" from "
          <> at_koji nvr koji
          <> " (missing URL fragment with SCM revision information)"))

abbrev no_source_message : String → Koji → String
no_source_message nvr koji =
    "Failed to retrieve SCM URL from "
    <> at_koji nvr koji
    <> " (expected SCM URL in \"source\" attribute)"

unfoldable pub retrieve_scm_from_koji_build : Koji → String → Option Json → Result Scm
unfolding scm_of
retrieve_scm_from_koji_build koji nvr (some (str source)) =
    if truthy source then scm_of koji nvr source else raise (no_source (no_source_message nvr koji))
retrieve_scm_from_koji_build koji nvr none = raise (no_source (no_source_message nvr koji))
retrieve_scm_from_koji_build koji nvr (some v) =
    if truthy_json v
    then raise (unexpected "AttributeError")
    else raise (no_source (no_source_message nvr koji))

-- A connection that fails is reported as such.
abbrev as_connection {ℓ} : {A : Type ℓ} → Result A → Result A
as_connection (raise (os_error message)) = raise (connection ("Could not reach Koji: " <> message))
as_connection outcome = outcome

unfoldable pub retrieve_scm_from_koji : Koji → String → Result Scm
retrieve_scm_from_koji koji nvr = do
  source ← as_connection (retrieve_koji_build_source koji nvr)
  retrieve_scm_from_koji_build koji nvr source

-- The content of a rule file, or none where there is no such page.
unfoldable pub retrieve_yaml_remote_rule : Koji → String → Result (Option String)
retrieve_yaml_remote_rule koji url =
    if (koji.get_page url).status_code == "404"
    then ok none
    else (do content ← retrieve_data (koji.get_page url); ok (some content))

-- The services of a decision, with those that Koji and the git web UI give.
unfoldable pub with_koji : Koji → Services → Services
with_koji koji services = record services {
  retrieve_scm_from_koji = retrieve_scm_from_koji koji;
  retrieve_yaml_remote_rule = retrieve_yaml_remote_rule koji;
  retrieve_koji_build_creation_time = retrieve_koji_build_creation_time koji;
}

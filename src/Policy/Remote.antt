-- ===== src/Policy/Remote.antt =====
-- `RemoteRule._get_sub_policies`: from the configured URL templates to the policies of the first
-- remote rule file that is found.
pub mod Loaded
use Prim.Native.String
use text.Mathlib.Text.{starts_with, find?}
use greenwave.Prelude.Text.{strip_suffix}
use greenwave.Prelude.{
  ℕ, zero, suc, String, Bool, true, false, not, ◌&&◌, ◌||◌, List, [], ◌∷◌, ◌++◌, Option, none, some,
  Dict, get, put, ◌==◌, string_eq, is_empty, is_some, truthy, ◌<>◌, if◌then◌else◌,
}
use greenwave.Format.{format}
use greenwave.Outcome.{
  Error, Result, ok, raise, not_found, bad_gateway, koji_scm_url_parse, no_source, safe_yaml,
  runtime, unexpected, ◌>>=◌, filter_by,
}
use greenwave.Subject.{Subject}
use greenwave.Answer.{
  Answer, satisfied, unsatisfied, failed_fetch_remote_rule_yaml, missing_remote_rule_yaml,
  fetched_remote_rule_yaml, invalid_remote_rule_yaml,
}
use greenwave.Policy.{Policy, remote, matches_sub_policy}
use greenwave.Policy.Loading.{load_documents}
use greenwave.Policy.Services.{Templates, one, several, Config, Scm, Services}

-- A template or a list of them that is not empty.
abbrev configured : Option Templates → Option (List String)
configured none = none
configured (some (one t)) = if truthy t then some (t ∷ []) else none
configured (some (several ts)) = if is_empty ts then none else some ts

abbrev or_else : Option (List String) → Option (List String) → Option (List String)
or_else none b = b
or_else (some a) b = some a

-- How a subject is named in messages.
abbrev pub describe : Subject → String
describe s = "subject_type '" <> s.subject_type.id <> "', subject_identifier '" <> s.item <> "'"

unfoldable pub remote_url_templates : Config → Subject → Result (List String)
remote_url_templates config s =
    elim (or_else (configured (get s.subject_type.id config.remote_rule_policies)) (
      or_else (configured (get "*" config.remote_rule_policies))
        (configured config.dist_git_url_template))) [
          | none ↦ raise (
              runtime (
                "Cannot use a remote rule for "
                <> describe s
                <> " subject as it has not been configured"))
          | some urls ↦ ok urls
        ]

abbrev contains : String → String → Bool
contains text piece = is_some (find? text piece)

-- `text[n:]`
drop_chars : ℕ → String → String
drop_chars zero s = s
drop_chars (suc n) String.[] = ""
drop_chars (suc n) (String.◌∷◌ c s) = drop_chars n s

scm_params : Scm → Dict String String
unfolding strip_suffix
scm_params scm =
    ("rev", scm.rev)
    ∷ (
      "pkg_name",
      if scm.namespace == "containers"
          then strip_suffix "-container" scm.pkg_name
          else scm.pkg_name,
    )
    ∷ ("pkg_namespace", if truthy scm.namespace then scm.namespace <> "/" else scm.namespace)
    ∷ []

unfoldable pub needs_scm : String → Bool
needs_scm url = contains url "{pkg_name}" || contains url "{pkg_namespace}" || contains url "{rev}"

subject_id : Subject → String
unfolding drop_chars
subject_id s = if starts_with s.item "sha256:" then drop_chars 7 s.item else s.item

-- The last lines of the loop of `_remote_urls`.
formatted : Subject → String → Dict String String → Result String
unfolding subject_id
formatted s url params =
    elim (format url
      (if contains url "{subject_id}" then put "subject_id" (subject_id s) params else params)) [
        | none ↦ raise (unexpected "KeyError")
        | some u ↦ ok u
      ]

-- One round of `_remote_urls`: a URL to try, or none where Koji has no source for the build.
unfoldable pub remote_url : Services → Subject → String → Result (Option String)
unfolding needs_scm scm_params formatted
remote_url services s template =
    if needs_scm template
    then elim (services.retrieve_scm_from_koji s.item) [
      | raise (no_source _) ↦ ok none
      | raise e ↦ raise e
      | ok scm ↦ do u ← formatted s template (scm_params scm); ok (some u)
    ]
    else (do u ← formatted s template []; ok (some u))

-- How the loop of `_get_sub_policies` ends, with the URLs that it has tried: with the last response,
-- or with an exception.
pub data Search : Type 0 where
  found : List String → String → String → Search
  missing : List String → Search
  failed : List String → Error → Search

unfoldable pub search_urls : Services → Subject → List String → List String → Search
unfolding remote_url
search_urls services s tried [] = missing tried
search_urls services s tried (template ∷ rest) = elim (remote_url services s template) [
  | raise e ↦ failed tried e
  | ok none ↦ search_urls services s tried rest
  | ok (some url) ↦ elim (services.retrieve_yaml_remote_rule url) [
    | raise e ↦ failed (tried ++ url ∷ []) e
    | ok none ↦ search_urls services s (tried ++ url ∷ []) rest
    | ok (some response) ↦ found (tried ++ url ∷ []) url response
  ]
]

-- `self.sources or _remote_url_templates(subject)`
unfoldable pub templates_of : Config → Subject → List String → Result (List String)
unfolding remote_url_templates
templates_of config s sources =
    if is_empty sources then remote_url_templates config s else ok sources

unfoldable pub find_remote_rule : Services → Subject → List String → Search
unfolding templates_of search_urls
find_remote_rule services s sources = elim (templates_of services.config s sources) [
  | raise e ↦ failed [] e
  | ok urls ↦ search_urls services s [] urls
]

-- The `except` clauses: the answer that stands for an exception, or the exception that is raised.
unfoldable pub failed_search : Subject → List String → Error → Result (List Policy × List Answer)
failed_search s tried (not_found _) = ok (
  [],
  unsatisfied (failed_fetch_remote_rule_yaml s tried ("Koji build not found for " <> describe s))
      ∷ [],
)
failed_search s tried (koji_scm_url_parse message) =
    ok ([], unsatisfied (failed_fetch_remote_rule_yaml s tried message) ∷ [])
failed_search s tried (bad_gateway message) = raise (bad_gateway message)
failed_search s tried _ = raise (bad_gateway "Unexpected error while fetching remote policies")

unfoldable pub safe_load_all : Services → String → Result (List Policy)
safe_load_all services content =
    load_documents services.formats remote (services.formats.compose content)

set_source : String → List Policy → List Policy
set_source url [] = []
set_source url (p ∷ rest) = record p { source = some url } ∷ set_source url rest

-- What follows the loading of a rule file that was found.
unfoldable pub sub_policies_of :
    Policy → Subject → String → Result (List Policy) → Result (List Policy × List Answer)
unfolding set_source
sub_policies_of p s url (ok policies) = do
  subs ← filter_by (matches_sub_policy p) (set_source url policies)
  ok (subs, satisfied (fetched_remote_rule_yaml s url) ∷ [])
sub_policies_of p s url (raise (safe_yaml message)) = ok (
  [],
  satisfied (fetched_remote_rule_yaml s url)
      ∷ unsatisfied (invalid_remote_rule_yaml s "invalid-gating-yaml" message url)
      ∷ [],
)
sub_policies_of p s url (raise e) = raise e

-- What follows the search.
unfoldable pub conclude :
    Services → Bool → Policy → Subject → Search → Result (List Policy × List Answer)
conclude services required p s (failed tried e) = failed_search s tried e
conclude services required p s (missing tried) =
    ok ([], if required then unsatisfied (missing_remote_rule_yaml s tried) ∷ [] else [])
conclude services required p s (found tried url response) =
    sub_policies_of p s url (safe_load_all services response)

unfoldable pub get_sub_policies :
    Services → List String → Bool → Policy → Subject → Result (List Policy × List Answer)
get_sub_policies services sources required p s =
    conclude services required p s (find_remote_rule services s sources)

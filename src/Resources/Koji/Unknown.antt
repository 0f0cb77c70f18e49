-- ===== src/Resources/Koji/Unknown.antt =====
-- A remote rule about a build that Koji does not know.
use greenwave.Prelude.{String, ◌≡◌, refl, Bool, true, List, [], ◌∷◌, ◌<>◌}
use greenwave.Outcome.{Error, ok, raise, not_found}
use greenwave.Json.{null}
use greenwave.Subject.{Subject}
use greenwave.Answer.{unsatisfied, failed_fetch_remote_rule_yaml}
use greenwave.Policy.{Policy}
use greenwave.Policy.Services.{Services}
use greenwave.Policy.Remote.{
  describe, needs_scm, remote_url, search_urls, templates_of, find_remote_rule, failed_search,
  conclude, get_sub_policies, failed,
}
use greenwave.Resources.Koji.{
  Koji, answered, attributes_of, retrieve_koji_build_attributes, retrieve_koji_build_source,
  retrieve_scm_from_koji, with_koji,
}

retrieve_scm_from_koji-unknown :
    (koji : Koji) (nvr : String)
    → koji.get_build nvr ≡ answered null
    → retrieve_scm_from_koji koji nvr
      ≡ raise
          (not_found ("Failed to find Koji build for \"" <> nvr <> "\" at \"" <> koji.url <> "\""))
unfolding retrieve_scm_from_koji retrieve_koji_build_source retrieve_koji_build_attributes
    attributes_of
retrieve_scm_from_koji-unknown koji nvr h = rw h refl

remote_url-unknown :
    (koji : Koji) (services : Services) (s : Subject) (template : String)
    → koji.get_build s.item ≡ answered null
    → needs_scm template ≡ true
    → remote_url (with_koji koji services) s template
      ≡ raise (
          not_found
            ("Failed to find Koji build for \"" <> s.item <> "\" at \"" <> koji.url <> "\""))
unfolding remote_url with_koji
remote_url-unknown koji services s template h needed =
    rw (needed, retrieve_scm_from_koji-unknown koji s.item h) refl

abbrev no_build : Koji → String → Error
no_build koji nvr =
    not_found ("Failed to find Koji build for \"" <> nvr <> "\" at \"" <> koji.url <> "\"")

search_urls-unknown :
    (koji : Koji) (services : Services) (template : String) (rest : List String) (s : Subject)
    → koji.get_build s.item ≡ answered null
    → needs_scm template ≡ true
    → search_urls (with_koji koji services) s [] (template ∷ rest)
      ≡ failed [] (no_build koji s.item)
unfolding search_urls
search_urls-unknown koji services template rest s h needed =
    rw (remote_url-unknown koji services s template h needed, search_urls) refl

find_remote_rule-unknown :
    (koji : Koji) (services : Services) (template : String) (rest : List String) (s : Subject)
    → koji.get_build s.item ≡ answered null
    → needs_scm template ≡ true
    → find_remote_rule (with_koji koji services) s (template ∷ rest)
      ≡ failed [] (no_build koji s.item)
unfolding find_remote_rule templates_of
find_remote_rule-unknown koji services template rest s h needed =
    search_urls-unknown koji services template rest s h needed

pub get_sub_policies-unknown :
    (koji : Koji) (services : Services) (template : String) (rest : List String) (required : Bool)
    (p : Policy) (s : Subject)
    → koji.get_build s.item ≡ answered null
    → needs_scm template ≡ true
    → get_sub_policies (with_koji koji services) (template ∷ rest) required p s
      ≡ ok (
        [],
        unsatisfied (failed_fetch_remote_rule_yaml s [] ("Koji build not found for " <> describe s))
            ∷ [],
      )
unfolding get_sub_policies conclude failed_search
get_sub_policies-unknown koji services template rest required p s h needed =
    rw (find_remote_rule-unknown koji services template rest s h needed) refl

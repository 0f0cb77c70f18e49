-- ===== src/Policy/Remote/Loaded.antt =====
-- What is loaded from a remote rule file has been validated.
use greenwave.Prelude.{String, ◌≡◌, refl, subst, Bool, false, List, [], ◌∷◌, arith, any, All}
use greenwave.Outcome.{
  Error, Result, ok, raise, not_found, safe_yaml, filter_by, bind-eq-ok, All-filter_by,
}
use greenwave.Subject.{Subject}
use greenwave.Answer.{Answer, satisfied, fetched_remote_rule_yaml}
use greenwave.Policy.{Policy, remote, is_remote, validate, matches_sub_policy}
use greenwave.SafeYaml.{Formats, Node}
use greenwave.Policy.Services.{Services}
use greenwave.Policy.Loading.Loaded.{load_documents-All}
use greenwave.Policy.Loading.{validated, load_documents}
use greenwave.Policy.Remote.{
  Search, found, missing, failed, find_remote_rule, failed_search, safe_load_all, set_source,
  sub_policies_of, conclude, get_sub_policies,
}

abbrev pub NoRemoteRule : Policy → Type 0
NoRemoteRule p = any is_remote p.rules ≡ false

-- A policy of a remote rule file that is accepted holds no remote rule.
validated-NoRemoteRule :
    (p q : Policy) → validated (record p { policy_class = remote }) ≡ ok q → NoRemoteRule q
unfolding validated validate
validated-NoRemoteRule p q h = ground arith

pub load_documents-NoRemoteRule :
    (formats : Formats) (documents : List (Result Node)) (ps : List Policy)
    → load_documents formats remote documents ≡ ok ps
    → All NoRemoteRule ps
load_documents-NoRemoteRule formats documents ps h =
    load_documents-All NoRemoteRule formats remote validated-NoRemoteRule documents ps h

set_source-NoRemoteRule :
    (url : String) (ps : List Policy) → All NoRemoteRule ps → All NoRemoteRule (set_source url ps)
unfolding set_source
set_source-NoRemoteRule url [] h = tt
set_source-NoRemoteRule url (p ∷ ps) h = (h.0, set_source-NoRemoteRule url ps h.1)

sub_policies_of-NoRemoteRule :
    (p : Policy) (s : Subject) (url : String) (loaded : Result (List Policy)) (subs : List Policy)
    (answers : List Answer)
    → ((ps : List Policy) → loaded ≡ ok ps → All NoRemoteRule ps)
    → sub_policies_of p s url loaded ≡ ok (subs, answers)
    → All NoRemoteRule subs
unfolding sub_policies_of
sub_policies_of-NoRemoteRule p s url (ok ps) subs answers valid h =
    let fetched : List Answer = satisfied (fetched_remote_rule_yaml s url) ∷ [] in
    let (kept, filtered, e) =
      bind-eq-ok (filter_by (matches_sub_policy p) (set_source url ps)) (λ kept. ok (kept, fetched))
        h in
    let same : kept ≡ subs = ground arith in
    subst (All NoRemoteRule) same (
      All-filter_by NoRemoteRule (matches_sub_policy p) (set_source url ps) kept filtered
        (set_source-NoRemoteRule url ps (valid ps refl)))
sub_policies_of-NoRemoteRule p s url (raise (safe_yaml message)) subs answers valid h =
    let same : [] ≡ subs = ground arith in subst (All NoRemoteRule) same tt
sub_policies_of-NoRemoteRule p s url (raise e) subs answers valid h = absurd (ground arith)

failed_search-empty :
    (s : Subject) (tried : List String) (x : Error) (subs : List Policy) (answers : List Answer)
    → failed_search s tried x ≡ ok (subs, answers)
    → subs ≡ []
unfolding failed_search
failed_search-empty s tried (not_found message) subs answers h = ground arith
failed_search-empty s tried x subs answers h = ground arith

conclude-NoRemoteRule :
    (services : Services) (required : Bool) (p : Policy) (s : Subject) (search_end : Search)
    (subs : List Policy) (answers : List Answer)
    → conclude services required p s search_end ≡ ok (subs, answers)
    → All NoRemoteRule subs
unfolding conclude safe_load_all
conclude-NoRemoteRule services required p s (failed tried x) subs answers h =
    rw (failed_search-empty s tried x subs answers h) tt
conclude-NoRemoteRule services required p s (missing tried) subs answers h =
    let same : [] ≡ subs = ground arith in subst (All NoRemoteRule) same tt
conclude-NoRemoteRule services required p s (found tried url response) subs answers h =
    let documents : List (Result Node) = services.formats.compose response in
    sub_policies_of-NoRemoteRule p s url (load_documents services.formats remote documents) subs
      answers (load_documents-NoRemoteRule services.formats documents) h

-- No policy of a remote rule file holds a remote rule, whatever the file.
pub get_sub_policies-NoRemoteRule :
    (services : Services) (sources : List String) (required : Bool) (p : Policy) (s : Subject)
    (subs : List Policy) (answers : List Answer)
    → get_sub_policies services sources required p s ≡ ok (subs, answers)
    → All NoRemoteRule subs
unfolding get_sub_policies
get_sub_policies-NoRemoteRule services sources required p s subs answers h =
    conclude-NoRemoteRule services required p s (find_remote_rule services s sources) subs answers h

-- ===== src/Resources/Koji/Urls.antt =====
-- The SCM reference of a build, from the URL of its source.
use Prim.Native.Char.{Char}
use text.Mathlib.TextLemmas.{nil-append, cons-append, append_assoc}
use greenwave.Prelude.Text.{strip_suffix}
use greenwave.Prelude.{
  ℕ, suc, ◌+◌, String, ◌≡◌, refl, ap, true, false, some, arith, truthy, ◌==◌, ==_iff, ==_refl,
  string_eq, ◌<>◌, Bool-cases, inl, inr,
}
use greenwave.Outcome.{ok}
use greenwave.Json.{str}
use greenwave.Subject.{rsplit}
use greenwave.Subject.Names.{Without, rsplit-append}
use greenwave.Resources.Koji.{Koji, namespace_of, last_part, scm_of, retrieve_scm_from_koji_build}

abbrev size_of : String → ℕ
size_of String.[] = 0
size_of (String.◌∷◌ c s) = suc (size_of s)

size_of-append : (s t : String) → size_of (s <> t) ≡ size_of s + size_of t
size_of-append String.[] t = rw nil-append (omega arith)
size_of-append (String.◌∷◌ c s) t = rw cons-append (omega (arith, size_of-append s t))

longer_differs : (c : Char) (s t : String) → (String.◌∷◌ c (s <> t) == t) ≡ false
longer_differs c s t = elim (Bool-cases (String.◌∷◌ c (s <> t) == t)) [
  | inr differs ↦ differs
  | inl same ↦
      let equal : String.◌∷◌ c (s <> t) ≡ t = ground (arith, ==_iff (String.◌∷◌ c (s <> t)) t) in
      let sizes : size_of (String.◌∷◌ c (s <> t)) ≡ size_of t = ap size_of equal in
      absurd (omega (arith, size_of-append s t))
]

strip_suffix_self : (t : String) → strip_suffix t t ≡ ""
unfolding strip_suffix
strip_suffix_self String.[] = refl
strip_suffix_self (String.◌∷◌ c t) = rw (==_refl {A = String}) refl

-- A suffix that was put behind a text is cut off, and nothing else.
strip_suffix-append : (suffix s : String) → strip_suffix suffix (s <> suffix) ≡ s
unfolding strip_suffix
strip_suffix-append suffix String.[] = rw nil-append (strip_suffix_self suffix)
strip_suffix-append suffix (String.◌∷◌ c s) =
    rw (cons-append, strip_suffix)
      (rw (longer_differs c s suffix, strip_suffix-append suffix s) refl)

Without-append : (sep : ℕ) (s t : String) → Without sep s → Without sep t → Without sep (s <> t)
Without-append sep String.[] t hs ht = rw nil-append ht
Without-append sep (String.◌∷◌ c s) t hs ht = rw cons-append (hs.0, Without-append sep s t hs.1 ht)

abbrev slash : Char
slash = "/"

-- Of a path that ends in a namespace and a repository, both are found, whatever the path begins with.
path_parts :
    (before namespace name : String)
    → Without b'/' namespace
    → Without b'/' name
    → (namespace_of (rsplit b'/' 2 (before <> "/" <> namespace <> "/" <> name)) ≡ namespace)
      × (last_part (rsplit b'/' 1 (before <> "/" <> namespace <> "/" <> name)) ≡ name)
unfolding rsplit
path_parts before namespace name hs hn =
    let regroup : before <> "/" <> namespace <> "/" <> name
        ≡ (before <> "/" <> namespace) <> "/" <> name =
      simp append_assoc in
    rw
      (
        regroup,
        rsplit-append slash 1 (before <> "/" <> namespace) name hn,
        rsplit-append slash 0 (before <> "/" <> namespace) name hn,
        rsplit-append slash 0 before namespace hs,
      )
      (refl, refl)

-- Where the fragment of a source URL names a revision and its path ends in a namespace, a slash and a
-- pkg_name with ".git" behind it, the SCM reference of the build is that namespace, that pkg_name and
-- that revision, whatever the path begins with.
pub retrieve_scm_from_koji_build-git :
    (koji : Koji) (nvr source before namespace pkg_name rev : String)
    → truthy source ≡ true
    → koji.url_path source ≡ before <> "/" <> namespace <> "/" <> pkg_name <> ".git"
    → koji.url_fragment source ≡ rev
    → truthy rev ≡ true
    → Without b'/' namespace
    → Without b'/' pkg_name
    → retrieve_scm_from_koji_build koji nvr (some (str source))
      ≡ ok (record { namespace = namespace; pkg_name = pkg_name; rev = rev })
unfolding retrieve_scm_from_koji_build scm_of
retrieve_scm_from_koji_build-git koji nvr source before namespace pkg_name rev given path fragment
      named hs hp =
    let (found, last) =
      path_parts before namespace (pkg_name <> ".git") hs
        (Without-append b'/' pkg_name ".git" hp (omega arith)) in
    rw (given, fragment, named, path, found, last, strip_suffix-append ".git" pkg_name) refl

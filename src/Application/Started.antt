-- ===== src/Application/Started.antt =====
-- What holds of every application that starts.
use greenwave.Prelude.{
  String, Bool, true, false, ◌&&◌, Option, some, ◌≡◌, refl, ◌∙◌, arith, All, if◌then◌else◌,
  Option-cases, inl, inr,
}
use greenwave.Outcome.{ok, Ensures, Ensures-step, Ensures-ok}
use greenwave.Json.{Json, str, obj, Object, lookup, lookup-assign, truthy_json}
use greenwave.Announcement.{at}
use greenwave.Policy.Loading.{load_policies}
use greenwave.Policy.Loading.Loaded.{HasContexts, load_policies-HasContexts}
use greenwave.Settings.{load_config}
use greenwave.Application.{
  Installation, App, is_default_secret_key, check_secret_key, refuse_if, is_given, filled_in,
  with_base_url, directory, create_app,
}

-- In production, with the secret key that everyone knows.
abbrev pub is_exposed : Object → Bool
is_exposed config =
    is_given (lookup "PRODUCTION" config) && is_default_secret_key (lookup "SECRET_KEY" config)

at-lookup : (key : String) (d : Object) (v : Json) → at key (obj d) ≡ ok v → lookup key d ≡ some v
unfolding at
at-lookup key d v found = elim (Option-cases (lookup key d)) [
  | inl absent ↦ absurd (ground (arith, absent, found))
  | inr (w, there) ↦ ground (arith, there, found)
]

refuse_if-Ensures : (b : Bool) → Ensures (λ _. b ≡ false) (refuse_if b)
refuse_if-Ensures true = tt
refuse_if-Ensures false = refl

check_secret_key-is_exposed :
    (config : Object) → Ensures (λ _. is_exposed config ≡ false) (check_secret_key config)
unfolding check_secret_key
check_secret_key-is_exposed config =
    Ensures-step (λ _. is_exposed config ≡ false) (at "PRODUCTION" (obj config)) _
      λ v found.
        rw (at-lookup "PRODUCTION" config v found)
          (refuse_if-Ensures (truthy_json v && is_default_secret_key (lookup "SECRET_KEY" config)))

filled_in-is_exposed :
    (template url : Option Json) (config : Object)
    → Ensures (λ d. is_exposed d ≡ is_exposed config) (filled_in template url config)
filled_in-is_exposed (some (str template)) (some (str url)) config = simp lookup-assign
filled_in-is_exposed _ _ config = tt

with_base_url-is_exposed :
    (config : Object) → Ensures (λ d. is_exposed d ≡ is_exposed config) (with_base_url config)
unfolding with_base_url
with_base_url-is_exposed config = by_test (
    is_given (lookup "DIST_GIT_URL_TEMPLATE" config)
    && is_given (lookup "DIST_GIT_BASE_URL" config))
  where
    by_test :
        (b : Bool)
        → Ensures
            (λ d. is_exposed d ≡ is_exposed config)
            (if b
              then filled_in
                  (lookup "DIST_GIT_URL_TEMPLATE" config)
                  (lookup "DIST_GIT_BASE_URL" config)
                  config
              else ok config)
    by_test true =
        filled_in-is_exposed (lookup "DIST_GIT_URL_TEMPLATE" config)
          (lookup "DIST_GIT_BASE_URL" config) config
    by_test false = refl

-- The application does not run in production with the secret key that everyone knows, and its policies
-- have decision contexts.
abbrev pub IsSafe : App → Type 0
IsSafe app = (is_exposed app.config ≡ false) × All HasContexts app.policies

create_app-Ensures :
    (i : Installation) (config_obj : Option String) → Ensures IsSafe (create_app i config_obj)
unfolding create_app
create_app-Ensures i config_obj =
    Ensures-step IsSafe (load_config i.origins config_obj) _ λ config loaded.
      Ensures-step IsSafe (check_secret_key config) _ λ u checked.
        Ensures-step IsSafe (directory "POLICIES_DIR" config) _ λ policies_dir named.
          Ensures-step IsSafe (load_policies i.formats (i.yaml_files policies_dir)) _
            λ policies read.
              Ensures-step IsSafe (directory "SUBJECT_TYPES_DIR" config) _
                λ subject_types_dir given.
                  Ensures-step IsSafe (i.load_subject_types subject_types_dir) _
                    λ subject_types loaded_types.
                      Ensures-step IsSafe (with_base_url config) _ λ with_url filled.
                        Ensures-step IsSafe (at "RESPONSE_HEADERS" (obj with_url)) _
                          λ headers there.
                            Ensures-step IsSafe (at "CACHE" (obj with_url)) _ λ cache cached. (
                              Ensures-ok (λ d. is_exposed d ≡ is_exposed config)
                                    (with_base_url config) with_url
                                    (with_base_url-is_exposed config) filled
                                  ∙ Ensures-ok (λ _. is_exposed config ≡ false)
                                      (check_secret_key config) u
                                      (check_secret_key-is_exposed config) checked,
                              load_policies-HasContexts i.formats (i.yaml_files policies_dir)
                                  policies read,
                            )

-- No application starts in production with the secret key that everyone knows, and the policies of one
-- that starts all have decision contexts.
pub create_app-IsSafe :
    (i : Installation) (config_obj : Option String) (app : App)
    → create_app i config_obj ≡ ok app
    → (is_exposed app.config ≡ false) × All HasContexts app.policies
create_app-IsSafe i config_obj app =
    Ensures-ok IsSafe (create_app i config_obj) app (create_app-Ensures i config_obj)

-- ===== src/Tests/Starting.antt =====
-- The start of the application, the callback of fedora-messaging and the report of policies.
use greenwave.Prelude.{
  ◌↔◌, true, false, ◌≡◌, refl, List, [], ◌∷◌, none, some, All, map, if◌then◌else◌, ◌==◌, string_eq,
}
use greenwave.Prelude.Text.{ends_with}
use greenwave.Outcome.{ok, raise, ◌>>=◌, unexpected}
use greenwave.Json.{Json, null, bool, str, arr, obj, Object, empty, of_entries, lookup, assign}
use greenwave.SafeYaml.{json_items, all_objects}
use greenwave.Policy.{PolicyClass, Policy, Rule, remote_rule, passing_test_case_rule}
use greenwave.Policy.Loading.Loaded.{HasContexts}
use greenwave.Policy.Reported.{requested_rules, requested_rules_read}
use greenwave.Api.Views.{policies_data, about, jsonp, insert_headers}
use greenwave.Api.Views.Reported.{reported_policy, policies_data_iff}
use greenwave.Settings.{
  Origins, config_class, default_config_file, override, config_file, load_config,
}
use greenwave.Settings.Precedence.{from_environment, first_of, load_config_precedence}
use greenwave.Application.{
  Installation, App, create_app, check_secret_key, replace_from, with_base_url,
}
use greenwave.Application.Started.{is_exposed, create_app-IsSafe}
use greenwave.Fedora.{
  Called, resultsdb, Bus, config_for, kind_of, received, processed_ok, fedora_messaging_callback,
}
use greenwave.Policy.Loading.{rule_classes, load_policies}
use greenwave.Announcement.{at}
use greenwave.Tests.Rules.{program}
use greenwave.Tests.Samples.{formats, policy_of, abicheck}
use greenwave.Listeners.Delivered.{no_effects}
use greenwave.Tests.Handlers.{summing}

abbrev reported : List Rule
reported =
    remote_rule ("https://git/{pkg_name}.yaml" ∷ "https://git/gating.yaml" ∷ []) true
    ∷ passing_test_case_rule "dist.abicheck" (some "fips") none none
    ∷ passing_test_case_rule "dist.rpmdeplint" none none none
    ∷ []

requested_rules_read_example :
    (json_items formats rule_classes (arr (requested_rules reported)) >>= all_objects "Rule")
    ≡ ok reported
requested_rules_read_example =
    requested_rules_read formats reported (tt, ((refl, refl), ((refl, refl), tt)))

-- A machine with the file of settings that "GREENWAVE_CONFIG" names.
abbrev settings : Object
settings = of_entries (
    ("POLICIES_DIR", str "/srv/policies")
    ∷ ("DIST_GIT_BASE_URL", str "https://git")
    ∷ ("DIST_GIT_URL_TEMPLATE", str "{DIST_GIT_BASE_URL}/{pkg_name}.yaml")
    ∷ [])

abbrev defaults : Object
defaults = of_entries (
    ("SECRET_KEY", str "replace-me-with-something-random")
    ∷ ("PRODUCTION", bool true)
    ∷ ("SUBJECT_TYPES_DIR", str "conf/subject_types")
    ∷ ("POLICIES_DIR", str "conf/policies")
    ∷ ("RESPONSE_HEADERS", null)
    ∷ ("CACHE", obj empty)
    ∷ [])

abbrev origins : Origins
origins = record {
  environ =
      ("GREENWAVE_CONFIG", "/etc/settings.py")
      ∷ ("SECRET_KEY", "of this service")
      ∷ ("GREENWAVE_POLICIES_DIR", "/etc/policies")
      ∷ ("GREENWAVE_SUBJECT_TYPES_DIR", "/etc/subject_types")
      ∷ [];
  getcwd = "/root";
  from_object = λ name. defaults;
  from_pyfile = λ file.
      if file == "/etc/settings.py" then ok settings else raise (unexpected "FileNotFoundError");
}

unfoldable starting : Unit {0}
unfolding program config_class default_config_file override config_file load_config at
    check_secret_key replace_from with_base_url create_app load_policies
starting = tt

-- The settings that the configuration class does not have stand last.
abbrev configured : Object
configured = of_entries (
    ("SECRET_KEY", str "of this service")
    ∷ ("PRODUCTION", bool true)
    ∷ ("SUBJECT_TYPES_DIR", str "/etc/subject_types")
    ∷ ("POLICIES_DIR", str "/srv/policies")
    ∷ ("RESPONSE_HEADERS", null)
    ∷ ("CACHE", obj empty)
    ∷ ("DIST_GIT_BASE_URL", str "https://git")
    ∷ ("DIST_GIT_URL_TEMPLATE", str "{DIST_GIT_BASE_URL}/{pkg_name}.yaml")
    ∷ [])

configured_file : origins.from_pyfile (config_file origins) ≡ ok settings
unfolding starting
configured_file = refl

loaded_config : load_config origins none ≡ ok configured
unfolding starting
loaded_config = refl

load_config_precedence_example :
    lookup "SECRET_KEY" configured
    ≡ first_of (from_environment origins "SECRET_KEY" "SECRET_KEY" "SECRET_KEY") (
        first_of (lookup "SECRET_KEY" settings) (
          first_of (from_environment origins "GREENWAVE_POLICIES_DIR" "POLICIES_DIR" "SECRET_KEY") (
            first_of
              (from_environment origins "GREENWAVE_SUBJECT_TYPES_DIR" "SUBJECT_TYPES_DIR"
                "SECRET_KEY")
              (lookup "SECRET_KEY" (origins.from_object (config_class origins none))))))
load_config_precedence_example =
    load_config_precedence origins none settings configured "SECRET_KEY" configured_file
      (refl, (refl, (refl, tt))) loaded_config

abbrev installation : Installation
installation = record {
  origins = origins;
  formats = formats;
  yaml_files = λ directory. if directory == "/srv/policies" then "gating.yaml" ∷ [] else [];
  load_subject_types = λ directory. ok [];
}

abbrev started : App
started = record {
  config = assign "DIST_GIT_URL_TEMPLATE" (str "https://git/{pkg_name}.yaml") configured;
  policies = policy_of PolicyClass.local "gating" (abicheck ∷ []) ∷ [];
  subject_types = [];
}

application_starts : create_app installation none ≡ ok started
unfolding starting
application_starts = refl

create_app-IsSafe_example : (is_exposed started.config ≡ false) × All HasContexts started.policies
create_app-IsSafe_example = create_app-IsSafe installation none started application_starts

-- Without its file of settings, the service does not start.
refused_start :
    create_app (record installation { origins = record origins { environ = [] } }) none
    ≡ raise (unexpected "FileNotFoundError")
unfolding starting
refused_start = refl

abbrev exposed_origins : Origins
exposed_origins = record origins { environ = ("GREENWAVE_CONFIG", "/etc/settings.py") ∷ [] }

-- Without a secret key, a service in production does not start.
exposed_start :
    create_app (record installation { origins = exposed_origins }) none
    ≡ raise (unexpected "Warning")
unfolding starting
exposed_start = refl

abbrev bus : Bus
bus = record {
  consumer_config = obj (
      of_entries (
        ("topic_prefix", str "org.fedoraproject")
        ∷ ("environment", str "prod")
        ∷ ("resultsdb_topic_suffix", str "resultsdb.result.new")
        ∷ ("waiverdb_topic_suffix", str "waiver.new")
        ∷ []));
  make_consumer = λ kind settings. ok summing;
}

unfoldable dispatching : Unit {0}
unfolding at config_for kind_of ends_with
dispatching = tt

known_topic : kind_of "org.fedoraproject.prod.resultsdb.result.new" ≡ some resultsdb
unfolding dispatching
known_topic = refl

made_consumer :
    (config_for bus.consumer_config resultsdb >>= bus.make_consumer resultsdb) ≡ ok summing
unfolding dispatching
made_consumer = refl

-- A message that cannot be handled counts as processed.
abbrev bad_message : (body : Json) → Called
bad_message body =
    fedora_messaging_callback bus "org.fedoraproject.prod.resultsdb.result.new" body no_effects

callback_runs :
    bad_message null ≡ (received resultsdb ∷ processed_ok resultsdb ∷ [], no_effects, none)
unfolding dispatching fedora_messaging_callback
callback_runs = refl

-- The report of two policies that differ in their sources and in the times of a rule.
abbrev timed : Policy
timed =
    record (policy_of PolicyClass.local "gating"
      (passing_test_case_rule "dist.abicheck" none (some 3) none ∷ [])) {
        source = some "https://git/gating.yaml";
      }

abbrev untimed : Policy
untimed =
    policy_of PolicyClass.local "gating"
      (passing_test_case_rule "dist.abicheck" none none (some 7) ∷ [])

policies_data_iff_example :
    (policies_data (timed ∷ []) ≡ policies_data (untimed ∷ []))
    ↔ (map reported_policy (timed ∷ []) ≡ map reported_policy (untimed ∷ []))
policies_data_iff_example = policies_data_iff (timed ∷ []) (untimed ∷ []) (refl, tt) (refl, tt)

-- The report of the version, with the headers of the configuration, in a call of a script.
version_reply :
    about (λ d. "{}") (of_entries (("CORS_URL", str "https://example.com") ∷ [])) "1.2.3" (some "f")
    ≡ record {
      status_code = 200;
      text = "f({});";
      mimetype = "application/javascript";
      headers = of_entries (
          ("Access-Control-Allow-Origin", str "https://example.com")
          ∷ ("Access-Control-Allow-Headers", str "Content-Type")
          ∷ ("Access-Control-Allow-Method", str "POST, OPTIONS")
          ∷ []);
    }
unfolding about jsonp insert_headers
version_reply = refl

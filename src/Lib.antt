-- ===== src/Lib.antt =====
-- Greenwave: a service that decides whether a software artefact may pass a gating point, from
-- policies, test results (ResultsDB) and waivers (WaiverDB). This library models the decision from
-- the Python sources under greenwave/.
--
-- How the parts interact: a request names subjects (greenwave/subjects) and decision contexts; a
-- Decision (greenwave/decision.py) selects the applicable policies (greenwave/policies.py) and checks
-- them with one RuleContext for each subject; rules give answers, from results or from further
-- policies in remote rule files; waivers (greenwave/waivers.py) turn unsatisfied answers into
-- satisfied ones; the answers are reported and summarized. Results come from a retriever with two
-- caches (greenwave/resources.py). When a result or a waiver is new, a consumer
-- (greenwave/consumers/consumer.py) compares the decisions for now and for just before it, and
-- publishes those that changed.
--
-- Files:
--   Prelude              shared names, equality, lists, dictionaries, texts, sorting
--   Json                 Python dictionaries of JSON values, with Python's ==
--   Outcome              exceptions (Error), calls that return or raise (Result)
--   Format               str.format with named fields
--   Fnmatch              fnmatch.fnmatch on POSIX; Fnmatch/Text: what the text of a pattern means
--   Subject              SubjectType, GenericSubjectType, Subject (subjects/subject_type.py,
--                        subjects/subject.py); Subject/Factory: subjects/factory.py,
--                        create_subject_type
--   Answer               the Answer classes and to_json
--   Waiver               waivers.py: find_waived_id, maybe_waive, waive_answers
--   Policy               Rule, Policy and its subclasses, equality, validation, matches_sub_policy
--   Policy/Services      what policies use of the configuration and of other services
--   SafeYaml             safe_yaml.py: attributes and objects from YAML nodes and JSON values
--   Policy/Loading       rules and policies from YAML files and from requests: load_policies,
--                        safe_load_all, from_yaml, from_value, OnDemandPolicy.create_from_json
--   Policy/Remote        RemoteRule._get_sub_policies, _remote_urls
--   Policy/Matching      Policy.matches, RemoteRule.matches, PassingTestCaseRule.matches
--   Policy/Matching/Pairs  applicable_decision_context_product_version_pairs
--   Resources            BaseRetriever, ResultsRetriever, WaiversRetriever and the caches
--                        (resources.py)
--   Policy/Checking      check of rules and policies, RuleContext.verify
--   Summary              _Summary, summarize_answers
--   Decision             Decision: check, waive_answers and the reported requirements
--   Decision/Request     make_decision and the reading of a request
--   Resources/Koji       the calls of Koji, SCM references, pages of the git web UI (resources.py)
--   Decimal              str and int of natural numbers
--   ProductVersions      product_versions.py, Subject.product_versions
--   XmlRpc               SafeTransport.request (xmlrpc_server_proxy.py)
--   Consumers            the comparison of decisions and the publishing of updates
--                        (consumers/consumer.py)
--   Consumers/Deciding   the requests of the consumers, with make_decision in the process
--   Timestamp            add_to_timestamp and right_before_this_time (utils.py)
--   Announcement         the reading of a message about a result (consumers/resultsdb.py)
--   Messages             what the consumers do with a message (consumers/resultsdb.py,
--                        consumers/waiverdb.py)
--   Fedora               the callback that gives messages to the consumers
--                        (consumers/fedora_messaging_consumer.py)
--   Listeners            BaseListener as a state machine (listeners/base.py)
--   Listeners/Acts       what a handler of a listener does in turn
--   Listeners/Changes    the loop over the decisions that a message may change (listeners/base.py)
--   Listeners/Incoming   what the listeners do with a message (listeners/resultsdb.py,
--                        listeners/waiverdb.py)
--   Api                  POST /decision and POST /validate-gating-yaml (api_v1.py), json_error (utils.py)
--   Api/Views            the views that report what is configured (api_v1.py), headers and JSONP
--                        (utils.py), handlers of app_factory.py
--   Settings             load_config (utils.py)
--   Application          create_app (app_factory.py)
--   Session              RequestsSession.request (request_session.py)
--   Tests                runs on small inputs, and each theorem at one
-- The other files below these hold the proofs about the file that they stand under.
--
-- Conventions. An exception is `raise e` of Result. State that Python changes in place is handed on:
-- a method of Decision returns the new Decision, and a call that extends RuleContext.verified_rules
-- returns the new list (Verifying). None is Option; a Python list is List; a dictionary is an
-- association list in insertion order. Python's truth value of a text is `truthy`. Identifiers of
-- results and waivers are natural numbers, times are points of one scale. Logging is left out.
--
-- Parameters. Koji, the git server, the YAML parser, ResultsDB and WaiverDB are the functions of
-- the record Services; what they answer is fixed while a decision is made. Parsing of YAML text,
-- dateutil, yaml.safe_load of a scalar and str of a value that is no text are the functions of
-- the record Formats. Resources models the retrievers behind three of the functions of Services,
-- with the servers as the record Server; Resources/Koji models the functions about builds and
-- rule files, with XML-RPC, HTTP, urlparse and the clock as the record Koji, and with_koji puts
-- them behind Services. Regular expressions of the configuration are the record Patterns.
-- make_decision takes the configuration and the services of a request as the record Application.
-- Consumers takes make_decision and the message broker as the record Environment, and so do
-- Messages; Consumers/Deciding puts make_decision of Decision/Request there. Listeners takes the
-- broker as the record Broker, and a handler as a function from a message to what is to be sent.
-- Settings takes the environment and the readers of Flask as the record Origins; Application takes
-- the files of a directory and the loading of subject types as the record Installation; Fedora takes
-- the making of a consumer as the record Bus; Session takes the library requests as the function send.
--
-- Recursion. A remote rule leads to policies, whose rules are checked in turn. policy_matches and
-- check_policy take the number of levels; RemotePolicy.validate refuses a remote rule in a remote
-- policy, so two levels are all there are.
--
-- Loops without an end. The loop that sends an update of a listener ends when the broker takes the update
-- or refuses it; it runs on fuel, and so much fuel is enough as there are attempts up to that. Retries of
-- XML-RPC are bounded by the configuration.
--
-- Limits. Items and identifiers of subjects are texts: where a request holds something else the model
-- raises an exception, and create_subject_from_data passes it over. ignore_result and ignore_waiver are
-- lists. Numbers in JSON are natural. Field names in URL templates are plain names. The keys of
-- DISTINCT_LATEST_RESULTS_ON are not the fixed keys of an answer's report, such as "type". repr() of a
-- policy's id in a message is the id in single quotes. Letters and digits in product versions are ASCII.
-- The caches of Koji builds and of rule files are left out. A timestamp is read with an upper-case T, no
-- white space but the one blank, and no blank before a day; years before 1000 are printed with four
-- digits, as not all platforms do. A message to a listener that is no dictionary is an exception.
-- A callback of a listener runs to its end before the next event: SIGTERM while a message is handled
-- counts as SIGTERM behind it, the process does not end in the middle of a callback but where
-- `connect` fails, acknowledgements do not raise, and the body of a message is JSON or a JSONDecodeError. The
-- report of a decision in Consumers/Deciding has no entries of a verbose response. The working
-- directory of Settings is an absolute path without "." and "..".
--
-- Not modelled: the loading of subject types from files, whose dictionaries are not checked when they are
-- read, and with it GET /subject_types; the subscription of consumers and listeners, the trace
-- context, StatsD, and the set-up of Flask, of HTTP sessions and of caches, which are calls of libraries.
pub mod Prelude
pub mod Json
pub mod Outcome
pub mod Subject
pub mod Fnmatch
pub mod Answer
pub mod Waiver
pub mod Decimal
pub mod Format
pub mod SafeYaml
pub mod Policy
pub mod Timestamp
pub mod Settings
pub mod Resources
pub mod Summary
pub mod Decision
pub mod ProductVersions
pub mod XmlRpc
pub mod Consumers
pub mod Announcement
pub mod Messages
pub mod Fedora
pub mod Application
pub mod Session
pub mod Listeners
pub mod Api
pub mod Tests

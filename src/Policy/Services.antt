-- ===== src/Policy/Services.antt =====
-- What policies use of the configuration and of other services. Koji, the git server, the parsers
-- and the results retriever are functions of the record: what they answer does not change while one
-- decision is made.
use greenwave.Prelude.{ℕ, String, List, Option, Dict}
use greenwave.Outcome.{Result}
use greenwave.Subject.{Subject}
use greenwave.Waiver.{Waiver, WaiverFilter}
use greenwave.SafeYaml.{Formats}

-- A configured URL template, or a list of them.
pub data Templates : Type 0 where
  one : String → Templates
  several : List String → Templates

pub record Config : Type 0 where
  pub outcomes_passed : List String
  pub outcomes_incomplete : List String
  pub outcomes_error : List String
  pub distinct_latest_results_on : List String
  pub remote_rule_policies : Dict String Templates
  pub dist_git_url_template : Option Templates

-- A result of ResultsDB. Times are points on one scale.
pub record TestResult : Type 0 where
  pub id : ℕ
  pub testcase : String
  pub outcome : String
  pub submit_time : String
  pub fields : Dict String (List String)
  pub error_reason : Option String

-- What `retrieve_scm_from_koji` returns.
pub record Scm : Type 0 where
  pub namespace : String
  pub pkg_name : String
  pub rev : String

pub record Services : Type 0 where
  pub config : Config
  pub retrieve_scm_from_koji : String → Result Scm
  pub retrieve_yaml_remote_rule : String → Result (Option String)
  pub formats : Formats
  pub retrieve_koji_build_creation_time : String → Result ℕ
  -- `results_retriever.retrieve(subject, testcase)`
  pub retrieve_results : Subject → String → Result (List TestResult)
  -- `results_retriever.retrieve(subject)`
  pub retrieve_all_results : Subject → Result (List TestResult)
  -- `waivers_retriever.retrieve(filters)`
  pub retrieve_waivers : List WaiverFilter → Result (List Waiver)

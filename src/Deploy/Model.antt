-- ===== src/Deploy/Model.antt =====
-- models.py: the rows that the deployment service and the workers read and write, and the database
-- with the queue and the event streams beside it.
use layerrail_deploy.Prelude.{ℕ, String, ◌==◌, Bool, Option, List, first}

pub data Status : Type 0 where
  prepare deploy finalize fail completed : Status

pub data Conclusion : Type 0 where
  succeeded failed canceled skipped : Conclusion

pub data ContainerStatus : Type 0 where
  running stopped removed : ContainerStatus

-- `{"status": …, "message": …}`
pub record Failure : Type 0 where
  pub status : String
  pub message : String

pub record Deployment : Type 0 where
  pub id : String
  pub project_id : String
  pub environment_id : String
  pub branch : String
  pub status : Status
  pub conclusion : Option Conclusion
  pub concluded_at : Option ℕ
  pub error : Option Failure
  pub container_id : Option String
  pub container_status : Option ContainerStatus
  pub job_id : Option String
  pub created_at : ℕ

-- an entry of `Project.environments`
pub record Environment : Type 0 where
  pub id : String
  pub slug : String

pub record Project : Type 0 where
  pub id : String
  pub slug : String
  pub deleted : Bool
  pub environments : List Environment
  pub updated_at : ℕ

pub data AliasType : Type 0 where
  for_branch for_environment for_environment_id : AliasType

pub record Alias : Type 0 where
  pub id : ℕ
  pub subdomain : String
  pub deployment_id : String
  pub previous_deployment_id : Option String
  pub kind : AliasType
  pub value : String

-- what the services hand to the queue
pub data Job : Type 0 where
  fail_job : (deployment_id status : String) → String → Job
  finalize_job : String → Job
  delete_job : String → Job
  cleanup_job : String → Job
  abort_job : String → Job

-- an entry of the event streams
pub data Event : Type 0 where
  status_event : (project_id deployment_id : String) → String → Event
  rollback_event : (project_id environment_id deployment_id previous_id : String) → Event

pub record Database : Type 0 where
  pub deployments : List Deployment
  pub projects : List Project
  pub aliases : List Alias
  pub next_alias : ℕ
  pub jobs : List Job
  pub events : List Event

abbrev pub has_id : String → Deployment → Bool
has_id i d = d.id == i

abbrev pub project_has_id : String → Project → Bool
project_has_id i p = p.id == i

-- `Project.get_environment_by_id`
abbrev is_environment : String → Environment → Bool
is_environment i e = e.id == i

abbrev pub get_environment_by_id : Project → String → Option Environment
get_environment_by_id project env_id = first (is_environment env_id) project.environments

-- ===== src/Deploy/Status.antt =====
-- deployment.py: `update_status` and `cancel`, with what both `cancel` and the failure job do with
-- the container.
use layerrail_deploy.Prelude.{
  ℕ, String, Bool, true, false, not, ◌&&◌, ◌||◌, Option, none, some, List, ◌∷◌, change,
  if◌then◌else◌, is_some,
}
use layerrail_deploy.Effect.{Exec, modify, guard, ◌>>◌}
use layerrail_deploy.Deploy.Model.{
  Status, prepare, deploy, finalize, fail, completed, Conclusion, succeeded, failed, canceled,
  skipped, ContainerStatus, running, stopped, removed, Failure, Deployment, Project, Job,
  delete_job, abort_job, Event, status_event, Database, has_id, project_has_id,
}

-- the keyword arguments of `update_status` that are not `None`
pub record Change : Type 0 where
  pub status : Option Status
  pub conclusion : Option Conclusion
  pub error : Option Failure
  pub container_status : Option ContainerStatus

abbrev pub no_change : Change
no_change = record { status = none; conclusion = none; error = none; container_status = none }

abbrev pub or_keep {ℓ} : {A : Type ℓ} → Option A → A → A
or_keep none a = a
or_keep (some b) a = b

abbrev pub or_keep_option {ℓ} : {A : Type ℓ} → Option A → Option A → Option A
or_keep_option none o = o
or_keep_option (some a) o = some a

abbrev pub concluded_time : Option Conclusion → ℕ → Option ℕ → Option ℕ
concluded_time none now o = o
concluded_time (some c) now o = some now

abbrev pub updated_row : Change → ℕ → Deployment → Deployment
updated_row c now d = record d {
  status = or_keep c.status d.status;
  conclusion = or_keep_option c.conclusion d.conclusion;
  concluded_at = concluded_time c.conclusion now d.concluded_at;
  error = or_keep_option c.error d.error;
  container_status = or_keep_option c.container_status d.container_status;
}

abbrev status_text : Status → String
status_text prepare = "prepare"
status_text deploy = "deploy"
status_text finalize = "finalize"
status_text fail = "fail"
status_text completed = "completed"

abbrev conclusion_text : Conclusion → String
conclusion_text succeeded = "succeeded"
conclusion_text failed = "failed"
conclusion_text canceled = "canceled"
conclusion_text skipped = "skipped"

-- `conclusion if conclusion else status`, if there is one of them
abbrev status_value : Option Conclusion → Option Status → Option String
status_value (some c) s = some (conclusion_text c)
status_value none (some s) = some (status_text s)
status_value none none = none

abbrev with_event : Deployment → Option String → List Event → List Event
with_event d none events = events
with_event d (some value) events = status_event d.project_id d.id value ∷ events

abbrev touched : Option Conclusion → ℕ → String → List Project → List Project
touched none now project_id projects = projects
touched (some c) now project_id projects =
    change (project_has_id project_id) (λ (p : Project). record p { updated_at = now }) projects

-- `DeploymentService.update_status` of a row
unfoldable pub update_status : Deployment → Change → Bool → ℕ → Database → Database
update_status d c emit now db = record db {
  deployments = change (has_id d.id) (updated_row c now) db.deployments;
  projects = touched c.conclusion now d.project_id db.projects;
  events = if emit then with_event d (status_value c.conclusion c.status) db.events else db.events;
}

abbrev pub enqueue : Job → Database → Database
enqueue job db = record db { jobs = job ∷ db.jobs }

-- what Docker answers to `containers.get`: the container, a `DockerError` with status 404, or
-- another exception
pub data Lookup : Type 0 where
  present missing broken : Lookup

abbrev is_settled : Option ContainerStatus → Bool
is_settled none = false
is_settled (some running) = false
is_settled (some stopped) = true
is_settled (some removed) = true

-- `deployment.container_id and deployment.container_status not in ("removed", "stopped")`
abbrev pub has_container : Deployment → Bool
has_container d = is_some d.container_id && not (is_settled d.container_status)

abbrev pub settle_found : Lookup → Deployment → ℕ → Database → Database
settle_found present d now db =
    update_status d (record no_change { container_status = some stopped }) false now
      (enqueue (delete_job d.id) db)
settle_found missing d now db =
    update_status d (record no_change { container_status = some removed }) false now db
settle_found broken d now db = db

-- The container is stopped and its deletion is queued; an error of `stop` is ignored.
unfoldable pub settle_container : Lookup → Deployment → ℕ → Database → Database
settle_container lookup d now db = if has_container d then settle_found lookup d now db else db

abbrev pub is_final : Status → Bool
is_final prepare = false
is_final deploy = false
is_final finalize = true
is_final fail = true
is_final completed = true

abbrev pub canceled_change : Change
canceled_change = record no_change { status = some completed; conclusion = some canceled }

-- the job of the deployment, if it is still running
abbrev pub abort_running : Bool → Option String → Database → Database
abort_running false job_id db = db
abort_running true none db = db
abort_running true (some job_id) db = enqueue (abort_job job_id) db

-- `DeploymentService.cancel`: whether the job is running is what the queue answers.
unfoldable pub cancel : Deployment → Bool → Lookup → ℕ → Exec String Database Unit
cancel d job_running lookup now = do
  guard (not (is_final d.status || is_some d.conclusion))
      "Deployment is already finalizing, failing, or completed"
  modify (update_status d canceled_change true now)
  modify (abort_running job_running d.job_id)
  modify (settle_container lookup d now)

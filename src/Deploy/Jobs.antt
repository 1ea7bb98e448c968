-- ===== src/Deploy/Jobs.antt =====
-- workers/tasks/deployment.py and workers/monitor.py: the jobs of a deployment once it runs.
pub mod Canceled
pub mod Outcomes
pub mod Overlong
pub mod History
use layerrail_deploy.Prelude.{
  ℕ, ◌+◌, ◌-◌, String, ◌==◌, ◌⊕◌, Bool, true, false, not, ◌&&◌, ◌||◌, Option, none, some, List, [],
  ◌∷◌, first, change, any, map, ltb, leb, chars, nat_eq, if◌then◌else◌, is_some, text_is,
}
use layerrail_deploy.Deploy.Model.{
  Status, prepare, deploy, finalize, fail, completed, Conclusion, succeeded, failed, canceled,
  skipped, ContainerStatus, running, stopped, removed, Failure, Deployment, Project, Alias, Job,
  fail_job, finalize_job, cleanup_job, Database, has_id, project_has_id,
}
use layerrail_deploy.Deploy.Aliases.{AliasDomains, get_alias_domains, setup_aliases}
use layerrail_deploy.Deploy.Status.{
  Change, no_change, update_status, enqueue, Lookup, present, missing, broken, settle_container,
}

abbrev pub find : String → Database → Option Deployment
find i db = first (has_id i) db.deployments

abbrev pub failed_change : String → String → Change
failed_change status reason = record no_change {
  status = some completed;
  conclusion = some failed;
  error = some (record { status = status; message = reason });
}

-- `reason or "Deployment failed"`
abbrev or_default : String → String
or_default reason = if reason == "" then "Deployment failed" else reason

abbrev pub fail_row : Deployment → String → String → Lookup → ℕ → Database → Database
fail_row d status reason lookup now db =
    update_status d (failed_change status (or_default reason)) true now (
      settle_container lookup d now
        (update_status d (record no_change { status = some fail }) true now db))

abbrev pub fail_found : Option Deployment → String → String → Lookup → ℕ → Database → Database
fail_found none status reason lookup now db = db
fail_found (some d) status reason lookup now db =
    if is_some d.conclusion then db else fail_row d status reason lookup now db

-- `fail_deployment`; without the row the job raises before it writes anything.
unfoldable pub fail_deployment : String → String → String → Lookup → ℕ → Database → Database
fail_deployment i status reason lookup now db = fail_found (find i db) status reason lookup now db

abbrev pub is_canceled : Option Conclusion → Bool
is_canceled none = false
is_canceled (some succeeded) = false
is_canceled (some failed) = false
is_canceled (some canceled) = true
is_canceled (some skipped) = false

abbrev pub succeeded_change : Change
succeeded_change = record no_change { status = some completed; conclusion = some succeeded }

abbrev pub finalize_failure : String
finalize_failure = "Failed to finalize deployment (aliases/routing). The app may still be running."

-- `String(63)`, the column of a subdomain
abbrev pub fits_column : Option String → Bool
fits_column none = true
fits_column (some s) = leb (chars s) 63

abbrev pub are_storable : AliasDomains → Bool
are_storable domains =
    fits_column domains.branch_subdomain
    && fits_column domains.environment_subdomain
    && fits_column (some domains.environment_id_subdomain)

-- A subdomain that is too long fails at a flush, which `setup_aliases` logs; the commit then raises,
-- and nothing is written.
abbrev pub finalize_row : (String → String) → Option Project → Deployment → ℕ → Database → Database
finalize_row lower none d now db = enqueue (fail_job d.id "finalize" finalize_failure) db
finalize_row lower (some project) d now db =
    if are_storable (get_alias_domains lower project d)
    then enqueue (cleanup_job d.project_id)
        (update_status d succeeded_change true now (setup_aliases lower project d db))
    else enqueue (fail_job d.id "finalize" finalize_failure) db

abbrev pub finalize_found : (String → String) → Option Deployment → String → ℕ → Database → Database
finalize_found lower none i now db = enqueue (fail_job i "finalize" finalize_failure) db
finalize_found lower (some d) i now db =
    if is_canceled d.conclusion
    then db
    else finalize_row lower (first (project_has_id d.project_id) db.projects) d now db

-- `finalize_deployment`; an error of `update_traefik_config` is logged and ignored.
unfoldable pub finalize_deployment : (String → String) → String → ℕ → Database → Database
finalize_deployment lower i now db = finalize_found lower (find i db) i now db

abbrev mark_removed : Deployment → Deployment
mark_removed d = record d { container_status = some removed }

abbrev delete_row : Deployment → Database → Database
delete_row d db =
    if is_some d.container_id
    then record db { deployments = change (has_id d.id) mark_removed db.deployments }
    else db

abbrev pub delete_found : Option Deployment → Lookup → Database → Database
delete_found none lookup db = db
delete_found (some d) broken db = db
delete_found (some d) present db = delete_row d db
delete_found (some d) missing db = delete_row d db

-- `delete_container`: what Docker answers to the lookup and the deletion together
unfoldable pub delete_container : String → Lookup → Database → Database
delete_container i lookup db = delete_found (find i db) lookup db

-- `cleanup_inactive_containers`
abbrev pub refers : String → Alias → Bool
refers i a = a.deployment_id == i || text_is a.previous_deployment_id i

abbrev is_running : Option ContainerStatus → Bool
is_running none = false
is_running (some running) = true
is_running (some stopped) = false
is_running (some removed) = false

abbrev pub is_completed : Status → Bool
is_completed prepare = false
is_completed deploy = false
is_completed finalize = false
is_completed fail = false
is_completed completed = true

abbrev pub is_inactive : String → List Alias → Deployment → Bool
is_inactive project_id aliases d =
    d.project_id == project_id
    && is_some d.container_id
    && is_running d.container_status
    && is_completed d.status
    && not (any (refers d.id) aliases)

-- what Docker answers to the lookup with the stop, and to the deletion
pub record Answers : Type 0 where
  pub stop : String → Lookup
  pub delete : String → Lookup

abbrev after_delete : Bool → Lookup → Option ContainerStatus
after_delete false lookup = some stopped
after_delete true present = some removed
after_delete true missing = none
after_delete true broken = some stopped

abbrev after_stop : Lookup → Bool → Lookup → Option ContainerStatus → Option ContainerStatus
after_stop present remove lookup o = after_delete remove lookup
after_stop missing remove lookup o = none
after_stop broken remove lookup o = o

abbrev pub cleaned : Answers → Bool → Deployment → Deployment
cleaned answers remove d = record d {
  container_status = after_stop (answers.stop d.id) remove (answers.delete d.id) d.container_status;
}

abbrev pub is_present : Lookup → Bool
is_present present = true
is_present missing = false
is_present broken = false

-- Without a stopped container nothing is committed.
abbrev pub cleanup_rows : Answers → Bool → String → List Alias → List Deployment → List Deployment
cleanup_rows answers remove project_id aliases deployments =
    if any (λ (d : Deployment). is_inactive project_id aliases d && is_present (answers.stop d.id))
      deployments
    then change (is_inactive project_id aliases) (cleaned answers remove) deployments
    else deployments

abbrev pub cleanup_found : Option Project → Answers → Bool → Database → Database
cleanup_found none answers remove db = db
cleanup_found (some project) answers remove db = if project.deleted then db else record db {
  deployments = cleanup_rows answers remove project.id db.aliases db.deployments;
}

unfoldable pub cleanup_inactive_containers : String → Answers → Bool → Database → Database
cleanup_inactive_containers project_id answers remove db =
    cleanup_found (first (project_has_id project_id) db.projects) answers remove db

-- what the monitor learns of a container
pub data Probe : Type 0 where
  gone : Probe
  exited : ℕ → Probe
  ready waiting other : Probe
  raised : String → Probe

abbrev exit_reason : ℕ → (ℕ → String) → String
exit_reason code show =
    if nat_eq code 0
    then "App exited unexpectedly. Ensure your app keeps running and doesn't exit on its own."
    else if nat_eq code 137
    then "App was killed (out of memory or manually stopped). Try increasing memory limits."
    else if nat_eq code 1
    then "App crashed on startup. Check deployment logs for error details."
    else "App exited with code " ⊕ show code ⊕ ". Check deployment logs for error details."

abbrev pub timeout_reason : String
timeout_reason =
    "Timed out waiting for app to respond on port 8000. Ensure your app starts an HTTP server on this port."

abbrev pub probed : (ℕ → String) → Probe → Deployment → ℕ → Database → Database
probed show gone d now db =
    enqueue
      (fail_job d.id "deploy"
        "Container stopped unexpectedly. Check the deployment logs for errors.")
      db
probed show (exited code) d now db = enqueue (fail_job d.id "deploy" (exit_reason code show)) db
probed show ready d now db =
    enqueue (finalize_job d.id)
      (update_status d (record no_change { status = some finalize }) true now db)
probed show waiting d now db = db
probed show other d now db = db
probed show (raised e) d now db =
    enqueue (fail_job d.id "deploy" ("Unexpected error while monitoring deployment: " ⊕ e)) db

-- `deployment.status == "deploy"` and `container_status == "running"`, the rows of `monitor`
abbrev is_deploying : Status → Bool
is_deploying prepare = false
is_deploying deploy = true
is_deploying finalize = false
is_deploying fail = false
is_deploying completed = false

abbrev pub is_watched : Deployment → Bool
is_watched d = is_deploying d.status && is_running d.container_status

abbrev check_found : (ℕ → String) → ℕ → Option Deployment → Probe → ℕ → Database → Database
check_found show timeout none probe now db = db
check_found show timeout (some d) probe now db =
    if is_watched d
    then if ltb timeout (now - d.created_at)
      then enqueue (fail_job d.id "deploy" timeout_reason) db
      else probed show probe d now db
    else db

-- `_check_status` of one row of `monitor`; `show` writes a number.
unfoldable pub check_status : (ℕ → String) → ℕ → String → Probe → ℕ → Database → Database
check_status show timeout i probe now db = check_found show timeout (find i db) probe now db

-- ===== src/Build/Commands.antt =====
-- controller.py: the commands that the build controller claims from the control plane, and the
-- results that workers post to it.
pub mod Credentials
pub mod Outcomes
use layerrail_deploy.Prelude.{
  ℕ, suc, ◌+◌, ◌-◌, min, String, ◌⊕◌, ◌==◌, one_of, text_is, Bool, true, false, not, ◌&&◌, ◌||◌,
  Option, none, some, List, [], ◌∷◌, ltb, if◌then◌else◌, is_some,
}
use layerrail_deploy.Effect.{
  Result, ok, err, Exec, pure, raise, lift, guard, gets, and_then, handle, ◌>>=◌, ◌>>◌, try_except,
}
use layerrail_deploy.Json.{Json, Fields}
use layerrail_deploy.Build.Contracts.{
  Fault, conflict, invalid_contract, dependency, kubernetes, scan_error, key_error, value_error,
  integrity, internal, BuildCommand, CancelCommand, WorkerResult, job_name,
}
use layerrail_deploy.Build.Store.{
  Status, running, result_pending, completed, failed, canceled, Operation, get_operation,
}
use layerrail_deploy.Build.Store.Methods
use layerrail_deploy.Build.Store.Methods.{status_in, mark_status}
use layerrail_deploy.Build.World.{
  JobState, Lease, Command, build_requested, cancellation_requested, unsupported, Call, claimed,
  finalized, job_read, job_dispatched, job_deleted, clone_requested, Services, Settings, World, Ctl,
  ask, on_store, or_fault, now, register_credential, revoke_credential, complete_cancellation,
}

module _ (env : Services) (settings : Settings) where
  -- the body of the `try` of `_dispatch`
  unfoldable pub start_job : BuildCommand → Operation → String → ℕ → Ctl Unit
  unfolding Methods.set_running
  start_job command operation credential deadline = do
    ask (job_dispatched command.build_id deadline) env.job_dispatch
    stamp ← now env
    on_store (Methods.set_running operation.build_id credential stamp)
    pure tt

  -- `except Exception: revoke; raise`. If revoking fails, its exception is the one that is raised.
  unfoldable pub start_or_revoke : BuildCommand → Operation → String → ℕ → Ctl Unit
  unfolding start_job
  start_or_revoke command operation credential deadline =
      try_except (start_job command operation credential deadline)
        (λ e. do revoke_credential env credential; raise e)

  -- `_dispatch` once it is known that the job is not there. Times are whole seconds, and a deadline
  -- that would be negative is 0, which fails the test just the same.
  unfoldable pub dispatch_job : BuildCommand → Operation → Ctl Unit
  unfolding start_or_revoke
  dispatch_job command operation = do
    credentials ← ask (clone_requested operation.build_id) env.credentials
    expires ← or_fault (env.timestamp credentials.expires_at) internal
    current ← now env
    let deadline = min settings.build_timeout_seconds (expires - current - 30)
    guard (not (ltb deadline 60)) (dependency "clone_credential_ttl_insufficient" true)
    issued ← now env
    credential ← register_credential env operation.repository
    start_or_revoke command operation credential deadline

  -- The job of a build that has been started is looked at, and started again only if it is lost
  -- while the build is still running.
  unfoldable pub dispatch : BuildCommand → Ctl Unit
  unfolding dispatch_job Methods.register
  dispatch command = do
    stamp ← now env
    (operation, created) ← on_store (Methods.register env.hash command stamp)
    if status_in operation.status (running ∷ result_pending ∷ completed ∷ failed ∷ [])
        then (do
          state ← ask (job_read operation.job_name) env.job_status
          if not (status_in operation.status (running ∷ [])) || state.exists
              then pure tt
              else dispatch_job command operation)
        else dispatch_job command operation

  abbrev pub revoke_optional : Option String → Ctl Unit
  revoke_optional none = pure tt
  revoke_optional (some id) = revoke_credential env id

  -- `_cancel` of a build that is not canceled yet. `complete_cancellation` is called as the source
  -- calls it, with no evidence.
  unfoldable pub cancel_operation : CancelCommand → Operation → Ctl Unit
  unfolding Methods.mark
  cancel_operation command operation = do
    stamp ← now env
    on_store (Methods.mark operation.build_id "canceling" none stamp)
    ask (job_deleted operation.job_name operation.secret_name) env.job_delete
    revoke_optional operation.registry_credential_id
    complete_cancellation env operation.build_id none
    ended ← now env
    on_store (Methods.mark operation.build_id "canceled" none ended)
    pure tt

  abbrev pub build_not_dispatched : Fault → Fault
  build_not_dispatched (key_error b) = dependency "build_not_dispatched" true
  build_not_dispatched e = e

  unfoldable pub cancel : CancelCommand → Ctl Unit
  unfolding cancel_operation get_operation
  cancel command = do
    operation ←
        try_except (on_store (get_operation command.build_id)) (λ e. raise (build_not_dispatched e))
    guard
        (operation.organization_id == command.organization_id
          && operation.deployment_id == command.deployment_id)
        (invalid_contract "cancellation owner is invalid")
    if status_in operation.status (canceled ∷ [])
        then pure tt
        else cancel_operation command operation

  unfoldable pub run_lease : Command → Ctl Unit
  unfolding dispatch cancel
  run_lease (build_requested parsed) = do command ← lift parsed; dispatch command
  run_lease (cancellation_requested parsed) = do command ← lift parsed; cancel command
  run_lease unsupported = raise (invalid_contract "unsupported build command")

  abbrev pub finalize : String → String → Option String → Ctl Unit
  finalize event_id outcome safe_error = ask (finalized event_id outcome safe_error) env.finalize

  abbrev pub only_dependency : Fault → Ctl Unit
  only_dependency (dependency code retryable) = pure tt
  only_dependency e = raise e

  -- `_finalize_safely` swallows a `DependencyError`, and lets any other exception out.
  unfoldable pub finalize_safely : String → String → String → Ctl Unit
  finalize_safely event_id outcome safe_error =
      if event_id == ""
      then pure tt
      else try_except (finalize event_id outcome (some safe_error)) only_dependency

  -- the `except` clauses of `run_command_once`
  unfoldable pub reject_or_retry : String → Fault → Ctl Unit
  unfolding finalize_safely
  reject_or_retry event_id (invalid_contract m) =
      finalize_safely event_id "rejected" "build_command_invalid"
  reject_or_retry event_id (conflict m) =
      finalize_safely event_id "rejected" "build_command_invalid"
  reject_or_retry event_id (dependency m r) =
      finalize_safely event_id "retry" "build_dependency_unavailable"
  reject_or_retry event_id (kubernetes m) =
      finalize_safely event_id "retry" "build_dependency_unavailable"
  reject_or_retry event_id e = finalize_safely event_id "retry" "build_controller_internal_error"

  unfoldable pub run_claimed : Lease → Ctl Bool
  unfolding run_lease reject_or_retry
  run_claimed lease = do
    try_except (do run_lease lease.command; finalize lease.event_id "published" none)
        (reject_or_retry lease.event_id)
    pure true

  abbrev pub claim_failed : Fault → Ctl (Option Lease)
  claim_failed (dependency code retryable) = pure none
  claim_failed e = raise e

  abbrev pub run_found : Option Lease → Ctl Bool
  run_found none = pure false
  run_found (some lease) = run_claimed lease

  unfoldable pub run_command_once : Ctl Bool
  unfolding run_claimed
  run_command_once = do lease ← try_except (ask claimed env.claim) claim_failed; run_found lease

  -- `accept_result`
  abbrev pub expected_plans : String → List String
  expected_plans workload_type =
      if workload_type == "web"
      then "dockerfile_web" ∷ "node_web" ∷ []
      else "plain_static" ∷ "node_static" ∷ []

  abbrev pub plan_fits : Option String → String → Bool
  plan_fits none workload_type = true
  plan_fits (some plan) workload_type = one_of plan (expected_plans workload_type)

  -- an f-string writes `None` for a missing value
  abbrev pub shown : Option String → String
  shown none = "None"
  shown (some s) = s

  abbrev pub expected_reference : Operation → WorkerResult → String
  expected_reference operation result =
      settings.registry_endpoint ⊕ "/" ⊕ operation.repository ⊕ "@" ⊕ shown result.artifact_digest

  abbrev pub no_command : Fault → Fault
  no_command (key_error b) = conflict "worker result has no build command"
  no_command e = e

  unfoldable pub accept_result : WorkerResult → Ctl (Operation × Bool)
  unfolding get_operation
  accept_result result = do
    operation ← try_except (on_store (get_operation result.build_id)) (λ e. raise (no_command e))
    guard (plan_fits result.plan_type operation.workload_type)
        (conflict "worker result conflicts with workload")
    guard
        (not (text_is result.artifact_kind "oci")
          || text_is result.image_reference (expected_reference operation result))
        (conflict "worker result conflicts with artifact repository")
    stamp ← now env
    on_store (Methods.save_result env.hash result stamp)

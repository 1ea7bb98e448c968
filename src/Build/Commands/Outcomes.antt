-- ===== src/Build/Commands/Outcomes.antt =====
-- How commands end: the outcome that is reported for each, cancellations and late dispatches.
use layerrail_deploy.Prelude.{
  ℕ, suc, ◌-◌, ◌≤◌, min, String, ◌≡◌, ◌≢◌, ◌==◌, eq_iff, eq_refl, true, false, none, some, ◌∷◌,
  arith, if◌then◌else◌,
}
use layerrail_deploy.Effect.{ok, err, succeeded}
use layerrail_deploy.Build.Contracts.{
  Fault, conflict, invalid_contract, dependency, kubernetes, scan_error, key_error, value_error,
  integrity, internal, BuildCommand, CancelCommand,
}
use layerrail_deploy.Build.Store.{canceling, canceled, Operation, find}
use layerrail_deploy.Build.Store.Methods
use layerrail_deploy.Build.Store.Rows.{find-update, find-build_id}
use layerrail_deploy.Build.Store.Writes.{marked-KeepsKeys}
use layerrail_deploy.Build.World.{
  finalized, registered, revoked, clone_requested, job_dispatched, Lease, CloneCredentials,
  Services, Settings, World,
}
use layerrail_deploy.Build.Commands.{run_lease, run_claimed, cancel, cancel_operation, dispatch}

-- What the control plane is told of an exception: its outcome and its safe error.
abbrev pub told : Fault → String × String
told (invalid_contract m) = ("rejected", "build_command_invalid")
told (conflict m) = ("rejected", "build_command_invalid")
told (dependency m r) = ("retry", "build_dependency_unavailable")
told (kubernetes m) = ("retry", "build_dependency_unavailable")
told (scan_error m) = ("retry", "build_controller_internal_error")
told (key_error m) = ("retry", "build_controller_internal_error")
told (value_error m) = ("retry", "build_controller_internal_error")
told integrity = ("retry", "build_controller_internal_error")
told internal = ("retry", "build_controller_internal_error")

module _ (env : Services) (settings : Settings) where
  -- A command that ran is reported as published, and as nothing else if the report is taken.
  run_claimed_published :
      (lease : Lease) (w v : World)
      → run_lease env settings lease.command w ≡ (ok tt, v)
      → env.finalize v.step ≡ ok tt
      → (run_claimed env settings lease w).1.calls
        ≡ finalized lease.event_id "published" none ∷ v.calls
  unfolding run_claimed
  run_claimed_published lease w v ran taken = ground (arith, ran, taken)

  -- A command whose run raised is reported once, by the outcome of its exception: rejected if the
  -- command is at fault, and retried otherwise. Nothing is reported of a lease with no event id.
  run_claimed_raised :
      (lease : Lease) (w v : World) (e : Fault)
      → run_lease env settings lease.command w ≡ (err e, v)
      → (run_claimed env settings lease w).1.calls ≡ (
          if lease.event_id == ""
          then v.calls
          else finalized lease.event_id (told e).0 (some (told e).1) ∷ v.calls)
  unfolding run_claimed
  run_claimed_raised lease w v e ran = ground (arith, ran)

  cancel_operation_raises :
      (command : CancelCommand) (o : Operation) (w : World)
      → succeeded (cancel_operation env settings command o w).0 ≡ false
  unfolding cancel_operation
  cancel_operation_raises command o w = ground arith

  -- The cancellation of a build by its owner never succeeds but for a build that is canceled
  -- already: `_cancel` calls `complete_cancellation` without its evidence. The row is left
  -- canceling, never canceled.
  pub cancel_stuck :
      (command : CancelCommand) (o : Operation) (w : World)
      → find command.build_id w.store.rows ≡ some o
      → o.status ≢ canceled
      → o.organization_id ≡ command.organization_id
      → o.deployment_id ≡ command.deployment_id
      → (succeeded (cancel env settings command w).0 ≡ false)
        × (find command.build_id (cancel env settings command w).1.store.rows
            ≡ some (record o { status = canceling; updated_at = env.time w.step }))
  unfolding cancel cancel_operation
  cancel_stuck command o w found unended organization deployment =
      let f = Methods.marked canceling none (env.time w.step) in
      ground (
        arith,
        found,
        eq_iff o.organization_id command.organization_id,
        eq_iff o.deployment_id command.deployment_id,
        find-build_id command.build_id w.store.rows o found,
        find-update f (marked-KeepsKeys canceling none (env.time w.step)) command.build_id
            command.build_id w.store.rows,
        eq_refl command.build_id,
      )

  -- A build command that is delivered again after its build was canceled starts the job, if every
  -- service answers and the clone credential lives long enough; the store then refuses the
  -- transition, and the credential is revoked, but nothing deletes the job.
  pub dispatch_canceled :
      (command : BuildCommand) (o : Operation) (w : World) (c : CloneCredentials) (t : ℕ)
      (id : String)
      → find command.build_id w.store.rows ≡ some o
      → o.request_digest ≡ Methods.request_digest env.hash command
      → o.status ≡ canceled
      → env.credentials (suc w.step) ≡ ok c
      → env.timestamp c.expires_at ≡ some t
      → 60 ≤ min settings.build_timeout_seconds (t - env.time (suc (suc w.step)) - 30)
      → env.register (suc (suc (suc (suc w.step)))) ≡ ok id
      → env.job_dispatch (suc (suc (suc (suc (suc w.step))))) ≡ ok true
      → env.revoke (suc (suc (suc (suc (suc (suc (suc w.step))))))) ≡ ok tt
      → ((dispatch env settings command w).0 ≡ err (conflict "operation transition is invalid"))
        × ((dispatch env settings command w).1.calls
            ≡ revoked id
              ∷ job_dispatched command.build_id
                  (min settings.build_timeout_seconds (t - env.time (suc (suc w.step)) - 30))
              ∷ registered id o.repository
              ∷ clone_requested command.build_id
              ∷ w.calls)
  unfolding dispatch
  dispatch_canceled command o w c t id found digest over given date long issued started taken =
      ground (
        arith,
        found,
        eq_iff o.request_digest (Methods.request_digest env.hash command),
        find-build_id command.build_id w.store.rows o found,
      )

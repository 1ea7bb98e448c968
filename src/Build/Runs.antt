-- ===== src/Build/Runs.antt =====
-- Runs of the build controller's commands and of its reconciler, and their theorems at concrete
-- inputs.
use layerrail_deploy.Prelude.{ℕ, ◌≡◌, refl, ap, sym, Bool, true, false, some, [], ◌∷◌, arith}
use layerrail_deploy.Effect.{Result, ok, err, succeeded}
use layerrail_deploy.Json.{get}
use layerrail_deploy.Build.Contracts.{Fault, conflict, command_value}
use layerrail_deploy.Build.Store.{
  Status, running, result_pending, canceling, canceled, Operation, find,
}
use layerrail_deploy.Build.Store.Methods
use layerrail_deploy.Build.World.{
  ScanResult, revoked, job_dispatched, registered, clone_requested, World,
}
use layerrail_deploy.Build.Commands.{cancel, dispatch, accept_result}
use layerrail_deploy.Build.Commands.Outcomes.{cancel_stuck, dispatch_canceled}
use layerrail_deploy.Build.Reconciler.Results.{process_result, reconcile_all}
use layerrail_deploy.Build.Reconciler.Reports.{completed_sent}
use layerrail_deploy.Build.Reconciler.Scans.{process_result_needs_scan}
use layerrail_deploy.Build.Reconciler.Jobs.{reconcile_all_returns, every_step}
use layerrail_deploy.Build.Samples.{
  command, cancellation, sample_hash, operation, store, static_result, services, settings, world,
}

found : (status : Status) → find "b1" (store status).rows ≡ some (operation status)
unfolding find
found status = refl

cancel_stuck_example :
    (succeeded (cancel (services true) settings cancellation (world (store running))).0 ≡ false)
    × (find "b1" (cancel (services true) settings cancellation (world (store running))).1.store.rows
        ≡ some (record (operation running) { status = canceling; updated_at = 1000 }))
cancel_stuck_example =
    cancel_stuck (services true) settings cancellation (operation running) (world (store running))
      (found running) (λ e. cc) refl refl

digest_matches : (operation canceled).request_digest ≡ Methods.request_digest sample_hash command
unfolding Methods.request_digest sample_hash command_value
digest_matches = refl

dispatch_canceled_example :
    ((dispatch (services true) settings command (world (store canceled))).0
      ≡ err (conflict "operation transition is invalid"))
    × ((dispatch (services true) settings command (world (store canceled))).1.calls
        ≡ revoked "cred1"
          ∷ job_dispatched "b1" 900
          ∷ registered "cred1" "lrail/org/svc"
          ∷ clone_requested "b1"
          ∷ [])
dispatch_canceled_example =
    dispatch_canceled (services true) settings command (operation canceled) (world (store canceled))
      (record { expires_at = "later" }) 5000 "cred1" (found canceled) digest_matches refl refl refl
      (omega arith) refl refl refl

accepted : Result Fault (Operation × Bool) × World
accepted = accept_result (services true) settings static_result (world (store running))

first_result : Result Fault (Operation × Bool) → Operation
first_result (ok (o, fresh)) = o
first_result (err e) = operation running

accepts :
    accept_result (services true) settings static_result (world (store running))
    ≡ (ok (first_result accepted.0, true), accepted.1)
unfolding accepted first_result accept_result Methods.save_result
accepts = refl

reconcile_all_returns_example :
    reconcile_all
      (services true)
      settings
      (operation running ∷ operation canceling ∷ [])
      (world (store running))
    ≡ (
      ok tt,
      every_step
          (services true)
          settings
          (operation running ∷ operation canceling ∷ [])
          (world (store running)),
    )
reconcile_all_returns_example =
    reconcile_all_returns (services true) settings (operation running ∷ operation canceling ∷ [])
      (world (store running))

abbrev reported : Bool → Result Fault ScanResult → Bool
reported other (ok scanned) = scanned.passed
reported other (err e) = other

refused :
    (k : ℕ) (scanned : ScanResult) → (services false).scan k ≡ ok scanned → scanned.passed ≡ false
refused k scanned same = ap (reported false) (sym same)

process_result_needs_scan_example :
    completed_sent
      (process_result
        (services false)
        settings
        (operation result_pending)
        (world (store result_pending))).1.calls
    ≡ 0
unfolding get
process_result_needs_scan_example =
    process_result_needs_scan (services false) settings (operation result_pending)
      (world (store result_pending)) refused tt

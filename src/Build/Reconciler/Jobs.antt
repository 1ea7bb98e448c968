-- ===== src/Build/Reconciler/Jobs.antt =====
-- What the reconciler does with jobs, failures and scan credentials, and that it goes on.
use layerrail_deploy.Prelude.{
  suc, String, ◌≡◌, refl, eq_refl, true, false, none, some, List, [], ◌∷◌, arith, Option-cases, inl,
  inr,
}
use layerrail_deploy.Effect.{Result, ok, err, succeeded, Result-cases, handle, pure}
use layerrail_deploy.Json.{get}
use layerrail_deploy.Build.Contracts.{Fault, Failure}
use layerrail_deploy.Build.Store.{running, Operation, find}
use layerrail_deploy.Build.Store.Methods
use layerrail_deploy.Build.Store.Methods.{completion_observed, marked}
use layerrail_deploy.Build.Store.Rows.{find-update}
use layerrail_deploy.Build.Store.Writes.{completion_observed-KeepsKeys}
use layerrail_deploy.Build.World.{JobState, Services, Settings, World}
use layerrail_deploy.Build.Commands.Credentials.{open_credential}
use layerrail_deploy.Build.Reconciler.{fail_without_result, observe_complete, observe_state}
use layerrail_deploy.Build.Reconciler.Processing.{scan_image}
use layerrail_deploy.Build.Reconciler.Results.{step_for, reconcile_one, reconcile_all}

handled : (r : Result Fault Unit) (w : World) → handle r (λ e. pure tt) w ≡ (ok tt, w)
handled (ok a) w = refl
handled (err e) w = refl

module _ (env : Services) (settings : Settings) where
  reconcile_one_returns :
      (o : Operation) (w : World)
      → reconcile_one env settings o w ≡ (ok tt, (step_for env settings o.status o w).1)
  unfolding reconcile_one
  reconcile_one_returns o w =
      handled (step_for env settings o.status o w).0 (step_for env settings o.status o w).1

  -- the step of each build in turn, whatever it returns or raises
  abbrev pub every_step : List Operation → World → World
  every_step [] w = w
  every_step (o ∷ rest) w = every_step rest (step_for env settings o.status o w).1

  -- Whatever the services and the store raise for some builds, the reconciler returns, and it has
  -- run the step of every build once and in order, each from what the one before has left.
  pub reconcile_all_returns :
      (operations : List Operation) (w : World)
      → reconcile_all env settings operations w ≡ (ok tt, every_step operations w)
  unfolding reconcile_all
  reconcile_all_returns [] w = refl
  reconcile_all_returns (o ∷ rest) w =
      rw (reconcile_one_returns o w)
        (reconcile_all_returns rest (step_for env settings o.status o w).1)

  -- A job that is seen complete for the first time is given its grace: the build is not failed and
  -- nothing is sent, and the time is written down.
  observe_state_first_complete :
      (o : Operation) (state : JobState) (w : World)
      → find o.build_id w.store.rows ≡ some o
      → o.status ≡ running
      → o.completion_observed_at ≡ none
      → state.exists ≡ true
      → state.failed ≡ false
      → state.complete ≡ true
      → ((observe_state env settings o state w).1.calls ≡ w.calls)
        × (find o.build_id (observe_state env settings o state w).1.store.rows
            ≡ some (record o { completion_observed_at = some (env.time w.step) }))
  unfolding observe_state observe_complete Methods.observe_completion
  observe_state_first_complete o state w found runs fresh there healthy done =
      let f = completion_observed (env.time w.step) in
      ground (
        arith,
        found,
        find-update f (completion_observed-KeepsKeys (env.time w.step)) o.build_id o.build_id
            w.store.rows,
        eq_refl o.build_id,
      )

  -- A failure that the control plane does not take leaves the store as it is, so that the next
  -- pass reports it again.
  fail_without_result_unreported :
      (o : Operation) (failure : Failure) (logs : List String) (w : World)
      → succeeded (env.send_event (suc (suc w.step))) ≡ false
      → (fail_without_result env settings o failure logs w).1.store ≡ w.store
  unfolding fail_without_result
  fail_without_result_unreported o failure logs w refused = ground arith

  -- However a scan of an image ends, no pull credential is left open, if none was before.
  scan_image_revokes :
      (o : Operation) (w : World)
      → open_credential w.calls ≡ none
      → open_credential (scan_image env settings o w).1.calls ≡ none
  unfolding scan_image
  scan_image_revokes o w h = elim (Result-cases (env.register (suc w.step))) [
    | inr (e, raised) ↦ rw raised h
    | inl (id, issued) ↦ elim (Option-cases (get "image_reference" o.result)) [
      | inl missing ↦ rw (issued, missing) (ground (arith, eq_refl id))
      | inr (v, given) ↦ elim (Result-cases (env.scan (suc (suc w.step)))) [
        | inr (e, raised) ↦ rw (issued, given, raised) (ground (arith, eq_refl id))
        | inl (scan, done) ↦ rw (issued, given, done) (ground (arith, eq_refl id))
      ]
    ]
  ]

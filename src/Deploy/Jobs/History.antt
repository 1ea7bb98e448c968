-- ===== src/Deploy/Jobs/History.antt =====
-- Cancellation against every other job, over any sequence of them.
use layerrail_deploy.Prelude.{
  ℕ, String, ◌≡◌, refl, ◌==◌, Bool, true, false, not, ◌||◌, Option, none, some, List, [], ◌∷◌, any,
  first, change, arith, Option-cases, Bool-cases, inl, inr, ap, sym, subst, ◌∙◌, is_some,
}
use layerrail_deploy.Effect.{ok}
use layerrail_deploy.Effect.Success.{guard-ok}
use layerrail_deploy.Deploy.Model.{Environment, Project, Deployment, Database, has_id}
use layerrail_deploy.Deploy.Aliases.{has_subdomain, rollback_subdomain}
use layerrail_deploy.Deploy.Rollback.{rollback}
use layerrail_deploy.Deploy.Status.{
  update_status, updated_row, canceled_change, abort_running, Lookup, cancel, is_final,
}
use layerrail_deploy.Deploy.Jobs.{
  find, fail_deployment, finalize_deployment, delete_container, Answers,
  cleanup_inactive_containers, Probe, check_status,
}
use layerrail_deploy.Deploy.Jobs.Canceled.{
  IsCanceled, bad, update_status-other, settle_container-IsCanceled, fail_deployment-IsCanceled,
  finalize_deployment-IsCanceled, delete_found-IsCanceled, cleanup_found-IsCanceled,
  check_status-IsCanceled, found_canceled,
}

-- a cancellation or a rollback that a user asks for, a job of the workers, or a look of the monitor
pub data Call : Type 0 where
  cancellation : String → Bool → Lookup → ℕ → Call
  undoing : Environment → Project → Call
  failure : (deployment_id status reason : String) → Lookup → ℕ → Call
  finalization : String → ℕ → Call
  deletion : String → Lookup → Call
  cleanup : String → Answers → Bool → Call
  check : String → Probe → ℕ → Call

abbrev pub cancel_found : Option Deployment → Bool → Lookup → ℕ → Database → Database
cancel_found none job_running lookup now db = db
cancel_found (some d) job_running lookup now db = (cancel d job_running lookup now db).1

module _ (lower : String → String) (show : ℕ → String) (timeout : ℕ) where
  unfoldable pub after : Call → Database → Database
  after (cancellation i job_running lookup now) db =
      cancel_found (find i db) job_running lookup now db
  after (undoing environment project) db = (rollback environment project db).1
  after (failure i status reason lookup now) db = fail_deployment i status reason lookup now db
  after (finalization i now) db = finalize_deployment lower i now db
  after (deletion i lookup) db = delete_container i lookup db
  after (cleanup project_id answers remove) db =
      cleanup_inactive_containers project_id answers remove db
  after (check i probe now) db = check_status show timeout i probe now db

  unfoldable pub history : List Call → Database → Database
  history [] db = db
  history (c ∷ calls) db = history calls (after c db)

module _ (i : String) where
  all_canceled :
      (now : ℕ) (deployments : List Deployment)
      → any (bad i) (change (has_id i) (updated_row canceled_change now) deployments) ≡ false
  all_canceled now [] = refl
  all_canceled now (d ∷ deployments) = elim (Bool-cases (has_id i d)) [
    | inl e ↦ rw (e, e) (all_canceled now deployments)
    | inr e ↦ rw (e, e) (all_canceled now deployments)
  ]

  abort_running-IsCanceled :
      (job_running : Bool) (job_id : Option String) (db : Database)
      → IsCanceled i db
      → IsCanceled i (abort_running job_running job_id db)
  abort_running-IsCanceled false job_id db h = h
  abort_running-IsCanceled true none db h = h
  abort_running-IsCanceled true (some job_id) db h = h

  update_status-IsCanceled :
      (d : Deployment) (now : ℕ) (db : Database)
      → d.id ≡ i
      → IsCanceled i (update_status d canceled_change true now db)
  unfolding update_status
  update_status-IsCanceled d now db own = rw own (all_canceled now db.deployments)

  cancel_refused :
      (d : Deployment) (job_running : Bool) (lookup : Lookup) (now : ℕ) (db : Database)
      → not (is_final d.status || is_some d.conclusion) ≡ false
      → (cancel d job_running lookup now db).1 ≡ db
  unfolding cancel
  cancel_refused d job_running lookup now db e = rw e refl

  cancel-other :
      (d : Deployment) (job_running : Bool) (lookup : Lookup) (now : ℕ) (db : Database)
      → not (is_final d.status || is_some d.conclusion) ≡ true
      → (d.id == i) ≡ false
      → IsCanceled i db
      → IsCanceled i (cancel d job_running lookup now db).1
  unfolding cancel
  cancel-other d job_running lookup now db e apart h = rw e (
      settle_container-IsCanceled i lookup d now
        (abort_running job_running d.job_id (update_status d canceled_change true now db))
        (abort_running-IsCanceled job_running d.job_id (update_status d canceled_change true now db)
          (update_status-other i d canceled_change true now db apart h)))

  -- a cancellation of another deployment, or one that is refused
  cancel_found-IsCanceled :
      (j : String) (o : Option Deployment) (job_running : Bool) (lookup : Lookup) (now : ℕ)
      (db : Database)
      → find j db ≡ o
      → IsCanceled i db
      → IsCanceled i (cancel_found o job_running lookup now db)
  cancel_found-IsCanceled j none job_running lookup now db found h = h
  cancel_found-IsCanceled j (some d) job_running lookup now db found h =
      elim (Bool-cases (not (is_final d.status || is_some d.conclusion))) [
        | inr e ↦ subst (IsCanceled i) (sym (cancel_refused d job_running lookup now db e)) h
        | inl e ↦ elim (found_canceled i j d db found h) [
          | inr settled ↦ absurd (ground (arith, settled, e))
          | inl apart ↦ cancel-other d job_running lookup now db e apart h
        ]
      ]

  rollback-deployments :
      (environment : Environment) (project : Project) (db : Database)
      → (rollback environment project db).1.deployments ≡ db.deployments
  unfolding rollback
  rollback-deployments environment project db =
      elim (Option-cases
        (first (has_subdomain (rollback_subdomain project environment)) db.aliases)) [
          | inl absent ↦ rw absent refl
          | inr (a, found) ↦ elim (Option-cases a.previous_deployment_id) [
            | inl p ↦ rw (found, p) refl
            | inr (previous, p) ↦ rw (found, p) refl
          ]
        ]

  after-IsCanceled :
      (lower : String → String) (show : ℕ → String) (timeout : ℕ) (c : Call) (db : Database)
      → IsCanceled i db
      → IsCanceled i (after lower show timeout c db)
  unfolding after delete_container cleanup_inactive_containers
  after-IsCanceled lower show timeout (cancellation j job_running lookup now) db h =
      cancel_found-IsCanceled j (find j db) job_running lookup now db refl h
  after-IsCanceled lower show timeout (undoing environment project) db h =
      ap (any (bad i)) (rollback-deployments environment project db) ∙ h
  after-IsCanceled lower show timeout (failure j status reason lookup now) db h =
      fail_deployment-IsCanceled i j status reason lookup now db h
  after-IsCanceled lower show timeout (finalization j now) db h =
      finalize_deployment-IsCanceled i lower j now db h
  after-IsCanceled lower show timeout (deletion j lookup) db h =
      delete_found-IsCanceled i (find j db) lookup db h
  after-IsCanceled lower show timeout (cleanup project_id answers remove) db h =
      cleanup_found-IsCanceled i _ answers remove db h
  after-IsCanceled lower show timeout (check j probe now) db h =
      check_status-IsCanceled i show timeout j probe now db h

  history-IsCanceled :
      (lower : String → String) (show : ℕ → String) (timeout : ℕ) (calls : List Call)
      (db : Database)
      → IsCanceled i db
      → IsCanceled i (history lower show timeout calls db)
  unfolding history
  history-IsCanceled lower show timeout [] db h = h
  history-IsCanceled lower show timeout (c ∷ calls) db h =
      history-IsCanceled lower show timeout calls (after lower show timeout c db)
        (after-IsCanceled lower show timeout c db h)

  cancel-IsCanceled :
      (d : Deployment) (job_running : Bool) (lookup : Lookup) (now : ℕ) (s t : Database)
      → d.id ≡ i
      → cancel d job_running lookup now s ≡ (ok tt, t)
      → IsCanceled i t
  unfolding cancel
  cancel-IsCanceled d job_running lookup now s t own h =
      let (open_, h₁) = guard-ok tt t (not (is_final d.status || is_some d.conclusion)) _ _ s h in
      subst (IsCanceled i) (ap (λ x. x.1) h₁) (
        settle_container-IsCanceled i lookup d now
          (abort_running job_running d.job_id (update_status d canceled_change true now s))
          (abort_running-IsCanceled job_running d.job_id
            (update_status d canceled_change true now s) (update_status-IsCanceled d now s own)))

-- Once a cancellation has gone through, the deployment is canceled and completed after any sequence
-- of other cancellations, rollbacks, failures, finalizations, deletions and cleanups of containers
-- and looks of the monitor, also of this deployment; every row with its identity is.
pub history-cancel :
    (lower : String → String) (show : ℕ → String) (timeout : ℕ) (d : Deployment)
    (job_running : Bool) (lookup : Lookup) (now : ℕ) (calls : List Call) (s t : Database)
    → cancel d job_running lookup now s ≡ (ok tt, t)
    → IsCanceled d.id (history lower show timeout calls t)
history-cancel lower show timeout d job_running lookup now calls s t h =
    history-IsCanceled d.id lower show timeout calls t
      (cancel-IsCanceled d.id d job_running lookup now s t refl h)

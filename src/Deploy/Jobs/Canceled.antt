-- ===== src/Deploy/Jobs/Canceled.antt =====
-- A canceled deployment stays canceled, whatever jobs still run for it.
use layerrail_deploy.Prelude.{
  ℕ, String, ◌≡◌, refl, ◌==◌, eq_iff, Bool, true, false, not, ◌&&◌, Option, none, some, any, first,
  ap, ◌∙◌, ltb, ◌-◌, any-change_kept, first-bad, arith, Option-cases, Bool-cases, ◌⊎◌, inl, inr,
  is_some,
}
use layerrail_deploy.Deploy.Model.{
  AliasType, for_branch, for_environment, for_environment_id, finalize, stopped, removed,
  delete_job, Deployment, Project, Database, has_id, project_has_id,
}
use layerrail_deploy.Deploy.Aliases.{
  has_subdomain, nonempty, set_branch, set_environment, update_or_create, set_alias, setup_aliases,
  get_alias_domains,
}
use layerrail_deploy.Deploy.Status.{
  Change, no_change, enqueue, update_status, updated_row, Lookup, present, missing, broken,
  settle_found, settle_container, has_container,
}
use layerrail_deploy.Deploy.Jobs.{
  succeeded_change, are_storable, is_present, mark_removed, delete_row, find, is_canceled,
  is_completed, fail_deployment, finalize_row, finalize_deployment, delete_found, Answers,
  cleanup_rows, cleaned, is_inactive, cleanup_found, Probe, gone, exited, ready, waiting, other,
  raised, probed, is_watched, check_status,
}

abbrev pub is_settled_row : Deployment → Bool
is_settled_row d = is_canceled d.conclusion && is_completed d.status

abbrev pub bad : String → Deployment → Bool
bad i d = has_id i d && not (is_settled_row d)

-- Every row of the deployment is canceled and completed.
abbrev pub IsCanceled : String → Database → Type 0
IsCanceled i db = any (bad i) db.deployments ≡ false

module _ (i : String) where
  pub update_status-other :
      (d : Deployment) (c : Change) (emit : Bool) (now : ℕ) (db : Database)
      → (d.id == i) ≡ false
      → IsCanceled i db
      → IsCanceled i (update_status d c emit now db)
  unfolding update_status
  update_status-other d c emit now db apart h =
      any-change_kept (has_id d.id) (bad i) (updated_row c now) db.deployments
        (λ (x : Deployment) e k. ground (arith, eq_iff x.id d.id, eq_iff x.id i, eq_iff d.id i)) h

  update_status-container :
      (d : Deployment) (c : Change) (emit : Bool) (now : ℕ) (db : Database)
      → c.status ≡ none
      → c.conclusion ≡ none
      → IsCanceled i db
      → IsCanceled i (update_status d c emit now db)
  unfolding update_status
  update_status-container d c emit now db e f h =
      any-change_kept (has_id d.id) (bad i) (updated_row c now) db.deployments
        (λ (x : Deployment) p k. rw (e, f) k) h

  settle_found-IsCanceled :
      (lookup : Lookup) (d : Deployment) (now : ℕ) (db : Database)
      → IsCanceled i db
      → IsCanceled i (settle_found lookup d now db)
  settle_found-IsCanceled present d now db h =
      update_status-container d (record no_change { container_status = some stopped }) false now
        (enqueue (delete_job d.id) db) refl refl h
  settle_found-IsCanceled missing d now db h =
      update_status-container d (record no_change { container_status = some removed }) false now db
        refl refl h
  settle_found-IsCanceled broken d now db h = h

  pub settle_container-IsCanceled :
      (lookup : Lookup) (d : Deployment) (now : ℕ) (db : Database)
      → IsCanceled i db
      → IsCanceled i (settle_container lookup d now db)
  unfolding settle_container
  settle_container-IsCanceled lookup d now db h = elim (Bool-cases (has_container d)) [
    | inl e ↦ rw e (settle_found-IsCanceled lookup d now db h)
    | inr e ↦ rw e h
  ]

  pub found_canceled :
      (j : String) (d : Deployment) (db : Database)
      → find j db ≡ some d
      → IsCanceled i db
      → ((d.id == i) ≡ false) ⊎ (is_settled_row d ≡ true)
  found_canceled j d db found h =
      let (same, kept) = first-bad (has_id j) (bad i) db.deployments d h found in
      ground (arith, same, kept)

  pub fail_deployment-IsCanceled :
      (j status reason : String) (lookup : Lookup) (now : ℕ) (db : Database)
      → IsCanceled i db
      → IsCanceled i (fail_deployment j status reason lookup now db)
  unfolding fail_deployment
  fail_deployment-IsCanceled j status reason lookup now db h = elim (Option-cases (find j db)) [
    | inl absent ↦ rw absent h
    | inr (d, found) ↦ elim (Bool-cases (is_some d.conclusion)) [
      | inl e ↦ rw (found, e) h
      | inr e ↦
          rw (found, e)
            (elim (found_canceled j d db found h) [
              | inr settled ↦ absurd (ground (arith, settled, e))
              | inl apart ↦ update_status-other d _ true now _ apart (
                  settle_container-IsCanceled lookup d now _
                    (update_status-other d _ true now db apart h))
            ])
    ]
  ]

  set_alias-deployments :
      (s : Option String) (j : String) (kind : AliasType) (value : String) (e : Option String)
      (db : Database)
      → (set_alias s j kind value e db).deployments ≡ db.deployments
  unfolding update_or_create
  set_alias-deployments none j kind value e db = refl
  set_alias-deployments (some s) j kind value e db =
      elim (Option-cases (first (has_subdomain s) db.aliases)) [
        | inl absent ↦ rw absent refl
        | inr (a, found) ↦ rw found refl
      ]

  pub setup_aliases-deployments :
      (lower : String → String) (project : Project) (d : Deployment) (db : Database)
      → (setup_aliases lower project d db).deployments ≡ db.deployments
  unfolding setup_aliases
  setup_aliases-deployments lower project d db =
      let domains = get_alias_domains lower project d in
      set_alias-deployments (nonempty domains.environment_id_subdomain) d.id for_environment_id
        d.environment_id (some d.environment_id)
        (set_environment domains d (set_branch domains d db))
      ∙ set_alias-deployments domains.environment_subdomain d.id for_environment d.environment_id
          (some d.environment_id) (set_branch domains d db)
      ∙ set_alias-deployments domains.branch_subdomain d.id for_branch d.branch none db

  finalize_row-IsCanceled :
      (lower : String → String) (project : Option Project) (d : Deployment) (now : ℕ)
      (db : Database)
      → (d.id == i) ≡ false
      → IsCanceled i db
      → IsCanceled i (finalize_row lower project d now db)
  finalize_row-IsCanceled lower none d now db apart h = h
  finalize_row-IsCanceled lower (some project) d now db apart h =
      elim (Bool-cases (are_storable (get_alias_domains lower project d))) [
        | inr e ↦ rw e h
        | inl e ↦ rw e (
            update_status-other d succeeded_change true now (setup_aliases lower project d db) apart
              (ap (any (bad i)) (setup_aliases-deployments lower project d db) ∙ h))
      ]

  pub finalize_deployment-IsCanceled :
      (lower : String → String) (j : String) (now : ℕ) (db : Database)
      → IsCanceled i db
      → IsCanceled i (finalize_deployment lower j now db)
  unfolding finalize_deployment
  finalize_deployment-IsCanceled lower j now db h = elim (Option-cases (find j db)) [
    | inl absent ↦ rw absent h
    | inr (d, found) ↦ elim (Bool-cases (is_canceled d.conclusion)) [
      | inl e ↦ rw (found, e) h
      | inr e ↦
          rw (found, e)
            (elim (found_canceled j d db found h) [
              | inr settled ↦ absurd (ground (arith, settled, e))
              | inl apart ↦
                  finalize_row-IsCanceled lower (first (project_has_id d.project_id) db.projects) d
                    now db apart h
            ])
    ]
  ]

  delete_row-IsCanceled :
      (d : Deployment) (db : Database) → IsCanceled i db → IsCanceled i (delete_row d db)
  delete_row-IsCanceled d db h = elim (Bool-cases (is_some d.container_id)) [
    | inr e ↦ rw e h
    | inl e ↦ rw e (
        any-change_kept (has_id d.id) (bad i) mark_removed db.deployments
          (λ (x : Deployment) p k. k) h)
  ]

  pub delete_found-IsCanceled :
      (o : Option Deployment) (lookup : Lookup) (db : Database)
      → IsCanceled i db
      → IsCanceled i (delete_found o lookup db)
  delete_found-IsCanceled none lookup db h = h
  delete_found-IsCanceled (some d) broken db h = h
  delete_found-IsCanceled (some d) present db h = delete_row-IsCanceled d db h
  delete_found-IsCanceled (some d) missing db h = delete_row-IsCanceled d db h

  cleanup_rows-IsCanceled :
      (answers : Answers) (remove : Bool) (project_id : String) (db : Database)
      → IsCanceled i db
      → any (bad i) (cleanup_rows answers remove project_id db.aliases db.deployments) ≡ false
  cleanup_rows-IsCanceled answers remove project_id db h =
      elim (Bool-cases (
        any
          (λ (d : Deployment).
            is_inactive project_id db.aliases d && is_present (answers.stop d.id))
          db.deployments)) [
            | inr e ↦ rw e h
            | inl e ↦ rw e (
                any-change_kept (is_inactive project_id db.aliases) (bad i) (cleaned answers remove)
                  db.deployments (λ (x : Deployment) p k. k) h)
          ]

  pub cleanup_found-IsCanceled :
      (project : Option Project) (answers : Answers) (remove : Bool) (db : Database)
      → IsCanceled i db
      → IsCanceled i (cleanup_found project answers remove db)
  cleanup_found-IsCanceled none answers remove db h = h
  cleanup_found-IsCanceled (some project) answers remove db h = elim (Bool-cases project.deleted) [
    | inl e ↦ rw e h
    | inr e ↦ rw e (cleanup_rows-IsCanceled answers remove project.id db h)
  ]

  probed-IsCanceled :
      (show : ℕ → String) (probe : Probe) (d : Deployment) (now : ℕ) (db : Database)
      → (d.id == i) ≡ false
      → IsCanceled i db
      → IsCanceled i (probed show probe d now db)
  probed-IsCanceled show gone d now db apart h = h
  probed-IsCanceled show (exited code) d now db apart h = h
  probed-IsCanceled show ready d now db apart h =
      update_status-other d (record no_change { status = some finalize }) true now db apart h
  probed-IsCanceled show waiting d now db apart h = h
  probed-IsCanceled show other d now db apart h = h
  probed-IsCanceled show (raised e) d now db apart h = h

  pub check_status-IsCanceled :
      (show : ℕ → String) (timeout : ℕ) (j : String) (probe : Probe) (now : ℕ) (db : Database)
      → IsCanceled i db
      → IsCanceled i (check_status show timeout j probe now db)
  unfolding check_status
  check_status-IsCanceled show timeout j probe now db h = elim (Option-cases (find j db)) [
    | inl absent ↦ rw absent h
    | inr (d, found) ↦ elim (Bool-cases (is_watched d)) [
      | inr e ↦ rw (found, e) h
      | inl e ↦ elim (Bool-cases (ltb timeout (now - d.created_at))) [
        | inl f ↦ rw (found, e, f) h
        | inr f ↦
            rw (found, e, f)
              (elim (found_canceled j d db found h) [
                | inr settled ↦ absurd (ground (arith, settled, e))
                | inl apart ↦ probed-IsCanceled show probe d now db apart h
              ])
      ]
    ]
  ]

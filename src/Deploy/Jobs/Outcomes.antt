-- ===== src/Deploy/Jobs/Outcomes.antt =====
-- What the jobs do to a deployment: success with its aliases, failure, and who is spared.
use Prim.Native.String.{String, [], ◌∷◌}
use Prim.Native.Char.{Char}
use mathlib.Core.List.{List}
use text.Mathlib.TextLemmas.{cons-append, nil-append}
use layerrail_deploy.Prelude.{
  ℕ, ◌≡◌, refl, subst, ap, ◌∙◌, ◌⊕◌, eq_iff, Bool, true, false, ◌&&◌, Option, none, some, any,
  first, first-change, first-change_other, arith, Bool-cases, inl, inr, is_some, if◌then◌else◌,
}
use layerrail_deploy.Deploy.Model.{
  succeeded, completed, fail, failed, ContainerStatus, stopped, removed, Deployment, Project, Alias,
  for_environment_id, Database, has_id, project_has_id, delete_job,
}
use layerrail_deploy.Deploy.Aliases.{
  has_subdomain, nonempty, set_branch, set_environment, setup_aliases, get_alias_domains,
  update_or_create,
}
use layerrail_deploy.Deploy.Aliases.Lookups.{alias_at, update_or_create-at, made, made-deployment}
use layerrail_deploy.Deploy.Status.{
  Change, no_change, update_status, updated_row, enqueue, Lookup, present, missing, broken,
  has_container, settle_found, settle_container,
}
use layerrail_deploy.Deploy.Jobs.{
  are_storable, find, is_canceled, refers, is_inactive, Answers, cleaned, is_present, cleanup_rows,
  cleanup_found, cleanup_inactive_containers, finalize_deployment, succeeded_change, failed_change,
  fail_deployment, or_default,
}
use layerrail_deploy.Deploy.Jobs.Canceled.{setup_aliases-deployments}

pub find_id : (i : String) (d : Deployment) (db : Database) → find i db ≡ some d → d.id ≡ i
find_id i d db h = first_id i d db.deployments h
  where
    first_id :
        (i : String) (d : Deployment) (deployments : List Deployment)
        → first (has_id i) deployments ≡ some d
        → d.id ≡ i
    first_id i d List.[] h = ground arith
    first_id i d (List.◌∷◌ e deployments) h =
        ground (arith, h, eq_iff e.id i, first_id i d deployments)

-- An update of a row is found again.
find-update_status :
    (i : String) (d e : Deployment) (c : Change) (emit : Bool) (now : ℕ) (db : Database)
    → e.id ≡ i
    → find i db ≡ some d
    → find i (update_status e c emit now db) ≡ some (updated_row c now d)
unfolding update_status
find-update_status i d e c emit now db own found =
    rw own (
      first-change (has_id i) (updated_row c now) db.deployments d (λ (x : Deployment). refl) found)

nonempty-append : (s x y : String) (c : Char) → x ≡ c ∷ y → nonempty (s ⊕ x) ≡ some (s ⊕ x)
nonempty-append [] x y c e = rw (nil-append x, e) refl
nonempty-append (d ∷ s) x y c e = rw (cons-append d s x) refl

-- The deployment's own environment has an alias that refers to it.
refers-found :
    (s i : String) (aliases : List Alias) (a : Alias)
    → first (has_subdomain s) aliases ≡ some a
    → a.deployment_id ≡ i
    → any (refers i) aliases ≡ true
refers-found s i List.[] a h e = ground arith
refers-found s i (List.◌∷◌ b aliases) a h e = elim (Bool-cases (has_subdomain s b)) [
  | inl own ↦ ground (arith, h, own, e, eq_iff b.deployment_id i)
  | inr other ↦ ground (arith, other, h, refers-found s i aliases a)
]

setup_aliases-refers :
    (lower : String → String) (project : Project) (d : Deployment) (db : Database)
    → any (refers d.id) (setup_aliases lower project d db).aliases ≡ true
unfolding setup_aliases
setup_aliases-refers lower project d db =
    let domains = get_alias_domains lower project d in
    let before = set_environment domains d (set_branch domains d db) in
    let s = project.slug ⊕ "-env-id-" ⊕ d.environment_id in
    let named : nonempty s ≡ some s =
      nonempty-append project.slug ("-env-id-" ⊕ d.environment_id) ("env-id-" ⊕ d.environment_id)
        "-" (cons-append "-" "env-id-" d.environment_id) in
    rw named (
      refers-found s d.id
        (update_or_create s d.id for_environment_id d.environment_id (some d.environment_id)
          before).aliases
        (made before.next_alias s d.id for_environment_id d.environment_id (some d.environment_id)
          (alias_at s before))
        (update_or_create-at s d.id for_environment_id d.environment_id (some d.environment_id)
          before)
        (made-deployment before.next_alias s d.id d.environment_id for_environment_id
          (some d.environment_id) (alias_at s before)))

-- The cleanup leaves a deployment as it is if an alias refers to it, as its current or its previous
-- deployment.
pub cleanup_inactive_containers-refers :
    (i project_id : String) (answers : Answers) (remove : Bool) (db : Database)
    → any (refers i) db.aliases ≡ true
    → find i (cleanup_inactive_containers project_id answers remove db) ≡ find i db
unfolding cleanup_inactive_containers
cleanup_inactive_containers-refers i project_id answers remove db referred =
    found (first (project_has_id project_id) db.projects)
  where
    rows :
        (q : String)
        → first (has_id i) (cleanup_rows answers remove q db.aliases db.deployments) ≡ find i db
    rows q =
        elim (Bool-cases (
          any (λ (d : Deployment). is_inactive q db.aliases d && is_present (answers.stop d.id))
            db.deployments)) [
              | inr e ↦ rw e refl
              | inl e ↦ rw e (
                  first-change_other (is_inactive q db.aliases) (has_id i) (cleaned answers remove)
                    db.deployments (λ (x : Deployment) h. ground (arith, referred, eq_iff x.id i))
                    (λ (x : Deployment). refl))
            ]

    found :
        (project : Option Project) → find i (cleanup_found project answers remove db) ≡ find i db
    found none = refl
    found (some project) = elim (Bool-cases project.deleted) [
      | inl e ↦ rw e refl
      | inr e ↦ rw e (rows project.id)
    ]

finalized :
    (lower : String → String) (i : String) (now : ℕ) (d : Deployment) (project : Project)
    (db : Database)
    → find i db ≡ some d
    → is_canceled d.conclusion ≡ false
    → first (project_has_id d.project_id) db.projects ≡ some project
    → are_storable (get_alias_domains lower project d) ≡ true
    → (find i (finalize_deployment lower i now db) ≡ some (updated_row succeeded_change now d))
      × (any (refers i) (finalize_deployment lower i now db).aliases ≡ true)
unfolding finalize_deployment update_status
finalized lower i now d project db found open_ owned short =
    let own = find_id i d db found in
    rw (found, open_, owned, short)
      (
        find-update_status i d d succeeded_change true now (setup_aliases lower project d db) own
            (ap (first (has_id i)) (setup_aliases-deployments d.id lower project d db) ∙ found),
        subst (λ j. any (refers j) (setup_aliases lower project d db).aliases ≡ true) own
            (setup_aliases-refers lower project d db),
      )

-- the status of a container that may still run, after what Docker answered
abbrev pub settled_status : Lookup → Option ContainerStatus → Option ContainerStatus
settled_status present o = some stopped
settled_status missing o = some removed
settled_status broken o = o

find-settle_found :
    (lookup : Lookup) (i : String) (d e : Deployment) (now : ℕ) (db : Database)
    → e.id ≡ i
    → find i db ≡ some d
    → find i (settle_found lookup e now db)
      ≡ some (record d { container_status = settled_status lookup d.container_status })
find-settle_found present i d e now db own found =
    find-update_status i d e (record no_change { container_status = some stopped }) false now
      (enqueue (delete_job e.id) db) own found
find-settle_found missing i d e now db own found =
    find-update_status i d e (record no_change { container_status = some removed }) false now db own
      found
find-settle_found broken i d e now db own found = found

find-settle_container :
    (lookup : Lookup) (i : String) (d e : Deployment) (now : ℕ) (db : Database)
    → e.id ≡ i
    → find i db ≡ some d
    → find i (settle_container lookup e now db)
      ≡ some (record d {
        container_status =
            if has_container e
            then settled_status lookup d.container_status
            else d.container_status;
      })
unfolding settle_container
find-settle_container lookup i d e now db own found = elim (Bool-cases (has_container e)) [
  | inl h ↦ rw h (find-settle_found lookup i d e now db own found)
  | inr h ↦ rw h found
]

-- A finalization of a deployment that is in the database, with its project, that is not canceled, and
-- whose subdomains fit their column, makes it completed and succeeded, concluded now, whatever its
-- status and its conclusion were, leaves all else of its row, and an alias refers to it; the cleanup
-- that is queued then leaves the deployment as it is, for every answer of Docker.
pub finalize_deployment-succeeds :
    (lower : String → String) (i : String) (now : ℕ) (d : Deployment) (project : Project)
    (answers : Answers) (remove : Bool) (db : Database)
    → find i db ≡ some d
    → is_canceled d.conclusion ≡ false
    → first (project_has_id d.project_id) db.projects ≡ some project
    → are_storable (get_alias_domains lower project d) ≡ true
    → (find i (finalize_deployment lower i now db)
        ≡ some
            (record d { status = completed; conclusion = some succeeded; concluded_at = some now }))
      × (any (refers i) (finalize_deployment lower i now db).aliases ≡ true)
      × (find i (
            cleanup_inactive_containers d.project_id answers remove
              (finalize_deployment lower i now db))
          ≡ find i (finalize_deployment lower i now db))
finalize_deployment-succeeds lower i now d project answers remove db found open_ owned short =
    let (row, referred) = finalized lower i now d project db found open_ owned short in
    (
      row,
      referred,
      cleanup_inactive_containers-refers i d.project_id answers remove
          (finalize_deployment lower i now db) referred,
    )

-- A failure of a deployment that has no conclusion makes it completed and failed with the status
-- and the reason that are given; its container, if it may still run, is stopped or known to be
-- removed, unless Docker fails. A deployment that has a conclusion is left as it is.
pub fail_deployment-fails :
    (i status reason : String) (lookup : Lookup) (now : ℕ) (d : Deployment) (db : Database)
    → find i db ≡ some d
    → find i (fail_deployment i status reason lookup now db)
      ≡ some (
          if is_some d.conclusion then d else record d {
            status = completed;
            conclusion = some failed;
            concluded_at = some now;
            error = some (record { status = status; message = or_default reason });
            container_status =
                if has_container d
                then settled_status lookup d.container_status
                else d.container_status;
          })
unfolding fail_deployment
fail_deployment-fails i status reason lookup now d db found =
    elim (Bool-cases (is_some d.conclusion)) [
      | inl e ↦ rw (found, e) found
      | inr e ↦
          rw (found, e)
            (find-update_status i _ d (failed_change status (or_default reason)) true now
              (settle_container lookup d now
                (update_status d (record no_change { status = some fail }) true now db))
              (find_id i d db found)
              (find-settle_container lookup i
                (updated_row (record no_change { status = some fail }) now d) d now
                (update_status d (record no_change { status = some fail }) true now db)
                (find_id i d db found)
                (find-update_status i d d (record no_change { status = some fail }) true now db
                  (find_id i d db found) found)))
    ]

-- ===== src/Deploy/Rollback.antt =====
-- deployment.py, `rollback`: an alias goes back to its previous deployment.
pub mod Swaps
use layerrail_deploy.Prelude.{
  ℕ, String, ◌≡◌, refl, ◌==◌, eq_iff, eq_refl, Bool, true, false, Option, none, some, List, [], ◌∷◌,
  first, change, UniqueBy, any, arith, Option-cases, Bool-cases, inl, inr, if◌then◌else◌,
}
use layerrail_deploy.Effect.{Result, ok, err, Exec, pure, gets, modify, require, ◌>>=◌, ◌>>◌}
use layerrail_deploy.Deploy.Model.{
  Deployment, Environment, Project, Alias, AliasType, Event, rollback_event, Database,
}
use layerrail_deploy.Deploy.Aliases.{
  has_subdomain, updated, update_or_create, setup_aliases, rollback_subdomain,
}

abbrev pub swapped : String → Alias → Alias
swapped previous a = record a {
  deployment_id = previous;
  previous_deployment_id = some a.deployment_id;
}

abbrev pub add_event : Event → Database → Database
add_event e db = record db { events = e ∷ db.events }

-- `ValueError("No previous deployment to roll back to.")`; the routes that `update_traefik_config`
-- writes from the aliases are in Deploy/Routes.
unfoldable pub rollback : Environment → Project → Exec String Database Alias
rollback environment project = do
  found ←
      gets (λ (db : Database).
        first (has_subdomain (rollback_subdomain project environment)) db.aliases)
  a ← require found "No previous deployment to roll back to."
  previous ← require a.previous_deployment_id "No previous deployment to roll back to."
  modify (λ (db : Database). record db {
    aliases =
        change (has_subdomain (rollback_subdomain project environment)) (swapped previous)
          db.aliases;
  })
  modify (add_event (rollback_event project.id environment.id previous a.deployment_id))
  pure (swapped previous a)

-- ===== src/Deploy/Runs.antt =====
-- One project with two deployments to production: the database before and after its jobs.
use layerrail_deploy.Prelude.{
  ℕ, String, ◌≡◌, refl, true, false, none, some, List, [], ◌∷◌, any, All,
}
use layerrail_deploy.Effect.{ok}
use layerrail_deploy.Deploy.Model.{
  succeeded, deploy, completed, failed, running, stopped, for_environment, Alias, Deployment,
  Environment, Project, Database,
}
use layerrail_deploy.Deploy.Aliases.{setup_aliases, update_or_create}
use layerrail_deploy.Deploy.Aliases.Lookups.{alias_at, setup_aliases-IsUnique}
use layerrail_deploy.Deploy.Rollback.{rollback}
use layerrail_deploy.Deploy.Rollback.Swaps.{rollback-rollback, rollback-setup_aliases}
use layerrail_deploy.Deploy.Status.{present, missing, cancel}
use layerrail_deploy.Deploy.Jobs.{
  find, refers, Answers, ready, fail_deployment, finalize_deployment, cleanup_inactive_containers,
}
use layerrail_deploy.Deploy.Jobs.Canceled.{IsCanceled}
use layerrail_deploy.Deploy.Jobs.Outcomes.{
  cleanup_inactive_containers-refers, finalize_deployment-succeeds, fail_deployment-fails,
}
use layerrail_deploy.Deploy.Jobs.History.{
  Call, failure, finalization, deletion, cleanup, check, history, history-cancel,
}
use layerrail_deploy.Deploy.Variables.{
  Variable, Settings, Release, lookup, get_env_vars, get_runtime_env_vars,
}
use layerrail_deploy.Deploy.Variables.Precedence.{
  every, last_value, last_value-get_env_vars, lookup-get_runtime_env_vars,
}
use layerrail_deploy.Deploy.Routes.{
  Domain, route, active, RouteSettings, is_routable, update_traefik_config,
}
use layerrail_deploy.Deploy.Routes.Targets.{IsSound, routers_of, update_traefik_config-IsSound}
use layerrail_deploy.Deploy.Routes.Reached.{is_route, update_traefik_config-setup_aliases}

abbrev lower : String → String
lower s = s

abbrev show : ℕ → String
show n = "3"

abbrev production : Environment
production = record { id = "prod"; slug = "production" }

abbrev project : Project
project = record {
  id = "p1";
  slug = "shop";
  deleted = false;
  environments = production ∷ [];
  updated_at = 1;
}

abbrev deployment_of : String → Deployment
deployment_of i = record {
  id = i;
  project_id = "p1";
  environment_id = "prod";
  branch = "main";
  status = deploy;
  conclusion = none;
  concluded_at = none;
  error = none;
  container_id = some "c1";
  container_status = some running;
  job_id = some "j1";
  created_at = 2;
}

abbrev one : Deployment
one = deployment_of "d1"

abbrev two : Deployment
two = deployment_of "d2"

abbrev start : Database
start = record {
  deployments = one ∷ two ∷ [];
  projects = project ∷ [];
  aliases = [];
  next_alias = 1;
  jobs = [];
  events = [];
}

abbrev deployed : Database
deployed = setup_aliases lower project two (setup_aliases lower project one start)

abbrev rolled_back : Database
rolled_back = (rollback production project deployed).1

abbrev restored : Alias
restored = record {
  id = 2;
  subdomain = "shop";
  deployment_id = "d1";
  previous_deployment_id = some "d2";
  kind = for_environment;
  value = "prod";
}

rolled_back_lem : rollback production project deployed ≡ (ok restored, rolled_back)
unfolding rollback setup_aliases update_or_create
rolled_back_lem = refl

rollback-rollback_example :
    (b : Alias) × ((rollback production project rolled_back).0 ≡ ok b)
    × (alias_at "shop" deployed ≡ some b)
    × ((rollback production project rolled_back).1.aliases ≡ deployed.aliases)
rollback-rollback_example =
    rollback-rollback production project restored deployed rolled_back
      (setup_aliases-IsUnique lower project two (setup_aliases lower project one start)
        (setup_aliases-IsUnique lower project one start tt))
      rolled_back_lem

rollback-setup_aliases_example :
    (a : Alias) × ((rollback production project deployed).0 ≡ ok a)
    × (alias_at "shop" (rollback production project deployed).1 ≡ some a)
    × (a.deployment_id ≡ "d1")
    × (a.previous_deployment_id ≡ some "d2")
rollback-setup_aliases_example =
    rollback-setup_aliases lower project production one two start refl refl refl refl refl

abbrev domains : List Domain
domains =
    record {
      id = 1;
      project_id = "p1";
      hostname = "shop.example";
      kind = route;
      environment_id = some "prod";
      status = active;
    }
    ∷ []

abbrev route_settings : RouteSettings
route_settings = record { deploy_domain = "apps.example"; url_scheme = "https" }

update_traefik_config-IsSound_example :
    All
      (IsSound (is_routable ("d2" ∷ []) "p1" deployed.deployments))
      (routers_of (update_traefik_config route_settings project domains ("d2" ∷ []) deployed none))
update_traefik_config-IsSound_example =
    update_traefik_config-IsSound route_settings project domains ("d2" ∷ []) deployed none

update_traefik_config-setup_aliases_example :
    any (is_route "shop.apps.example" "d1") (
      routers_of (
        update_traefik_config route_settings project domains
          ("d1" ∷ [])
          (setup_aliases lower project one start)
          none))
    ≡ true
update_traefik_config-setup_aliases_example =
    update_traefik_config-setup_aliases lower route_settings project one domains start none refl
      refl refl refl

abbrev answers : Answers
answers = record { stop = λ i. present; delete = λ i. missing }

finalize_deployment-succeeds_example :
    (find "d2" (finalize_deployment lower "d2" 9 start)
      ≡ some
          (record two { status = completed; conclusion = some succeeded; concluded_at = some 9 }))
    × (any (refers "d2") (finalize_deployment lower "d2" 9 start).aliases ≡ true)
    × (find "d2"
          (cleanup_inactive_containers "p1" answers true (finalize_deployment lower "d2" 9 start))
        ≡ find "d2" (finalize_deployment lower "d2" 9 start))
finalize_deployment-succeeds_example =
    finalize_deployment-succeeds lower "d2" 9 two project answers true start refl refl refl refl

fail_deployment-fails_example :
    find "d1" (fail_deployment "d1" "deploy" "" present 9 start)
    ≡ some (record one {
      status = completed;
      conclusion = some failed;
      concluded_at = some 9;
      error = some (record { status = "deploy"; message = "Deployment failed" });
      container_status = some stopped;
    })
fail_deployment-fails_example = fail_deployment-fails "d1" "deploy" "" present 9 one start refl

deployed_refers : any (refers "d1") deployed.aliases ≡ true
unfolding setup_aliases update_or_create
deployed_refers = refl

cleanup_inactive_containers-refers_example :
    find "d1" (cleanup_inactive_containers "p1" answers true deployed) ≡ find "d1" deployed
cleanup_inactive_containers-refers_example =
    cleanup_inactive_containers-refers "d1" "p1" answers true deployed deployed_refers

abbrev calls : List Call
calls =
    check "d1" ready 10
    ∷ failure "d1" "deploy" "late" missing 11
    ∷ finalization "d1" 12
    ∷ deletion "d1" present
    ∷ cleanup "p1" answers true
    ∷ []

abbrev canceled_state : Database
canceled_state = (cancel one true present 9 start).1

canceled_lem : cancel one true present 9 start ≡ (ok tt, canceled_state)
unfolding cancel
canceled_lem = refl

history-cancel_example : IsCanceled "d1" (history lower show 60 calls canceled_state)
history-cancel_example =
    history-cancel lower show 60 one true present 9 calls start canceled_state canceled_lem

abbrev variables : List Variable
variables =
    record { key = "PORT"; value = "80"; environment = none }
    ∷ record { key = "PORT"; value = "8080"; environment = some "production" }
    ∷ record { key = "PORT"; value = "81"; environment = some "" }
    ∷ []

last_value-get_env_vars_example :
    last_value every "PORT" (get_env_vars variables "production") ≡ some "8080"
last_value-get_env_vars_example = last_value-get_env_vars variables "production" "PORT"

abbrev release : Release
release = record {
  deployment = one;
  env_vars = record { key = "PUID"; value = ""; environment = none } ∷ [];
  url = "https://d1.apps.example";
  hostname = "d1.apps.example";
  team_id = "t1";
  created_at = "2025-01-01T00:00:00Z";
  repo_full_name = "owner/shop";
  commit_sha = "abc";
  author = none;
  message = some "";
}

abbrev settings : Settings
settings = record {
  url_scheme = "https";
  deploy_domain = "apps.example";
  service_uid = "1000";
  service_gid = "1000";
  server_ip = none;
}

-- A value of the user that is empty stays.
lookup-get_runtime_env_vars_example :
    lookup "PUID" (get_runtime_env_vars lower project release settings) ≡ some ""
lookup-get_runtime_env_vars_example =
    lookup-get_runtime_env_vars lower project release settings "PUID"

abbrev long_name : String
long_name = "feature-with-a-name-that-is-longer-than-its-subdomain-can-be"

abbrev long_branch : Deployment
long_branch = record one { branch = long_name }

abbrev long_start : Database
long_start = record start { deployments = long_branch ∷ [] }

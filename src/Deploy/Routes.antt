-- ===== src/Deploy/Routes.antt =====
-- deployment.py, `update_traefik_config`: the routes of a project, from its aliases and domains.
pub mod Targets
pub mod Reached
use layerrail_deploy.Prelude.{
  ℕ, String, ◌==◌, ◌⊕◌, Bool, true, false, not, ◌&&◌, ◌||◌, Option, none, some, List, [], ◌∷◌, ◌++◌,
  any, first, one_of, text_is, is_some, if◌then◌else◌,
}
use layerrail_deploy.Deploy.Model.{
  Conclusion, succeeded, failed, canceled, skipped, Deployment, Project, AliasType, for_branch,
  for_environment, for_environment_id, Alias, Database, has_id,
}

pub data DomainType : Type 0 where
  route redirect_301 redirect_302 redirect_307 redirect_308 : DomainType

pub data DomainStatus : Type 0 where
  pending active disabled failing : DomainStatus

pub record Domain : Type 0 where
  pub id : ℕ
  pub project_id : String
  pub hostname : String
  pub kind : DomainType
  pub environment_id : Option String
  pub status : DomainStatus

-- the settings that are read
pub record RouteSettings : Type 0 where
  pub deploy_domain : String
  pub url_scheme : String

-- the keys of `routers`
pub data RouterName : Type 0 where
  router_alias router_domain router_redirect : ℕ → RouterName

-- `middleware` is the number of the redirect that the router goes through.
pub record Router : Type 0 where
  pub name : RouterName
  pub rule : String
  pub service : String
  pub middleware : Option ℕ
  pub entry_points : List String
  pub cert_resolver : Option String

pub record Redirect : Type 0 where
  pub id : ℕ
  pub regex : String
  pub replacement : String
  pub is_permanent : Bool

-- what the file of a project says; there are no services.
pub record Config : Type 0 where
  pub routers : List Router
  pub middlewares : List Redirect

abbrev is_succeeded : Option Conclusion → Bool
is_succeeded none = false
is_succeeded (some succeeded) = true
is_succeeded (some failed) = false
is_succeeded (some canceled) = false
is_succeeded (some skipped) = false

abbrev of_project : List String → String → Option Deployment → Bool
of_project include project_id none = false
of_project include project_id (some d) =
    d.project_id == project_id && (is_succeeded d.conclusion || one_of d.id include)

-- the join of an alias with its deployment
abbrev pub is_routable : List String → String → List Deployment → String → Bool
is_routable include project_id deployments i =
    of_project include project_id (first (has_id i) deployments)

-- `aliases`, in the order of the table
abbrev pub routable_aliases : (String → Bool) → List Alias → List Alias
routable_aliases routable [] = []
routable_aliases routable (a ∷ aliases) =
    if routable a.deployment_id
    then a ∷ routable_aliases routable aliases
    else routable_aliases routable aliases

abbrev is_active : DomainStatus → Bool
is_active pending = false
is_active active = true
is_active disabled = false
is_active failing = false

abbrev active_domains : String → List Domain → List Domain
active_domains project_id [] = []
active_domains project_id (d ∷ domains) =
    if d.project_id == project_id && is_active d.status
    then d ∷ active_domains project_id domains
    else active_domains project_id domains

abbrev pub host_rule : String → String
host_rule host = "Host(`" ⊕ host ⊕ "`)"

abbrev pub service_of : String → String
service_of deployment_id = "deployment-" ⊕ deployment_id ⊕ "@docker"

abbrev entry_points_of : RouteSettings → List String
entry_points_of settings =
    if settings.url_scheme == "https" then "web" ∷ "websecure" ∷ [] else "web" ∷ []

abbrev resolver_of : RouteSettings → String → Option String
resolver_of settings resolver = if settings.url_scheme == "https" then some resolver else none

abbrev pub alias_router : RouteSettings → Alias → Router
alias_router settings a = record {
  name = router_alias a.id;
  rule = host_rule (a.subdomain ⊕ "." ⊕ settings.deploy_domain);
  service = service_of a.deployment_id;
  middleware = none;
  entry_points = entry_points_of settings;
  cert_resolver = resolver_of settings "le";
}

abbrev pub alias_routers : RouteSettings → List Alias → List Router
alias_routers settings [] = []
alias_routers settings (a ∷ aliases) = alias_router settings a ∷ alias_routers settings aliases

abbrev is_id_alias : AliasType → Bool
is_id_alias for_branch = false
is_id_alias for_environment = false
is_id_alias for_environment_id = true

-- An environment's alias has a value, so a domain without an environment finds none.
abbrev pub is_alias_of : Option String → Alias → Bool
is_alias_of environment_id a = is_id_alias a.kind && text_is environment_id a.value

abbrev domain_router : RouteSettings → Domain → Alias → Router
domain_router settings domain a = record {
  name = router_domain domain.id;
  rule = host_rule domain.hostname;
  service = service_of a.deployment_id;
  middleware = none;
  entry_points = entry_points_of settings;
  cert_resolver = resolver_of settings "lehttp";
}

abbrev redirect_router : RouteSettings → Domain → Router
redirect_router settings domain = record {
  name = router_redirect domain.id;
  rule = host_rule domain.hostname;
  service = "noop@internal";
  middleware = some domain.id;
  entry_points = entry_points_of settings;
  cert_resolver = resolver_of settings "lehttp";
}

abbrev is_permanent_type : DomainType → Bool
is_permanent_type route = false
is_permanent_type redirect_301 = true
is_permanent_type redirect_302 = false
is_permanent_type redirect_307 = false
is_permanent_type redirect_308 = true

abbrev redirect_of : RouteSettings → Domain → Alias → Redirect
redirect_of settings domain a = record {
  id = domain.id;
  regex = "^https?://" ⊕ domain.hostname ⊕ "/(.*)";
  replacement = "https://" ⊕ a.subdomain ⊕ "." ⊕ settings.deploy_domain ⊕ "/$1";
  is_permanent = is_permanent_type domain.kind;
}

abbrev pub add_redirect : RouteSettings → Domain → Alias → Config → Config
add_redirect settings domain a config = record {
  routers = config.routers ++ redirect_router settings domain ∷ [];
  middlewares = config.middlewares ++ redirect_of settings domain a ∷ [];
}

abbrev pub add_kind : DomainType → RouteSettings → Domain → Alias → Config → Config
add_kind route settings domain a config = record config {
  routers = config.routers ++ domain_router settings domain a ∷ [];
}
add_kind redirect_301 settings domain a config = add_redirect settings domain a config
add_kind redirect_302 settings domain a config = add_redirect settings domain a config
add_kind redirect_307 settings domain a config = add_redirect settings domain a config
add_kind redirect_308 settings domain a config = add_redirect settings domain a config

abbrev pub add_domain : RouteSettings → Domain → Option Alias → Config → Config
add_domain settings domain none config = config
add_domain settings domain (some a) config = add_kind domain.kind settings domain a config

abbrev pub add_domains : RouteSettings → List Alias → List Domain → Config → Config
add_domains settings aliases [] config = config
add_domains settings aliases (domain ∷ domains) config =
    add_domains settings aliases domains
      (add_domain settings domain (first (is_alias_of domain.environment_id) aliases) config)

abbrev is_empty {ℓ} : {A : Type ℓ} → List A → Bool
is_empty [] = true
is_empty (a ∷ l) = false

abbrev pub file_of : Config → Option Config
file_of config =
    if is_empty config.routers && is_empty config.middlewares then none else some config

abbrev pub written : RouteSettings → List Alias → List Domain → Option Config → Option Config
written settings aliases domains file =
    if is_empty aliases && is_empty domains && is_some file
    then none
    else file_of (
        add_domains settings aliases domains
          (record { routers = alias_routers settings aliases; middlewares = [] }))

-- The file of the project after `update_traefik_config`, from what it was; `none` is no file.
unfoldable pub update_traefik_config :
    RouteSettings → Project → List Domain → List String → Database → Option Config → Option Config
update_traefik_config settings project domains include db file =
    written settings (routable_aliases (is_routable include project.id db.deployments) db.aliases)
      (active_domains project.id domains) file

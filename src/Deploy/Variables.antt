-- ===== src/Deploy/Variables.antt =====
-- models.py, `Project.get_env_vars`, and deployment.py, `get_runtime_env_vars`: the variables that a
-- deployment runs with.
pub mod Precedence
use layerrail_deploy.Prelude.{
  ℕ, String, ◌==◌, ◌⊕◌, Bool, true, false, not, ◌&&◌, Option, none, some, List, [], ◌∷◌, ◌++◌,
  if◌then◌else◌, text_is, partition_on,
}
use layerrail_deploy.Deploy.Model.{Deployment, Environment, Project, get_environment_by_id}
use layerrail_deploy.Deploy.Aliases.{AliasDomains, get_alias_domains, nonempty}

-- an entry of `Project.env_vars`
pub record Variable : Type 0 where
  pub key : String
  pub value : String
  pub environment : Option String

-- `not var.get("environment")`
abbrev pub is_general : Option String → Bool
is_general none = true
is_general (some s) = s == ""

abbrev general : List Variable → List Variable
general [] = []
general (v ∷ vars) = if is_general v.environment then v ∷ general vars else general vars

abbrev pub without_key : String → List Variable → List Variable
without_key k [] = []
without_key k (v ∷ vars) = if v.key == k then without_key k vars else v ∷ without_key k vars

-- the loop over `self.env_vars`
abbrev pub override : String → List Variable → List Variable → List Variable
override environment [] result = result
override environment (v ∷ vars) result =
    override environment vars
      (if text_is v.environment environment then without_key v.key result ++ v ∷ [] else result)

unfoldable pub get_env_vars : List Variable → String → List Variable
get_env_vars vars environment = override environment vars (general vars)

-- a dictionary of texts, in the order of its keys
abbrev pub Dict : Type 0
Dict = List (String × String)

abbrev pub lookup : String → Dict → Option String
lookup k [] = none
lookup k ((j, v) ∷ d) = if j == k then some v else lookup k d

-- `d[key] = value`
abbrev pub set_item : String → String → Dict → Dict
set_item k v [] = (k, v) ∷ []
set_item k v ((j, w) ∷ d) = if j == k then (j, v) ∷ d else (j, w) ∷ set_item k v d

-- `d.setdefault(key, value)`
abbrev pub setdefault : String → String → Dict → Dict
setdefault k v [] = (k, v) ∷ []
setdefault k v ((j, w) ∷ d) = if j == k then (j, w) ∷ d else (j, w) ∷ setdefault k v d

-- `{var["key"]: var["value"] for var in …}`
abbrev pub dict_of : List Variable → Dict → Dict
dict_of [] d = d
dict_of (v ∷ vars) d = dict_of vars (set_item v.key v.value d)

-- the settings and the attributes of a deployment that are read
pub record Settings : Type 0 where
  pub url_scheme : String
  pub deploy_domain : String
  pub service_uid : String
  pub service_gid : String
  pub server_ip : Option String

pub record Release : Type 0 where
  pub deployment : Deployment
  pub env_vars : List Variable
  pub url : String
  pub hostname : String
  pub team_id : String
  -- `created_at.isoformat() + "Z"`
  pub created_at : String
  pub repo_full_name : String
  pub commit_sha : String
  pub author : Option String
  pub message : Option String

abbrev pub Entries : Type 0
Entries = List (String × Option String)

abbrev environment_name : Option Environment → String → String
environment_name none environment_id = environment_id
environment_name (some environment) environment_id =
    if environment.slug == "" then environment_id else environment.slug

abbrev base_vars : Project → Release → Settings → Entries
base_vars project release settings =
    ("DEVPUSH", some "true")
    ∷ ("DEVPUSH_URL", some release.url)
    ∷ ("DEVPUSH_DOMAIN", some release.hostname)
    ∷ ("DEVPUSH_TEAM_ID", some release.team_id)
    ∷ ("DEVPUSH_PROJECT_ID", some project.id)
    ∷ (
      "DEVPUSH_ENVIRONMENT",
      some (
          environment_name (get_environment_by_id project release.deployment.environment_id)
            release.deployment.environment_id),
    )
    ∷ ("DEVPUSH_DEPLOYMENT_ID", some release.deployment.id)
    ∷ ("DEVPUSH_DEPLOYMENT_CREATED_AT", some release.created_at)
    ∷ ("DEVPUSH_GIT_PROVIDER", some "github")
    ∷ ("DEVPUSH_GIT_REPO", some release.repo_full_name)
    ∷ ("DEVPUSH_GIT_REF", some release.deployment.branch)
    ∷ ("DEVPUSH_GIT_COMMIT_SHA", some release.commit_sha)
    ∷ ("PUID", some settings.service_uid)
    ∷ ("PGID", some settings.service_gid)
    ∷ ("DEVPUSH_IP", settings.server_ip)
    ∷ []

-- `f"{subdomain}.{deploy_domain}"`, and its URL
abbrev domain_of : Settings → Option String → Option String
domain_of settings none = none
domain_of settings (some subdomain) = some (subdomain ⊕ "." ⊕ settings.deploy_domain)

abbrev url_of : Settings → Option String → Option String
url_of settings none = none
url_of settings (some subdomain) =
    some (settings.url_scheme ⊕ "://" ⊕ subdomain ⊕ "." ⊕ settings.deploy_domain)

abbrev alias_vars : AliasDomains → Settings → Entries
alias_vars domains settings =
    ("DEVPUSH_DOMAIN_ENVIRONMENT", domain_of settings domains.environment_subdomain)
    ∷ ("DEVPUSH_URL_ENVIRONMENT", url_of settings domains.environment_subdomain)
    ∷ ("DEVPUSH_DOMAIN_BRANCH", domain_of settings domains.branch_subdomain)
    ∷ ("DEVPUSH_URL_BRANCH", url_of settings domains.branch_subdomain)
    ∷ []

abbrev repository_vars : Option (String × String) → Entries
repository_vars none = []
repository_vars (some (owner, repo)) =
    ("DEVPUSH_GIT_REPO_OWNER", some owner) ∷ ("DEVPUSH_GIT_REPO_NAME", some repo) ∷ []

-- `runtime_vars`; a key that the source leaves out has no value here, and is skipped like one.
abbrev pub runtime_vars : (String → String) → Project → Release → Settings → Entries
runtime_vars lower project release settings =
    base_vars project release settings
    ++ (alias_vars (get_alias_domains lower project release.deployment) settings
        ++ (("DEVPUSH_GIT_COMMIT_AUTHOR", release.author)
            ∷ ("DEVPUSH_GIT_COMMIT_MESSAGE", release.message)
            ∷ repository_vars (partition_on b'/' release.repo_full_name)))

-- `if value is not None and value != "": env_vars.setdefault(key, str(value))`
abbrev pub set_unless_empty : String → Option String → Dict → Dict
set_unless_empty k none d = d
set_unless_empty k (some v) d = if v == "" then d else setdefault k v d

abbrev pub set_defaults : Entries → Dict → Dict
set_defaults [] d = d
set_defaults ((k, o) ∷ entries) d = set_defaults entries (set_unless_empty k o d)

unfoldable pub get_runtime_env_vars : (String → String) → Project → Release → Settings → Dict
get_runtime_env_vars lower project release settings =
    set_defaults (runtime_vars lower project release settings) (dict_of release.env_vars [])

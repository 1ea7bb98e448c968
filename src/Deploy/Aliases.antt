-- ===== src/Deploy/Aliases.antt =====
-- deployment.py and models.py: the subdomains of a deployment and the aliases that stand for them.
pub mod Lookups
use Prim.Native.Char.{Char, code}
use Prim.Native.String.{String, [], ◌∷◌}
use mathlib.Core.List.{List}
use layerrail_deploy.Prelude.{
  ℕ, suc, ◌==◌, ◌⊕◌, Bool, true, false, ◌&&◌, ◌||◌, Option, none, some, leb, nat_eq, first, change,
  if◌then◌else◌, is_some,
}
use layerrail_deploy.Deploy.Model.{
  Deployment, Environment, Project, AliasType, for_branch, for_environment, for_environment_id,
  Alias, Database, get_environment_by_id,
}

abbrev is_alphanumeric : ℕ → Bool
is_alphanumeric n =
    (leb b'a' n && leb n b'z')
    || (leb b'A' n && leb n b'Z')
    || (leb b'0' n && leb n b'9')
    || nat_eq n b'-'

-- `re.sub(r"[^a-zA-Z0-9-]", "-", branch)`
abbrev pub dashed : String → String
dashed [] = []
dashed (c ∷ s) = (if is_alphanumeric (code c) then c else "-") ∷ dashed s

-- The subdomains of `get_alias_domains`: its other keys are their domains and URLs.
pub record AliasDomains : Type 0 where
  pub branch_subdomain : Option String
  pub environment_subdomain : Option String
  pub environment_id_subdomain : String

-- `if text:`
abbrev pub nonempty : String → Option String
nonempty [] = none
nonempty (c ∷ s) = some (c ∷ s)

abbrev pub branch_part : Project → Option String → Option String
branch_part project none = none
branch_part project (some sanitized) = some (project.slug ⊕ "-branch-" ⊕ sanitized)

abbrev environment_part : Project → Option Environment → Option String
environment_part project none = none
environment_part project (some environment) = some (project.slug ⊕ "-env-" ⊕ environment.slug)

abbrev pub sanitized : (String → String) → String → Option String
sanitized lower branch =
    if is_some (nonempty branch) then nonempty (lower (dashed branch)) else none

-- `lower` stands for `str.lower`.
abbrev pub get_alias_domains : (String → String) → Project → Deployment → AliasDomains
get_alias_domains lower project deployment = record {
  branch_subdomain = branch_part project (sanitized lower deployment.branch);
  environment_subdomain =
      if deployment.environment_id == "prod"
      then nonempty project.slug
      else environment_part project (get_environment_by_id project deployment.environment_id);
  environment_id_subdomain = project.slug ⊕ "-env-id-" ⊕ deployment.environment_id;
}

abbrev pub has_subdomain : String → Alias → Bool
has_subdomain s a = a.subdomain == s

abbrev is_environment_type : AliasType → Bool
is_environment_type for_branch = false
is_environment_type for_environment = true
is_environment_type for_environment_id = false

abbrev is_prod : Option String → Bool
is_prod none = false
is_prod (some e) = e == "prod"

-- what `Alias.update_or_create` does to the alias that it finds
abbrev pub updated : String → AliasType → Option String → Alias → Alias
updated deployment_id kind environment_id a =
    if a.deployment_id == deployment_id then a else record a {
      previous_deployment_id =
          if is_environment_type kind && is_prod environment_id then some a.deployment_id else none;
      deployment_id = deployment_id;
    }

abbrev pub new_alias : ℕ → String → String → AliasType → String → Alias
new_alias id subdomain deployment_id kind value = record {
  id = id;
  subdomain = subdomain;
  deployment_id = deployment_id;
  previous_deployment_id = none;
  kind = kind;
  value = value;
}

abbrev pub update_found :
    Option Alias → String → String → AliasType → String → Option String → Database → Database
update_found (some found) subdomain deployment_id kind value environment_id db = record db {
  aliases = change (has_subdomain subdomain) (updated deployment_id kind environment_id) db.aliases;
}
update_found none subdomain deployment_id kind value environment_id db = record db {
  aliases = List.◌∷◌ (new_alias db.next_alias subdomain deployment_id kind value) db.aliases;
  next_alias = suc db.next_alias;
}

-- `Alias.update_or_create`
unfoldable pub update_or_create :
    String → String → AliasType → String → Option String → Database → Database
update_or_create subdomain deployment_id kind value environment_id db =
    update_found (first (has_subdomain subdomain) db.aliases) subdomain deployment_id kind value
      environment_id db

abbrev pub set_alias :
    Option String → String → AliasType → String → Option String → Database → Database
set_alias none deployment_id kind value environment_id db = db
set_alias (some subdomain) deployment_id kind value environment_id db =
    update_or_create subdomain deployment_id kind value environment_id db

-- the three updates of `setup_aliases`, with the subdomains of `get_alias_domains`
abbrev pub set_branch : AliasDomains → Deployment → Database → Database
set_branch domains d db = set_alias domains.branch_subdomain d.id for_branch d.branch none db

abbrev pub set_environment : AliasDomains → Deployment → Database → Database
set_environment domains d db =
    set_alias domains.environment_subdomain d.id for_environment d.environment_id
      (some d.environment_id) db

abbrev pub set_environment_id : AliasDomains → Deployment → Database → Database
set_environment_id domains d db =
    set_alias (nonempty domains.environment_id_subdomain) d.id for_environment_id d.environment_id
      (some d.environment_id) db

abbrev pub set_aliases : AliasDomains → Deployment → Database → Database
set_aliases domains d db =
    set_environment_id domains d (set_environment domains d (set_branch domains d db))

unfoldable pub setup_aliases : (String → String) → Project → Deployment → Database → Database
setup_aliases lower project d db = set_aliases (get_alias_domains lower project d) d db

-- the subdomain of `rollback`
abbrev pub rollback_subdomain : Project → Environment → String
rollback_subdomain project environment =
    if environment.id == "prod" then project.slug else project.slug ⊕ "-env-" ⊕ environment.slug

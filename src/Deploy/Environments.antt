-- ===== src/Deploy/Environments.antt =====
-- models.py: the environments of a project, with its variables, which name environments by slug.
pub mod Distinct
pub mod Renamed
pub mod Runs
use layerrail_deploy.Prelude.{
  String, ◌==◌, Bool, true, false, not, ◌&&◌, ◌||◌, Option, none, some, List, [], ◌∷◌, ◌++◌, any,
  first, upsert, text_is, if◌then◌else◌,
}
use layerrail_deploy.Effect.{Result, ok, err, Exec, pure, gets, modify, guard, ◌>>=◌, ◌>>◌}
use layerrail_deploy.Deploy.Variables.{Variable}

-- an entry of `Project.environments`; `active` stands for its status.
pub record Entry : Type 0 where
  pub id : String
  pub name : String
  pub slug : String
  pub color : String
  pub branch : String
  pub active : Bool

pub record Settings : Type 0 where
  pub environments : List Entry
  pub env_vars : List Variable

-- the keys that the router sets
pub record Values : Type 0 where
  pub name : String
  pub slug : String
  pub color : String
  pub branch : String

abbrev pub has_id : String → Entry → Bool
has_id i e = e.id == i

abbrev pub is_excluded : Option String → Entry → Bool
is_excluded exclude_id e = text_is exclude_id e.id

abbrev pub has_active_environment_with_slug : String → Option String → List Entry → Bool
has_active_environment_with_slug slug exclude_id environments =
    any (λ (e : Entry). (e.active && e.slug == slug) && not (is_excluded exclude_id e)) environments

-- `id` stands for `token_hex(4)`.
abbrev pub new_entry : String → Values → Entry
new_entry id values = record {
  id = id;
  name = values.name;
  slug = values.slug;
  color = values.color;
  branch = values.branch;
  active = true;
}

unfoldable pub create_environment : String → Values → Exec String Settings Entry
create_environment id values = do
  environments ← gets (λ (s : Settings). s.environments)
  guard (not (has_active_environment_with_slug values.slug none environments))
      "An active environment with this slug already exists"
  modify (λ (s : Settings). record s { environments = s.environments ++ new_entry id values ∷ [] })
  pure (new_entry id values)

-- `{**environments[env_index], **values}`
abbrev pub merged : Values → Entry → Entry
merged values e = record e {
  name = values.name;
  slug = values.slug;
  color = values.color;
  branch = values.branch;
}

-- the slug of the values, if it is a new one
abbrev pub is_new_slug : Values → Entry → Bool
is_new_slug values e = not (values.slug == "") && not (values.slug == e.slug)

abbrev pub renamed_var : String → String → Variable → Variable
renamed_var old new v = if text_is v.environment old then record v { environment = some new } else v

abbrev pub rename_vars : String → String → List Variable → List Variable
rename_vars old new [] = []
rename_vars old new (v ∷ vars) = renamed_var old new v ∷ rename_vars old new vars

abbrev pub renamed : Values → Entry → Settings → Settings
renamed values e s = record s {
  env_vars = if is_new_slug values e then rename_vars e.slug values.slug s.env_vars else s.env_vars;
}

abbrev pub update_found : Option Entry → String → Values → Exec String Settings (Option Entry)
update_found none environment_id values = pure none
update_found (some e) environment_id values = do
  guard
      (not
        (environment_id == "prod" && (not (e.name == values.name) || not (e.slug == values.slug))))
      "Cannot modify production environment"
  environments ← gets (λ (s : Settings). s.environments)
  guard
      (not (
        is_new_slug values e
        && has_active_environment_with_slug values.slug (some environment_id) environments))
      "An active environment with this slug already exists"
  modify (λ (s : Settings). record s {
    environments = upsert (has_id environment_id) (merged values e) s.environments;
  })
  modify (renamed values e)
  pure (some (merged values e))

unfoldable pub update_environment : String → Values → Exec String Settings (Option Entry)
update_environment environment_id values = do
  found ← gets (λ (s : Settings). first (has_id environment_id) s.environments)
  update_found found environment_id values

abbrev pub without_vars : String → List Variable → List Variable
without_vars slug [] = []
without_vars slug (v ∷ vars) =
    if text_is v.environment slug then without_vars slug vars else v ∷ without_vars slug vars

abbrev pub deleted : Entry → Entry
deleted e = record e { active = false }

abbrev pub delete_found : Option Entry → String → Exec String Settings Bool
delete_found none environment_id = pure false
delete_found (some e) environment_id = do
  modify (λ (s : Settings). record s { env_vars = without_vars e.slug s.env_vars })
  modify (λ (s : Settings). record s {
    environments = upsert (has_id environment_id) (deleted e) s.environments;
  })
  pure true

-- no identity is the empty one
unfoldable pub delete_environment : String → Exec String Settings Bool
delete_environment environment_id = if environment_id == "" then pure false else do
  guard (not (environment_id == "prod")) "Cannot delete production environment"
  found ← gets (λ (s : Settings). first (has_id environment_id) s.environments)
  delete_found found environment_id

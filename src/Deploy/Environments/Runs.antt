-- ===== src/Deploy/Environments/Runs.antt =====
-- A project whose environments are made, renamed and deleted.
use layerrail_deploy.Prelude.{◌≡◌, refl, true, false, none, some, List, [], ◌∷◌, first}
use layerrail_deploy.Effect.{ok}
use layerrail_deploy.Deploy.Variables.{get_env_vars}
use layerrail_deploy.Deploy.Variables.Precedence.{every, generally, last_value}
use layerrail_deploy.Deploy.Environments.{
  Entry, Settings, Values, has_id, merged, create_environment, update_environment,
  delete_environment,
}
use layerrail_deploy.Deploy.Environments.Distinct.{
  Change, creation, alteration, deletion, after, all_allowed, changed, IsDistinct,
  changed-IsDistinct,
}
use layerrail_deploy.Deploy.Environments.Renamed.{
  update_environment-get_env_vars, delete_environment-get_env_vars,
}

abbrev production : Entry
production = record {
  id = "prod";
  name = "Production";
  slug = "production";
  color = "blue";
  branch = "main";
  active = true;
}

abbrev staging : Entry
staging = record {
  id = "e1";
  name = "Staging";
  slug = "staging";
  color = "red";
  branch = "*";
  active = true;
}

abbrev preview : Values
preview = record { name = "Preview"; slug = "preview"; color = "red"; branch = "*" }

abbrev taken : Values
taken = record { name = "Other"; slug = "production"; color = "red"; branch = "*" }

abbrev settings : Settings
settings = record {
  environments = production ∷ staging ∷ [];
  env_vars =
      record { key = "PORT"; value = "80"; environment = none }
      ∷ record { key = "PORT"; value = "8080"; environment = some "staging" }
      ∷ [];
}

-- The slug of the second creation is taken, so it raises; the last one's is free again.
abbrev changes : List Change
changes =
    creation "e2" preview
    ∷ creation "e3" preview
    ∷ alteration "e1" taken
    ∷ deletion "e2"
    ∷ creation "e4" preview
    ∷ []

all_well : all_allowed changes settings ≡ true
unfolding after create_environment update_environment delete_environment
all_well = refl

changed-IsDistinct_example : IsDistinct (changed changes settings)
changed-IsDistinct_example =
    changed-IsDistinct changes settings all_well ((refl, (refl, tt)), (refl, (refl, tt)))

abbrev renamed_settings : Settings
renamed_settings = (update_environment "e1" preview settings).1

renamed_lem :
    update_environment "e1" preview settings
    ≡ (ok (some (merged preview staging)), renamed_settings)
unfolding update_environment
renamed_lem = refl

update_environment-get_env_vars_example :
    last_value every "PORT" (get_env_vars renamed_settings.env_vars "preview")
    ≡ last_value every "PORT" (get_env_vars settings.env_vars "staging")
update_environment-get_env_vars_example =
    update_environment-get_env_vars "e1" "PORT" preview staging (some (merged preview staging))
      settings renamed_settings refl renamed_lem refl refl refl refl

delete_environment-get_env_vars_example :
    ((delete_environment "e1" settings).0 ≡ ok true)
    × (first (has_id "e1") (delete_environment "e1" settings).1.environments
        ≡ some (record staging { active = false }))
    × (last_value every "PORT"
          (get_env_vars (delete_environment "e1" settings).1.env_vars "staging")
        ≡ last_value generally "PORT" settings.env_vars)
delete_environment-get_env_vars_example =
    delete_environment-get_env_vars "e1" "PORT" staging settings refl refl refl refl

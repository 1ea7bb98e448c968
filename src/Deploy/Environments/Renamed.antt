-- ===== src/Deploy/Environments/Renamed.antt =====
-- What becomes of the variables of an environment when its slug changes or it is deleted.
use layerrail_deploy.Prelude.{
  String, ◌≡◌, refl, sym, subst, ap, ◌∙◌, ◌==◌, eq_iff, eq_refl, true, false, not, ◌&&◌, ◌||◌,
  Option, none, some, List, [], ◌∷◌, any, first, first-upsert, upsert, text_is, arith, Bool-cases,
  inl, inr,
}
use layerrail_deploy.Effect.{Result, ok, modify, pure, ◌>>◌}
use layerrail_deploy.Effect.Success.{guard-ok}
use layerrail_deploy.Deploy.Variables.{Variable, is_general, get_env_vars}
use layerrail_deploy.Deploy.Variables.Precedence.{
  every, last_value, or_else, for_environment, generally, last_value-get_env_vars,
}
use layerrail_deploy.Deploy.Environments.{
  Entry, Settings, Values, has_id, has_active_environment_with_slug, merged, is_new_slug,
  rename_vars, renamed, update_found, update_environment, without_vars, deleted, delete_environment,
}
use layerrail_deploy.Deploy.Environments.Distinct.{found_id}

last_value-rename_vars :
    (old new k : String) (vars : List Variable)
    → (new == old) ≡ false
    → any (for_environment new) vars ≡ false
    → last_value (for_environment new) k (rename_vars old new vars)
      ≡ last_value (for_environment old) k vars
last_value-rename_vars old new k [] apart h = refl
last_value-rename_vars old new k (v ∷ vars) apart h =
    elim (Bool-cases (text_is v.environment old)) [
      | inl e ↦ rw (e, eq_refl new) (ground (arith, last_value-rename_vars old new k vars apart, h))
      | inr e ↦ rw e (ground (arith, e, last_value-rename_vars old new k vars apart, h))
    ]

general_apart :
    (o : Option String) (old : String)
    → (old == "") ≡ false
    → text_is o old ≡ true
    → is_general o ≡ false
general_apart none old named h = ground (arith, h)
general_apart (some s) old named h = ground (arith, named, eq_iff s old)

last_value-rename_vars_general :
    (old new k : String) (vars : List Variable)
    → (old == "") ≡ false
    → (new == "") ≡ false
    → last_value generally k (rename_vars old new vars) ≡ last_value generally k vars
last_value-rename_vars_general old new k [] named new_named = refl
last_value-rename_vars_general old new k (v ∷ vars) named new_named =
    elim (Bool-cases (text_is v.environment old)) [
      | inl e ↦
          rw (e, new_named, general_apart v.environment old named e)
            (ap (λ o. or_else o none)
              (last_value-rename_vars_general old new k vars named new_named))
      | inr e ↦ rw e (ground (arith, last_value-rename_vars_general old new k vars named new_named))
    ]

-- If an alteration gives an environment another slug, that no variable names before, every variable
-- has the same value for the environment under its new slug as it had under the old one; neither
-- slug is empty.
pub update_environment-get_env_vars :
    (i k : String) (values : Values) (e : Entry) (r : Option Entry) (s t : Settings)
    → first (has_id i) s.environments ≡ some e
    → update_environment i values s ≡ (ok r, t)
    → (e.slug == "") ≡ false
    → (values.slug == "") ≡ false
    → (values.slug == e.slug) ≡ false
    → any (for_environment values.slug) s.env_vars ≡ false
    → last_value every k (get_env_vars t.env_vars values.slug)
      ≡ last_value every k (get_env_vars s.env_vars e.slug)
unfolding update_environment
update_environment-get_env_vars i k values e r s t found h named new_named apart free =
    let at = subst (λ o. update_found o i values s ≡ (ok r, t)) found h in
    let (open_, h₁) =
      guard-ok r t
        (not (i == "prod" && (not (e.name == values.name) || not (e.slug == values.slug)))) _ _ s
        at in
    let (unique, h₂) =
      guard-ok r t
        (not (
          is_new_slug values e
          && has_active_environment_with_slug values.slug (some i) s.environments))
        _
        (λ (u : Unit). do
          modify (λ (s : Settings). record s {
            environments = upsert (has_id i) (merged values e) s.environments;
          })
          modify (renamed values e)
          pure (some (merged values e)))
        s h₁ in
    let after : (renamed values e s).env_vars ≡ t.env_vars =
      ap (λ (x : Result String (Option Entry) × Settings). x.1.env_vars) h₂ in
    let same : (renamed values e s).env_vars ≡ rename_vars e.slug values.slug s.env_vars =
      rw (new_named, apart) refl in
    let vars = sym after ∙ same in
    ap (λ l. last_value every k (get_env_vars l values.slug)) vars
    ∙ last_value-get_env_vars (rename_vars e.slug values.slug s.env_vars) values.slug k
    ∙ rw
        (
          last_value-rename_vars e.slug values.slug k s.env_vars apart free,
          last_value-rename_vars_general e.slug values.slug k s.env_vars named new_named,
        )
        (sym (last_value-get_env_vars s.env_vars e.slug k))

last_value-without_vars :
    (slug k : String) (vars : List Variable)
    → last_value (for_environment slug) k (without_vars slug vars) ≡ none
last_value-without_vars slug k [] = refl
last_value-without_vars slug k (v ∷ vars) = elim (Bool-cases (text_is v.environment slug)) [
  | inl e ↦ rw e (last_value-without_vars slug k vars)
  | inr e ↦ rw (e, e) (ground (arith, last_value-without_vars slug k vars))
]

last_value-without_vars_general :
    (slug k : String) (vars : List Variable)
    → (slug == "") ≡ false
    → last_value generally k (without_vars slug vars) ≡ last_value generally k vars
last_value-without_vars_general slug k [] named = refl
last_value-without_vars_general slug k (v ∷ vars) named =
    elim (Bool-cases (text_is v.environment slug)) [
      | inl e ↦
          rw (e, general_apart v.environment slug named e)
            (ground (arith, last_value-without_vars_general slug k vars named))
      | inr e ↦ rw e (ground (arith, last_value-without_vars_general slug k vars named))
    ]

-- A deletion of an environment other than production that is found, active or not, makes it inactive
-- and changes nothing else of it, and leaves its slug the variables for all environments alone: what
-- is given for the slug is gone, also what was meant for another environment that has the slug now;
-- neither the identity nor the slug is empty.
pub delete_environment-get_env_vars :
    (i k : String) (e : Entry) (s : Settings)
    → first (has_id i) s.environments ≡ some e
    → (i == "") ≡ false
    → (i == "prod") ≡ false
    → (e.slug == "") ≡ false
    → ((delete_environment i s).0 ≡ ok true)
      × (first (has_id i) (delete_environment i s).1.environments
          ≡ some (record e { active = false }))
      × (last_value every k (get_env_vars (delete_environment i s).1.env_vars e.slug)
          ≡ last_value generally k s.env_vars)
unfolding delete_environment
delete_environment-get_env_vars i k e s found nonempty other named =
    let one =
      first-upsert (has_id i) (deleted e) s.environments
        (rw (found_id i s.environments e found) (eq_refl i)) in
    let vars =
      last_value-get_env_vars (without_vars e.slug s.env_vars) e.slug k
      ∙ rw
          (
            last_value-without_vars e.slug k s.env_vars,
            last_value-without_vars_general e.slug k s.env_vars named,
          )
          refl in
    rw (nonempty, other, found) (refl, one, vars)

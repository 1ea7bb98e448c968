-- ===== src/Deploy/Rollback/Swaps.antt =====
-- A rollback undoes a deployment, and a second rollback undoes the first.
use Prim.Native.Char.{Char}
use Prim.Native.String.{String, [], ◌∷◌}
use text.Mathlib.TextLemmas.{cons-append, append-nil, append_cancel_left, cons≢nil}
use mathlib.Core.List.{List}
use layerrail_deploy.Prelude.{
  ℕ, ◌≡◌, refl, sym, ap, ◌∙◌, ◌==◌, ◌⊕◌, eq_iff, false, Option, none, some, first, change,
  first-change, UniqueBy, any, arith, text_is, Bool-cases, inl, inr,
}
use layerrail_deploy.Effect.{ok}
use layerrail_deploy.Effect.Success.{require-ok}
use layerrail_deploy.Deploy.Model.{
  Deployment, Environment, Project, Alias, for_environment, Database,
}
use layerrail_deploy.Deploy.Aliases.{
  has_subdomain, updated, setup_aliases, get_alias_domains, rollback_subdomain, nonempty,
  branch_part, sanitized,
}
use layerrail_deploy.Deploy.Aliases.Lookups.{
  alias_at, same_subdomain, IsUnique, made, made-deployment, set_aliases-at,
}
use layerrail_deploy.Deploy.Rollback.{swapped, rollback}

-- The alias has a subdomain of its own: the change of no other is left.
change_none :
    (s : String) (f : Alias → Alias) (a : Alias) (aliases : List Alias)
    → a.subdomain ≡ s
    → any (same_subdomain a) aliases ≡ false
    → change (has_subdomain s) f aliases ≡ aliases
change_none s f a List.[] e h = refl
change_none s f a (List.◌∷◌ b aliases) e h =
    ground
      (arith, eq_iff b.subdomain s, eq_iff a.subdomain b.subdomain, change_none s f a aliases e)

change_twice :
    (s previous : String) (a : Alias) (aliases : List Alias)
    → UniqueBy same_subdomain aliases
    → first (has_subdomain s) aliases ≡ some a
    → a.previous_deployment_id ≡ some previous
    → change
        (has_subdomain s)
        (swapped a.deployment_id)
        (change (has_subdomain s) (swapped previous) aliases)
      ≡ aliases
change_twice s previous a List.[] unique h p = refl
change_twice s previous a (List.◌∷◌ b aliases) (one, unique) h p =
    elim (Bool-cases (has_subdomain s b)) [
      | inr e ↦
          rw (e, e)
            (ap (λ l. List.◌∷◌ b l)
              (change_twice s previous a aliases unique (ground (arith, h)) p))
      | inl e ↦
          let rest = change_none s (swapped previous) b aliases ((eq_iff b.subdomain s).0 e) one in
          let again =
            change_none s (swapped a.deployment_id) b aliases ((eq_iff b.subdomain s).0 e) one in
          rw (e, e, rest, again) (ground (arith, e))
    ]

restored_alias :
    (b : Alias) (previous : String)
    → b.previous_deployment_id ≡ some previous
    → swapped b.deployment_id (swapped previous b) ≡ b
restored_alias b previous p = ground arith

module _ (environment : Environment) (project : Project) where
  abbrev sub : String
  sub = rollback_subdomain project environment

  -- a rollback that succeeds
  rollback_found :
      (a : Alias) (previous : String) (s : Database)
      → alias_at sub s ≡ some a
      → a.previous_deployment_id ≡ some previous
      → ((rollback environment project s).0 ≡ ok (swapped previous a))
        × ((rollback environment project s).1.aliases
            ≡ change (has_subdomain sub) (swapped previous) s.aliases)
  unfolding rollback
  rollback_found a previous s found p = (rw (found, p) refl, rw (found, p) refl)

  rollback_parts :
      (a : Alias) (s t : Database)
      → rollback environment project s ≡ (ok a, t)
      → (b : Alias) × (previous : String) × (alias_at sub s ≡ some b)
        × (b.previous_deployment_id ≡ some previous)
  unfolding rollback
  rollback_parts a s t h =
      let (b, found, h₁) = require-ok a t (alias_at sub s) _ _ s h in
      let (previous, p, h₂) = require-ok a t b.previous_deployment_id _ _ s h₁ in
      (b, previous, found, p)

  -- If subdomains are unique, a rollback that succeeds can be followed by another, which succeeds
  -- too and restores every alias.
  pub rollback-rollback :
      (a : Alias) (s t : Database)
      → IsUnique s
      → rollback environment project s ≡ (ok a, t)
      → (b : Alias) × ((rollback environment project t).0 ≡ ok b)
        × (alias_at (rollback_subdomain project environment) s ≡ some b)
        × ((rollback environment project t).1.aliases ≡ s.aliases)
  rollback-rollback a s t unique h =
      let (b, previous, found, p) = rollback_parts a s t h in
      let (result, after) = rollback_found b previous s found p in
      let state : (rollback environment project s).1 ≡ t = ap (λ x. x.1) h in
      let aliases : t.aliases ≡ change (has_subdomain sub) (swapped previous) s.aliases =
        ap (λ (db : Database). db.aliases) (sym state) ∙ after in
      let there : alias_at sub t ≡ some (swapped previous b) =
        ap (first (has_subdomain sub)) aliases
        ∙ first-change (has_subdomain sub) (swapped previous) s.aliases b (λ (x : Alias). refl)
            found in
      let (second, restored) = rollback_found (swapped previous b) b.deployment_id t there refl in
      (
        b,
        second ∙ ap ok (restored_alias b previous p),
        found,
        restored
            ∙ ap (change (has_subdomain sub) (swapped b.deployment_id)) aliases
            ∙ change_twice sub previous b s.aliases unique found p,
      )

longer : (s x y : String) (c : Char) → x ≡ c ∷ y → (s ⊕ x == s) ≡ false
longer s x y c e = elim (Bool-cases (s ⊕ x == s)) [
  | inr no_match ↦ no_match
  | inl same ↦ absurd (
      cons≢nil (sym e ∙ append_cancel_left s x [] ((eq_iff (s ⊕ x) s).0 same ∙ sym (append-nil s))))
]

branch-apart :
    (project : Project) (o : Option String) → text_is (branch_part project o) project.slug ≡ false
branch-apart project none = refl
branch-apart project (some x) =
    longer project.slug ("-branch-" ⊕ x) ("branch-" ⊕ x) "-" (cons-append "-" "branch-" x)

nonempty-apart : (s t : String) → (s == t) ≡ false → text_is (nonempty s) t ≡ false
nonempty-apart [] t h = refl
nonempty-apart (c ∷ s) t h = h

pub production_at :
    (lower : String → String) (project : Project) (d : Deployment) (db : Database)
    → nonempty project.slug ≡ some project.slug
    → d.environment_id ≡ "prod"
    → (n : ℕ) × (alias_at project.slug (setup_aliases lower project d db)
        ≡ some (
            made n project.slug d.id for_environment d.environment_id
              (some "prod")
              (alias_at project.slug db)))
unfolding setup_aliases
production_at lower project d db named prod =
    let (n, found) =
      set_aliases-at (get_alias_domains lower project d) project.slug d db (rw prod named)
        (branch-apart project (sanitized lower d.branch))
        (nonempty-apart (project.slug ⊕ "-env-id-" ⊕ d.environment_id) project.slug (
          longer project.slug ("-env-id-" ⊕ d.environment_id) ("env-id-" ⊕ d.environment_id) "-"
            (cons-append "-" "env-id-" d.environment_id))) in
    (
      n,
      found
          ∙ ap
              (λ e. some (
                made n project.slug d.id for_environment d.environment_id (some e)
                  (alias_at project.slug db)))
              prod,
    )

abbrev replaced : String → String → Alias → Alias
replaced i previous a = record a { deployment_id = i; previous_deployment_id = some previous }

updated_apart :
    (i previous : String) (a : Alias)
    → a.deployment_id ≡ previous
    → (previous == i) ≡ false
    → updated i for_environment (some "prod") a ≡ replaced i previous a
updated_apart i previous a own apart = ground (arith, own, apart)

subdomain_of :
    (project : Project) (environment : Environment)
    → environment.id ≡ "prod"
    → rollback_subdomain project environment ≡ project.slug
subdomain_of project environment production = rw production refl

-- After two deployments to production, whatever the aliases were before, a rollback leads the
-- project's subdomain to the first one, and keeps the second as the one to go back to: the alias that
-- it returns is the one that is then found in the table. The project has a slug, and the identities
-- of the deployments differ.
pub rollback-setup_aliases :
    (lower : String → String) (project : Project) (environment : Environment) (d e : Deployment)
    (db : Database)
    → nonempty project.slug ≡ some project.slug
    → environment.id ≡ "prod"
    → d.environment_id ≡ "prod"
    → e.environment_id ≡ "prod"
    → (d.id == e.id) ≡ false
    → (a : Alias) × ((rollback environment project
          (setup_aliases lower project e (setup_aliases lower project d db))).0
        ≡ ok a)
      × (alias_at project.slug
            (rollback environment project
              (setup_aliases lower project e (setup_aliases lower project d db))).1
          ≡ some a)
      × (a.deployment_id ≡ d.id)
      × (a.previous_deployment_id ≡ some e.id)
rollback-setup_aliases lower project environment d e db named production pd pe apart =
    let (n, first_made) = production_at lower project d db named pd in
    let (k, second_made) =
      production_at lower project e (setup_aliases lower project d db) named pe in
    let m =
      made n project.slug d.id for_environment d.environment_id (some "prod")
        (alias_at project.slug db) in
    let own =
      made-deployment n project.slug d.id d.environment_id for_environment (some "prod")
        (alias_at project.slug db) in
    let found =
      second_made
      ∙ ap (λ o. some (made k project.slug e.id for_environment e.environment_id (some "prod") o))
          first_made
      ∙ ap some (updated_apart e.id d.id m own apart) in
    let there =
      ap (λ s. alias_at s (setup_aliases lower project e (setup_aliases lower project d db)))
        (subdomain_of project environment production)
      ∙ found in
    let both = setup_aliases lower project e (setup_aliases lower project d db) in
    let (result, aliases) =
      rollback_found environment project (replaced e.id d.id m) d.id both there refl in
    (
      swapped d.id (replaced e.id d.id m),
      result,
      ap (first (has_subdomain project.slug)) aliases
          ∙ rw (subdomain_of project environment production) (
              first-change (has_subdomain project.slug) (swapped d.id) both.aliases
                (replaced e.id d.id m) (λ (x : Alias). refl) found),
      refl,
      refl,
    )

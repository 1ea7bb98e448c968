-- ===== src/Deploy/Aliases/Lookups.antt =====
-- What is found under a subdomain after an update, and that subdomains stay unique.
use layerrail_deploy.Prelude.{
  ℕ, String, ◌≡◌, refl, ◌∙◌, ◌==◌, eq_iff, eq_refl, Bool, false, Option, none, some, List, [], ◌∷◌,
  first, first-change, first-change_other, UniqueBy, UniqueBy-change, any, arith, text_is,
  Option-cases, inl, inr,
}
use layerrail_deploy.Deploy.Model.{
  Alias, AliasType, for_branch, for_environment, for_environment_id, Deployment, Project, Database,
}
use layerrail_deploy.Deploy.Aliases.{
  AliasDomains, has_subdomain, updated, new_alias, update_or_create, set_alias, set_branch,
  set_environment, set_aliases, setup_aliases, get_alias_domains, nonempty,
}

abbrev pub alias_at : String → Database → Option Alias
alias_at subdomain db = first (has_subdomain subdomain) db.aliases

abbrev pub same_subdomain : Alias → Alias → Bool
same_subdomain a b = a.subdomain == b.subdomain

-- No two aliases have the same subdomain.
abbrev pub IsUnique : Database → Type 0
IsUnique db = UniqueBy same_subdomain db.aliases

updated-subdomain :
    (i : String) (kind : AliasType) (e : Option String) (s : String) (a : Alias)
    → has_subdomain s (updated i kind e a) ≡ has_subdomain s a
updated-subdomain i kind e s a = ground arith

abbrev pub made : ℕ → String → String → AliasType → String → Option String → Option Alias → Alias
made next subdomain i kind value e none = new_alias next subdomain i kind value
made next subdomain i kind value e (some a) = updated i kind e a

pub made-deployment :
    (n : ℕ) (s i v : String) (kind : AliasType) (e : Option String) (o : Option Alias)
    → (made n s i kind v e o).deployment_id ≡ i
made-deployment n s i v kind e none = refl
made-deployment n s i v kind e (some a) = ground (arith, eq_iff a.deployment_id i)

pub update_or_create-at :
    (s i : String) (kind : AliasType) (value : String) (e : Option String) (db : Database)
    → alias_at s (update_or_create s i kind value e db)
      ≡ some (made db.next_alias s i kind value e (alias_at s db))
unfolding update_or_create
update_or_create-at s i kind value e db = elim (Option-cases (alias_at s db)) [
  | inl missing ↦ rw (missing, eq_refl s) refl
  | inr (a, found) ↦ rw found (
      first-change (has_subdomain s) (updated i kind e) db.aliases a (updated-subdomain i kind e s)
        found)
]

pub update_or_create-at_other :
    (s t i : String) (kind : AliasType) (value : String) (e : Option String) (db : Database)
    → (s == t) ≡ false
    → alias_at t (update_or_create s i kind value e db) ≡ alias_at t db
unfolding update_or_create
update_or_create-at_other s t i kind value e db apart = elim (Option-cases (alias_at s db)) [
  | inl missing ↦ rw (missing, apart) refl
  | inr (a, found) ↦ rw found (
      first-change_other (has_subdomain s) (has_subdomain t) (updated i kind e) db.aliases
        (λ (x : Alias) h. ground (arith, eq_iff x.subdomain s, eq_iff x.subdomain t, eq_iff s t))
        (updated-subdomain i kind e t))
]

none_same :
    (s : String) (a : Alias) (aliases : List Alias)
    → a.subdomain ≡ s
    → first (has_subdomain s) aliases ≡ none
    → any (same_subdomain a) aliases ≡ false
none_same s a [] e h = refl
none_same s a (b ∷ aliases) e h =
    ground (arith, eq_iff b.subdomain s, eq_iff a.subdomain b.subdomain, none_same s a aliases e)

update_or_create-IsUnique :
    (s i : String) (kind : AliasType) (value : String) (e : Option String) (db : Database)
    → IsUnique db
    → IsUnique (update_or_create s i kind value e db)
unfolding update_or_create
update_or_create-IsUnique s i kind value e db unique = elim (Option-cases (alias_at s db)) [
  | inl missing ↦
      rw missing
        (none_same s (new_alias db.next_alias s i kind value) db.aliases refl missing, unique)
  | inr (a, found) ↦ rw found (
      UniqueBy-change same_subdomain (has_subdomain s) (updated i kind e) db.aliases
        (λ (x y : Alias). ground arith) (λ (x y : Alias). ground arith) unique)
]

set_alias-IsUnique :
    (s : Option String) (i : String) (kind : AliasType) (value : String) (e : Option String)
    (db : Database)
    → IsUnique db
    → IsUnique (set_alias s i kind value e db)
set_alias-IsUnique none i kind value e db h = h
set_alias-IsUnique (some s) i kind value e db h = update_or_create-IsUnique s i kind value e db h

set_aliases-IsUnique :
    (domains : AliasDomains) (d : Deployment) (db : Database)
    → IsUnique db
    → IsUnique (set_aliases domains d db)
set_aliases-IsUnique domains d db h =
    let branch = set_alias-IsUnique domains.branch_subdomain d.id for_branch d.branch none db h in
    let environment =
      set_alias-IsUnique domains.environment_subdomain d.id for_environment d.environment_id
        (some d.environment_id) (set_branch domains d db) branch in
    set_alias-IsUnique (nonempty domains.environment_id_subdomain) d.id for_environment_id
      d.environment_id (some d.environment_id) (set_environment domains d (set_branch domains d db))
      environment

pub setup_aliases-IsUnique :
    (lower : String → String) (project : Project) (d : Deployment) (db : Database)
    → IsUnique db
    → IsUnique (setup_aliases lower project d db)
unfolding setup_aliases
setup_aliases-IsUnique lower project d db h =
    set_aliases-IsUnique (get_alias_domains lower project d) d db h

set_alias-at :
    (s : Option String) (t i : String) (kind : AliasType) (value : String) (e : Option String)
    (db : Database)
    → text_is s t ≡ false
    → alias_at t (set_alias s i kind value e db) ≡ alias_at t db
set_alias-at none t i kind value e db apart = refl
set_alias-at (some s) t i kind value e db apart =
    update_or_create-at_other s t i kind value e db apart

-- Only the environment's own update reaches its subdomain, if the other two are other subdomains.
pub set_aliases-at :
    (domains : AliasDomains) (s : String) (d : Deployment) (db : Database)
    → domains.environment_subdomain ≡ some s
    → text_is domains.branch_subdomain s ≡ false
    → text_is (nonempty domains.environment_id_subdomain) s ≡ false
    → (n : ℕ) × (alias_at s (set_aliases domains d db)
        ≡ some (
            made n s d.id for_environment d.environment_id (some d.environment_id) (alias_at s db)))
set_aliases-at domains s d db own branch id =
    let before = set_branch domains d db in
    let first_step =
      set_alias-at domains.branch_subdomain s d.id for_branch d.branch none db branch in
    let last_step =
      set_alias-at (nonempty domains.environment_id_subdomain) s d.id for_environment_id
        d.environment_id (some d.environment_id) (set_environment domains d before) id in
    let middle =
      update_or_create-at s d.id for_environment d.environment_id (some d.environment_id) before in
    (before.next_alias, last_step ∙ rw (own, ← first_step) middle)

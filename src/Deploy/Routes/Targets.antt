-- ===== src/Deploy/Routes/Targets.antt =====
-- Where the routes lead: only to deployments that may be reached.
use mathlib.Core.List.{List}
use layerrail_deploy.Prelude.{
  String, ◌≡◌, refl, Bool, true, ◌&&◌, Option, none, some, [], ◌∷◌, ◌++◌, All, first, is_some,
  arith, Bool-cases, ◌⊎◌, inl, inr,
}
use layerrail_deploy.Deploy.Model.{Project, Alias, Database}
use layerrail_deploy.Deploy.Routes.{
  DomainType, route, redirect_301, redirect_302, redirect_307, redirect_308, Domain, RouteSettings,
  Router, Config, is_routable, routable_aliases, service_of, alias_routers, is_alias_of,
  domain_router, redirect_router, add_kind, add_domain, add_domains, active_domains, file_of,
  is_empty, written, update_traefik_config,
}

-- A router redirects, or it leads to a deployment that is routable.
abbrev pub IsSound : (String → Bool) → Router → Type 0
IsSound routable r =
    (r.service ≡ "noop@internal")
    ⊎ ((i : String) × (r.service ≡ service_of i) × (routable i ≡ true))

abbrev pub routers_of : Option Config → List Router
routers_of none = []
routers_of (some config) = config.routers

module _ (settings : RouteSettings) (routable : String → Bool) where
  routable_aliases-All :
      (aliases : List Alias)
      → All (λ (a : Alias). routable a.deployment_id ≡ true) (routable_aliases routable aliases)
  routable_aliases-All List.[] = tt
  routable_aliases-All (List.◌∷◌ a aliases) = elim (Bool-cases (routable a.deployment_id)) [
    | inl e ↦ rw e (e, routable_aliases-All aliases)
    | inr e ↦ rw e (routable_aliases-All aliases)
  ]

  alias_routers-IsSound :
      (aliases : List Alias)
      → All (λ (a : Alias). routable a.deployment_id ≡ true) aliases
      → All (IsSound routable) (alias_routers settings aliases)
  alias_routers-IsSound List.[] h = tt
  alias_routers-IsSound (List.◌∷◌ a aliases) (e, h) =
      (inr (a.deployment_id, refl, e), alias_routers-IsSound aliases h)

  first-All :
      (p : Alias → Bool) (aliases : List Alias) (a : Alias)
      → All (λ (x : Alias). routable x.deployment_id ≡ true) aliases
      → first p aliases ≡ some a
      → routable a.deployment_id ≡ true
  first-All p List.[] a h e = ground arith
  first-All p (List.◌∷◌ b aliases) a (one, h) e = elim (Bool-cases (p b)) [
    | inl own ↦ ground (arith, own, one, e)
    | inr other ↦ first-All p aliases a h (ground (arith, other, e))
  ]

  snoc-IsSound :
      (routers : List Router) (r : Router)
      → All (IsSound routable) routers
      → IsSound routable r
      → All (IsSound routable) (routers ++ r ∷ [])
  snoc-IsSound List.[] r h e = (e, tt)
  snoc-IsSound (List.◌∷◌ q routers) r (one, h) e = (one, snoc-IsSound routers r h e)

  add_kind-IsSound :
      (kind : DomainType) (domain : Domain) (a : Alias) (config : Config)
      → routable a.deployment_id ≡ true
      → All (IsSound routable) config.routers
      → All (IsSound routable) (add_kind kind settings domain a config).routers
  add_kind-IsSound route domain a config e h =
      snoc-IsSound config.routers (domain_router settings domain a) h
        (inr (a.deployment_id, refl, e))
  add_kind-IsSound redirect_301 domain a config e h =
      snoc-IsSound config.routers (redirect_router settings domain) h (inl refl)
  add_kind-IsSound redirect_302 domain a config e h =
      snoc-IsSound config.routers (redirect_router settings domain) h (inl refl)
  add_kind-IsSound redirect_307 domain a config e h =
      snoc-IsSound config.routers (redirect_router settings domain) h (inl refl)
  add_kind-IsSound redirect_308 domain a config e h =
      snoc-IsSound config.routers (redirect_router settings domain) h (inl refl)

  add_domain-IsSound :
      (domain : Domain) (o : Option Alias) (aliases : List Alias) (config : Config)
      → first (is_alias_of domain.environment_id) aliases ≡ o
      → All (λ (a : Alias). routable a.deployment_id ≡ true) aliases
      → All (IsSound routable) config.routers
      → All (IsSound routable) (add_domain settings domain o config).routers
  add_domain-IsSound domain none aliases config there own h = h
  add_domain-IsSound domain (some a) aliases config there own h =
      add_kind-IsSound domain.kind domain a config
        (first-All (is_alias_of domain.environment_id) aliases a own there) h

  add_domains-IsSound :
      (aliases : List Alias) (domains : List Domain) (config : Config)
      → All (λ (a : Alias). routable a.deployment_id ≡ true) aliases
      → All (IsSound routable) config.routers
      → All (IsSound routable) (add_domains settings aliases domains config).routers
  add_domains-IsSound aliases List.[] config own h = h
  add_domains-IsSound aliases (List.◌∷◌ d domains) config own h =
      add_domains-IsSound aliases domains
        (add_domain settings d (first (is_alias_of d.environment_id) aliases) config) own
        (add_domain-IsSound d (first (is_alias_of d.environment_id) aliases) aliases config refl own
          h)

file_of-All :
    (P : Router → Type 0) (config : Config)
    → All P config.routers
    → All P (routers_of (file_of config))
file_of-All P config h =
    elim (Bool-cases (is_empty config.routers && is_empty config.middlewares)) [
      | inl e ↦ rw e tt
      | inr e ↦ rw e h
    ]

written-IsSound :
    (settings : RouteSettings) (routable : String → Bool) (aliases : List Alias)
    (domains : List Domain) (file : Option Config)
    → All (λ (a : Alias). routable a.deployment_id ≡ true) aliases
    → All (IsSound routable) (routers_of (written settings aliases domains file))
written-IsSound settings routable aliases domains file own =
    elim (Bool-cases (is_empty aliases && is_empty domains && is_some file)) [
      | inl e ↦ rw e tt
      | inr e ↦ rw e (
          file_of-All (IsSound routable) _ (
            add_domains-IsSound settings routable aliases domains _ own
              (alias_routers-IsSound settings routable aliases own)))
    ]

-- Every router in the file of a project is a redirect or leads to a deployment that is in the
-- database and of this project, and that has succeeded or is included by the caller.
pub update_traefik_config-IsSound :
    (settings : RouteSettings) (project : Project) (domains : List Domain) (include : List String)
    (db : Database) (file : Option Config)
    → All
        (IsSound (is_routable include project.id db.deployments))
        (routers_of (update_traefik_config settings project domains include db file))
unfolding update_traefik_config
update_traefik_config-IsSound settings project domains include db file =
    let routable = is_routable include project.id db.deployments in
    let own = routable_aliases-All settings routable db.aliases in
    written-IsSound settings routable (routable_aliases routable db.aliases)
      (active_domains project.id domains) file own

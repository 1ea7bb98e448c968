-- ===== src/Deploy/Routes/Reached.antt =====
-- That a project's own host leads to its production once that is deployed.
use mathlib.Core.List.{List}
use layerrail_deploy.Prelude.{
  String, ◌≡◌, refl, ap, ◌∙◌, ◌==◌, ◌⊕◌, eq_iff, eq_refl, Bool, true, false, ◌&&◌, ◌||◌, Option,
  none, some, [], ◌∷◌, ◌++◌, any, first, arith, Bool-cases, inl, inr,
}
use layerrail_deploy.Deploy.Model.{Deployment, Project, for_environment, Alias, Database, has_id}
use layerrail_deploy.Deploy.Aliases.{has_subdomain, setup_aliases, nonempty}
use layerrail_deploy.Deploy.Aliases.Lookups.{alias_at, made-deployment}
use layerrail_deploy.Deploy.Rollback.Swaps.{production_at}
use layerrail_deploy.Deploy.Jobs.{find}
use layerrail_deploy.Deploy.Jobs.Canceled.{setup_aliases-deployments}
use layerrail_deploy.Deploy.Routes.{
  DomainType, route, redirect_301, redirect_302, redirect_307, redirect_308, Domain, RouteSettings,
  Router, Config, is_routable, routable_aliases, host_rule, service_of, alias_router, alias_routers,
  is_alias_of, domain_router, redirect_router, add_kind, add_domain, add_domains, active_domains,
  file_of, is_empty, written, update_traefik_config,
}
use layerrail_deploy.Deploy.Routes.Targets.{routers_of}

-- A router of the host, to the deployment.
abbrev pub is_route : String → String → Router → Bool
is_route host i r = r.rule == host_rule host && r.service == service_of i

any-snoc :
    (p : Router → Bool) (routers : List Router) (r : Router)
    → any p routers ≡ true
    → any p (routers ++ r ∷ []) ≡ true
any-snoc p List.[] r h = ground arith
any-snoc p (List.◌∷◌ q routers) r h = ground (arith, h, any-snoc p routers r)

add_kind-keeps :
    (p : Router → Bool) (kind : DomainType) (settings : RouteSettings) (domain : Domain) (a : Alias)
    (config : Config)
    → any p config.routers ≡ true
    → any p (add_kind kind settings domain a config).routers ≡ true
add_kind-keeps p route settings domain a config h =
    any-snoc p config.routers (domain_router settings domain a) h
add_kind-keeps p redirect_301 settings domain a config h =
    any-snoc p config.routers (redirect_router settings domain) h
add_kind-keeps p redirect_302 settings domain a config h =
    any-snoc p config.routers (redirect_router settings domain) h
add_kind-keeps p redirect_307 settings domain a config h =
    any-snoc p config.routers (redirect_router settings domain) h
add_kind-keeps p redirect_308 settings domain a config h =
    any-snoc p config.routers (redirect_router settings domain) h

add_domain-keeps :
    (p : Router → Bool) (settings : RouteSettings) (domain : Domain) (o : Option Alias)
    (config : Config)
    → any p config.routers ≡ true
    → any p (add_domain settings domain o config).routers ≡ true
add_domain-keeps p settings domain none config h = h
add_domain-keeps p settings domain (some a) config h =
    add_kind-keeps p domain.kind settings domain a config h

add_domains-keeps :
    (p : Router → Bool) (settings : RouteSettings) (aliases : List Alias) (domains : List Domain)
    (config : Config)
    → any p config.routers ≡ true
    → any p (add_domains settings aliases domains config).routers ≡ true
add_domains-keeps p settings aliases List.[] config h = h
add_domains-keeps p settings aliases (List.◌∷◌ d domains) config h =
    add_domains-keeps p settings aliases domains
      (add_domain settings d (first (is_alias_of d.environment_id) aliases) config)
      (add_domain-keeps p settings d (first (is_alias_of d.environment_id) aliases) config h)

alias_router-route :
    (settings : RouteSettings) (s i : String) (a : Alias)
    → a.subdomain ≡ s
    → a.deployment_id ≡ i
    → is_route (s ⊕ "." ⊕ settings.deploy_domain) i (alias_router settings a) ≡ true
alias_router-route settings s i a e own =
    rw (e, own, eq_refl (host_rule (s ⊕ "." ⊕ settings.deploy_domain)), eq_refl (service_of i)) refl

-- the router of a routable alias with the subdomain
alias_routers-first :
    (settings : RouteSettings) (routable : String → Bool) (s i : String) (aliases : List Alias)
    (a : Alias)
    → first (has_subdomain s) aliases ≡ some a
    → a.deployment_id ≡ i
    → routable i ≡ true
    → any
        (is_route (s ⊕ "." ⊕ settings.deploy_domain) i)
        (alias_routers settings (routable_aliases routable aliases))
      ≡ true
alias_routers-first settings routable s i List.[] a h own reached = ground arith
alias_routers-first settings routable s i (List.◌∷◌ b aliases) a h own reached =
    elim (Bool-cases (has_subdomain s b)) [
      | inl e ↦
          let same : b ≡ a = ground (arith, h, e) in
          let there : b.deployment_id ≡ i = ap (λ (x : Alias). x.deployment_id) same ∙ own in
          rw
            (
              ap routable there ∙ reached,
              alias_router-route settings s i b ((eq_iff b.subdomain s).0 e) there,
            )
            refl
      | inr e ↦
          let rest =
            alias_routers-first settings routable s i aliases a (ground (arith, h, e)) own
              reached in
          elim (Bool-cases (routable b.deployment_id)) [
            | inl r ↦ rw r (or_true _ _ rest)
            | inr r ↦ rw r rest
          ]
    ]
  where
    or_true : (x y : Bool) → y ≡ true → (x || y) ≡ true
    or_true x y e = ground (arith, e)

some_router :
    (p : Router → Bool) (routers : List Router) → any p routers ≡ true → is_empty routers ≡ false
some_router p List.[] h = ground arith
some_router p (List.◌∷◌ r routers) h = refl

file_of-any :
    (p : Router → Bool) (config : Config)
    → any p config.routers ≡ true
    → any p (routers_of (file_of config)) ≡ true
file_of-any p config h = rw (some_router p config.routers h) h

included :
    (d : Deployment) (project_id : String) (deployments : List Deployment)
    → d.project_id ≡ project_id
    → first (has_id d.id) deployments ≡ some d
    → is_routable (d.id ∷ []) project_id deployments d.id ≡ true
included d project_id deployments own found =
    rw found (ground (arith, own, eq_refl project_id, eq_refl d.id, eq_iff d.project_id project_id))

written-route :
    (settings : RouteSettings) (aliases : List Alias) (domains : List Domain) (file : Option Config)
    (p : Router → Bool)
    → any p (alias_routers settings aliases) ≡ true
    → any p (routers_of (written settings aliases domains file)) ≡ true
written-route settings List.[] domains file p h = ground arith
written-route settings (List.◌∷◌ a aliases) domains file p h =
    file_of-any p _ (add_domains-keeps p settings (List.◌∷◌ a aliases) domains _ h)

-- When the aliases of a deployment to production are set up, whatever aliases and routes there were,
-- the file that is written next, with the deployment included, has a router of the project's own
-- host to the deployment; the project has a slug, and the deployment is in the database and of this
-- project.
pub update_traefik_config-setup_aliases :
    (lower : String → String) (settings : RouteSettings) (project : Project) (d : Deployment)
    (domains : List Domain) (db : Database) (file : Option Config)
    → nonempty project.slug ≡ some project.slug
    → d.environment_id ≡ "prod"
    → d.project_id ≡ project.id
    → find d.id db ≡ some d
    → any (is_route (project.slug ⊕ "." ⊕ settings.deploy_domain) d.id) (
        routers_of (
          update_traefik_config settings project domains
            (d.id ∷ [])
            (setup_aliases lower project d db)
            file))
      ≡ true
unfolding update_traefik_config
update_traefik_config-setup_aliases lower settings project d domains db file named prod own found =
    let (n, there) = production_at lower project d db named prod in
    let t = setup_aliases lower project d db in
    let routable = is_routable (d.id ∷ []) project.id t.deployments in
    written-route settings (routable_aliases routable t.aliases) (active_domains project.id domains)
      file _
      (alias_routers-first settings routable project.slug d.id t.aliases _ there
        (made-deployment n project.slug d.id d.environment_id for_environment (some "prod")
          (alias_at project.slug db))
        (included d project.id t.deployments own
          (ap (first (has_id d.id)) (setup_aliases-deployments d.id lower project d db) ∙ found)))

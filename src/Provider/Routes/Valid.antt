-- ===== src/Provider/Routes/Valid.antt =====
-- routing.py: every alias in the table has a host and a port that `apply` admits.
use layerrail_deploy.Prelude.{
  String, ◌⊕◌, ◌≡◌, ◌≤◌, sym, ap, subst, Bool, true, List, [], ◌∷◌, arith, All, upsert, discard,
  ends_with, Bool-cases, inl, inr,
}
use layerrail_deploy.Effect.{err, Result-cases}
use layerrail_deploy.Json.{Fields}
use layerrail_deploy.Provider.State.{
  Trouble, Alias, Revision, Method, State, has_alias, hostname_taken, save_alias,
  revision_for_deployment, serves, of_deployment,
}
use layerrail_deploy.Provider.State
use layerrail_deploy.Provider.Routes.{
  Python, is_hostname, str_of, aliases, write_all, apply, remove_deployment,
}
use layerrail_deploy.Provider.Routes.Targets.{target_row, apply-Accepted}
use layerrail_deploy.Provider.Routes.Unique.{Change, routed, removed, changed, changes}

-- A valid host under the deploy domain, and a port of 16 bits.
pub record IsValid (deploy_domain : String) (a : Alias) : Type 0 where
  pub hostname : is_hostname a.hostname ≡ true
  pub in_domain : ends_with a.hostname ("." ⊕ deploy_domain) ≡ true
  pub port_least : 1 ≤ a.container_port
  pub port_most : a.container_port ≤ 65535

All-upsert :
    (P : Alias → Type 0) (p : Alias → Bool) (a : Alias) (rows : List Alias)
    → P a
    → All P rows
    → All P (upsert p a rows)
All-upsert P p a [] new h = (new, tt)
All-upsert P p a (b ∷ rows) new (one, h) = elim (Bool-cases (p b)) [
  | inl e ↦ rw e (new, h)
  | inr e ↦ rw e (one, All-upsert P p a rows new h)
]

All-discard :
    (P : Alias → Type 0) (p : Alias → Bool) (rows : List Alias)
    → All P rows
    → All P (discard p rows)
All-discard P p [] h = tt
All-discard P p (b ∷ rows) (one, h) = elim (Bool-cases (p b)) [
  | inl e ↦ rw e (All-discard P p rows h)
  | inr e ↦ rw e (one, All-discard P p rows h)
]

module _ (python : Python) (deploy_domain : String) where
  apply-refused :
      (command : Fields) (s : State) (e : Trouble)
      → (apply python deploy_domain command s).0 ≡ err e
      → (apply python deploy_domain command s).1 ≡ s
  unfolding apply write_all aliases save_alias revision_for_deployment
  apply-refused command s e h = ground (arith, h)

  apply-IsValid :
      (command : Fields) (s : State)
      → All (IsValid deploy_domain) s.aliases
      → All (IsValid deploy_domain) (apply python deploy_domain command s).1.aliases
  apply-IsValid command s h = elim (Result-cases (apply python deploy_domain command s).0) [
    | inr (e, refused) ↦
        subst (λ (t : State). All (IsValid deploy_domain) t.aliases)
          (sym (apply-refused command s e refused)) h
    | inl (answer, accepted) ↦
        let (port, revision, checked, state, _) =
          apply-Accepted python deploy_domain command s (apply python deploy_domain command s).1
            answer (ap (λ r. (r, (apply python deploy_domain command s).1)) accepted) in
        subst (λ (t : State). All (IsValid deploy_domain) t.aliases) (sym state)
          (All-upsert (IsValid deploy_domain)
            (has_alias (str_of python deploy_domain "alias_id" command))
            (target_row python deploy_domain command port revision) s.aliases
            (record {
              hostname = checked.hostname_valid;
              in_domain = checked.in_domain;
              port_least = checked.port_least;
              port_most = checked.port_most;
            })
            h)
  ]

  remove_deployment-IsValid :
      (deployment_id : String) (s : State)
      → All (IsValid deploy_domain) s.aliases
      → All
          (IsValid deploy_domain)
          (remove_deployment python deploy_domain deployment_id s).1.aliases
  unfolding remove_deployment write_all aliases State.remove_deployment
  remove_deployment-IsValid deployment_id s h =
      All-discard (IsValid deploy_domain) (serves deployment_id) s.aliases h

  -- If every alias in the table has a valid host under the deploy domain and a port of 16 bits, any
  -- commands that route and remove, accepted or not, lead to such a table.
  pub changes-IsValid :
      (calls : List Change) (s : State)
      → All (IsValid deploy_domain) s.aliases
      → All (IsValid deploy_domain) (changes python deploy_domain calls s).aliases
  unfolding changes changed
  changes-IsValid [] s h = h
  changes-IsValid (routed command ∷ rest) s h = changes-IsValid rest _ (apply-IsValid command s h)
  changes-IsValid (removed deployment_id ∷ rest) s h =
      changes-IsValid rest _ (remove_deployment-IsValid deployment_id s h)

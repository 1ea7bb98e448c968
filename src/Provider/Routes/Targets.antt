-- ===== src/Provider/Routes/Targets.antt =====
-- routing.py: what a routing command that is accepted has been checked for, and what it leaves.
use layerrail_deploy.Prelude.{
  ℕ, String, ◌⊕◌, ◌≡◌, ◌≤◌, refl, Bool, true, false, ◌&&◌, not, Option, none, some, arith, first,
  upsert, any, leb, ends_with,
}
use layerrail_deploy.Effect.{ok, and_then, guard, modify, ◌>>◌}
use layerrail_deploy.Effect.Success.{guard-ok, require-ok}
use layerrail_deploy.Json.{Json, text, Fields, end, field, get}
use layerrail_deploy.Provider.State.{
  invalid_route, internal, integrity, Method, Revision, Alias, State, of_deployment, has_alias,
  hostname_taken, save_alias, revision_for_deployment,
}
use layerrail_deploy.Provider.Routes.{
  Python, is_hostname, is_complete, is_same_text, sorted_aliases, aliases, str_of, routes_file,
  write_all, port_value, alias_row, apply,
}

guarded-free :
    {B : Type 0} (taken : Bool) (write : State → State) (f : Unit → Method B) (b : B) (s t : State)
    → let save = guard (not taken) integrity >> modify write in
      and_then (save s).0 f (save s).1 ≡ (ok b, t) → (taken ≡ false) × (f tt (write s) ≡ (ok b, t))
guarded-free true write f b s t h = ground arith
guarded-free false write f b s t h = (refl, h)

-- An alias that has been saved had a host that no other alias has.
saved-free :
    {B : Type 0} (row : Alias) (f : Unit → Method B) (b : B) (s t : State)
    → and_then (save_alias row s).0 f (save_alias row s).1 ≡ (ok b, t)
    → (any (hostname_taken row) s.aliases ≡ false)
      × (f tt (record s { aliases = upsert (has_alias row.alias_id) row s.aliases }) ≡ (ok b, t))
unfolding save_alias
saved-free row f b s t h =
    guarded-free (any (hostname_taken row) s.aliases)
      (λ v. record v { aliases = upsert (has_alias row.alias_id) row v.aliases }) f b s t h

module _ (python : Python) (deploy_domain : String) where
  port_source :
      (o : Option Json) (port : ℕ)
      → port_value python deploy_domain o ≡ some port
      → (v : Json) × (o ≡ some v) × (python.to_int v ≡ some port)
  port_source none port h = absurd (ground (arith, h))
  port_source (some v) port h = (v, refl, h)

module _ (python : Python) (deploy_domain : String) (command : Fields) where
  -- the alias that a command asks for
  abbrev pub target_row : ℕ → Revision → Alias
  target_row port revision = record {
    alias_id = str_of python deploy_domain "alias_id" command;
    hostname = python.lower (str_of python deploy_domain "hostname" command);
    revision_id = str_of python deploy_domain "current_revision_id" command;
    deployment_id = str_of python deploy_domain "current_deployment_id" command;
    container_name = revision.container_name;
    container_port = port;
  }

  -- what the checks of `apply` have found
  pub record Accepted (s : State) (port : ℕ) (revision : Revision) : Type 0 where
    pub complete : is_complete command ≡ true
    pub hostname_valid :
        is_hostname (python.lower (str_of python deploy_domain "hostname" command)) ≡ true
    pub in_domain :
        ends_with
          (python.lower (str_of python deploy_domain "hostname" command))
          ("." ⊕ deploy_domain)
        ≡ true
    pub port_given :
        (v : Json) × (get "container_port" command ≡ some v) × (python.to_int v ≡ some port)
    pub port_least : 1 ≤ port
    pub port_most : port ≤ 65535
    pub target_known :
        first
          (of_deployment (str_of python deploy_domain "current_deployment_id" command))
          s.revisions
        ≡ some revision
    pub target_current :
        is_same_text revision.revision_id (get "current_revision_id" command) ≡ true
    pub hostname_free : any (hostname_taken (target_row port revision)) s.aliases ≡ false

  -- the state with this alias in its table and in its file
  abbrev pub routed_state : State → Alias → State
  routed_state s row =
      let rows = upsert (has_alias row.alias_id) row s.aliases in
      record s { aliases = rows; routes = routes_file python deploy_domain (sorted_aliases rows) }

  -- A routing command that is accepted names a valid host under the deploy domain, a port of 16
  -- bits and the current revision of a deployment that runs here; the table then holds the alias
  -- with this host, this port and that revision's container, the file is written from the table,
  -- and the answer names the alias, its host and its revision.
  pub apply-Accepted :
      (s t : State) (answer : Fields)
      → apply python deploy_domain command s ≡ (ok answer, t)
      → (port : ℕ) × (revision : Revision) × Accepted s port revision
        × (t ≡ routed_state s (target_row port revision))
        × (answer
            ≡ field "alias_id" (text (target_row port revision).alias_id) (
                field "hostname"
                  (text (target_row port revision).hostname)
                  (field "revision_id" (text (target_row port revision).revision_id) end)))
  unfolding apply write_all aliases save_alias revision_for_deployment
  apply-Accepted s t answer h =
      let host = python.lower (str_of python deploy_domain "hostname" command) in
      let (complete, h₁) =
        guard-ok answer t (is_complete command) (invalid_route "routing command is incomplete") _ s
          h in
      let (valid, h₂) =
        guard-ok answer t (is_hostname host && ends_with host ("." ⊕ deploy_domain))
          (invalid_route "routing hostname is invalid") _ s h₁ in
      let (port, number, h₃) =
        require-ok answer t (port_value python deploy_domain (get "container_port" command))
          internal _ s h₂ in
      let (bounds, h₄) =
        guard-ok answer t (leb 1 port && leb port 65535) (invalid_route "routing port is invalid") _
          s h₃ in
      let (revision, known, h₅) =
        require-ok answer t
          (first (of_deployment (str_of python deploy_domain "current_deployment_id" command))
            s.revisions)
          (invalid_route "routing target is not ready locally") _ s h₄ in
      let (current, h₆) =
        guard-ok answer t (is_same_text revision.revision_id (get "current_revision_id" command))
          (invalid_route "routing target is not ready locally") _ s h₅ in
      let row = alias_row python deploy_domain command port revision in
      let (free, h₇) = saved-free row _ answer s t h₆ in
      (
        port,
        revision,
        record {
          complete = complete;
          hostname_valid = ground arith;
          in_domain = ground arith;
          port_given = port_source python deploy_domain (get "container_port" command) port number;
          port_least = ground arith;
          port_most = ground arith;
          target_known = known;
          target_current = current;
          hostname_free = free;
        },
        ground (arith, h₇),
        ground (arith, h₇),
      )

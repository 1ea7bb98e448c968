-- ===== src/Provider/Routes/Unique.antt =====
-- routing.py and state.py: no two aliases share an identity or a host, whatever is routed or removed.
use layerrail_deploy.Prelude.{
  String, ◌≡◌, refl, ◌==◌, eq_iff, Bool, true, false, ◌&&◌, not, Option, none, some, List, [], ◌∷◌,
  arith, any, upsert, UniqueBy, UniqueBy-upsert, UniqueBy-discard,
}
use layerrail_deploy.Effect.{guard, require, modify, ◌>>◌}
use layerrail_deploy.Effect.Keeps.{Keeps, Returns, Anything, plain_rules}
use layerrail_deploy.Json.{Fields}
use layerrail_deploy.Provider.State.{
  Trouble, integrity, Alias, State, has_alias, same_hostname, hostname_taken, save_alias,
  revision_for_deployment, serves,
}
use layerrail_deploy.Provider.State
use layerrail_deploy.Provider.Routes.{Python, aliases, write_all, apply, remove_deployment}

abbrev same_id : Alias → Alias → Bool
same_id a b = a.alias_id == b.alias_id

pub record IsRouted (rows : List Alias) : Type 0 where
  pub ids : UniqueBy same_id rows
  pub hosts : UniqueBy same_hostname rows

abbrev Routed : State → Type 0
Routed s = IsRouted s.aliases

any-weaken :
    {A : Type 0} (q r : A → Bool) (xs : List A)
    → ((x : A) → r x ≡ true → q x ≡ true)
    → any q xs ≡ false
    → any r xs ≡ false
any-weaken q r [] narrower h = refl
any-weaken q r (x ∷ xs) narrower h = ground (arith, narrower x, any-weaken q r xs narrower)

-- One row at most has a given identity.
ids-lone :
    (k : String) (rows : List Alias)
    → UniqueBy same_id rows
    → UniqueBy (λ x y. has_alias k x && has_alias k y) rows
ids-lone k [] h = tt
ids-lone k (a ∷ rows) (h, rest) = (
  any-weaken (same_id a) (λ y. has_alias k a && has_alias k y) rows
      (λ y. ground (arith, eq_iff a.alias_id k, eq_iff y.alias_id k, eq_iff a.alias_id y.alias_id))
      h,
  ids-lone k rows rest,
)

same_text : (a b : String) → (a == b) ≡ (b == a)
same_text a b = ground (arith, eq_iff a b, eq_iff b a)

never :
    (new : Alias) (rows : List Alias)
    → any (λ x. same_id new x && not (has_alias new.alias_id x)) rows ≡ false
never new [] = refl
never new (a ∷ rows) = ground (arith, same_text new.alias_id a.alias_id, never new rows)

save_alias-IsRouted :
    (new : Alias) (s : State)
    → Routed s
    → any (hostname_taken new) s.aliases ≡ false
    → IsRouted (upsert (has_alias new.alias_id) new s.aliases)
save_alias-IsRouted new s h free = record {
  ids =
      UniqueBy-upsert same_id (has_alias new.alias_id) new s.aliases (λ x. same_text _ _)
        (ids-lone new.alias_id s.aliases h.ids) (never new s.aliases) h.ids;
  hosts =
      UniqueBy-upsert same_hostname (has_alias new.alias_id) new s.aliases (λ x. same_text _ _)
        (ids-lone new.alias_id s.aliases h.ids) free h.hosts;
}

-- A statement whose constraint fails writes nothing.
guarded-Keeps :
    (taken : Bool) (write : State → State) (s : State)
    → Routed s
    → (taken ≡ false → Routed (write s))
    → Routed ((guard (not taken) integrity >> modify write) s).1
      × Returns Anything ((guard (not taken) integrity >> modify write) s).0
guarded-Keeps true write s h k = (h, tt)
guarded-Keeps false write s h k = (k refl, tt)

save_alias-Keeps : (new : Alias) → Keeps Routed Anything (save_alias new)
unfolding save_alias
save_alias-Keeps new = record {
  at = λ s h.
      guarded-Keeps (any (hostname_taken new) s.aliases)
        (λ v. record v { aliases = upsert (has_alias new.alias_id) new v.aliases }) s h
        (save_alias-IsRouted new s h);
}

revision_for_deployment-Keeps :
    (deployment_id : String) → Keeps Routed Anything (revision_for_deployment deployment_id)
unfolding revision_for_deployment
revision_for_deployment-Keeps deployment_id = record { at = λ s h. (h, tt) }

require-Keeps : {A : Type 0} (o : Option A) (e : Trouble) → Keeps Routed Anything (require o e)
require-Keeps none e = record { at = λ s h. (h, tt) }
require-Keeps (some a) e = record { at = λ s h. (h, tt) }

removal-Keeps :
    (deployment_id : String) → Keeps Routed Anything (State.remove_deployment deployment_id)
unfolding State.remove_deployment
removal-Keeps deployment_id = record {
  at = λ s h. (
    record {
      ids = UniqueBy-discard same_id (serves deployment_id) s.aliases h.ids;
      hosts = UniqueBy-discard same_hostname (serves deployment_id) s.aliases h.hosts;
    },
    tt,
  );
}

-- a call of `RouteWriter`
pub data Change : Type 0 where
  routed : Fields → Change
  removed : String → Change

module _ (python : Python) (deploy_domain : String) where
  write_all-Keeps : Keeps Routed Anything (write_all python deploy_domain)
  unfolding write_all aliases
  write_all-Keeps = record { at = λ s h. (h, tt) }

  apply-Keeps : (command : Fields) → Keeps Routed Anything (apply python deploy_domain command)
  unfolding apply
  apply-Keeps command =
      search
        (
          plain_rules, save_alias-Keeps, revision_for_deployment-Keeps, require-Keeps,
          write_all-Keeps,
        )
        depth 16

  remove_deployment-Keeps :
      (deployment_id : String)
      → Keeps Routed Anything (remove_deployment python deploy_domain deployment_id)
  unfolding remove_deployment
  remove_deployment-Keeps deployment_id =
      search (plain_rules, removal-Keeps, write_all-Keeps) depth 8

  unfoldable pub changed : Change → State → State
  changed (routed command) s = (apply python deploy_domain command s).1
  changed (removed deployment_id) s = (remove_deployment python deploy_domain deployment_id s).1

  unfoldable pub changes : List Change → State → State
  changes [] s = s
  changes (c ∷ rest) s = changes rest (changed c s)

  -- From a table in which no two aliases have the same identity or the same host, any commands
  -- that route and remove, accepted or not, lead to such a table.
  pub changes-IsRouted :
      (calls : List Change) (s : State) → IsRouted s.aliases → IsRouted (changes calls s).aliases
  unfolding changes changed
  changes-IsRouted [] s h = h
  changes-IsRouted (routed command ∷ rest) s h =
      changes-IsRouted rest _ ((apply-Keeps command).at s h).0
  changes-IsRouted (removed deployment_id ∷ rest) s h =
      changes-IsRouted rest _ ((remove_deployment-Keeps deployment_id).at s h).0

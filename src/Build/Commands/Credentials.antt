-- ===== src/Build/Commands/Credentials.antt =====
-- The registry credential of a dispatch is either held by the running build or revoked.
use layerrail_deploy.Prelude.{
  ℕ, suc, ◌-◌, min, String, ◌≡◌, refl, subst, ◌==◌, eq_refl, Bool, true, not, ◌||◌, Option, none,
  some, List, [], ◌∷◌, ◌++◌, arith, ltb, if◌then◌else◌, inl, inr, ◌⊎◌, Option-cases, Bool-cases,
}
use layerrail_deploy.Effect.{Result, ok, succeeded, Result-cases}
use layerrail_deploy.Build.Contracts.{Fault, BuildCommand}
use layerrail_deploy.Build.Store.{
  running, result_pending, completed, failed, Operation, Store, find, get_operation,
}
use layerrail_deploy.Build.Store.Methods
use layerrail_deploy.Build.Store.Methods.{transitioned}
use layerrail_deploy.Build.Store.Rows.{find-update, find-build_id}
use layerrail_deploy.Build.Store.Writes.{transitioned-KeepsKeys}
use layerrail_deploy.Build.World.{
  Call, registered, revoked, job_read, Services, Settings, World, ask, on_store, now,
}
use layerrail_deploy.Build.Commands.{start_job, start_or_revoke, dispatch_job, dispatch}

abbrev closed_by : String → Option String → Option String
closed_by id none = none
closed_by id (some j) = if j == id then none else some j

-- The credential that was registered last, unless it has been revoked since.
abbrev pub open_credential : List Call → Option String
open_credential [] = none
open_credential (registered id repository ∷ calls) = some id
open_credential (revoked id ∷ calls) = closed_by id (open_credential calls)
open_credential (c ∷ calls) = open_credential calls

-- The build's row is running and holds the credential.
pub record Holds (b id : String) (s : Store) : Type 0 where
  pub operation : Operation
  pub row : find b s.rows ≡ some operation
  pub status : operation.status ≡ running
  pub credential : operation.registry_credential_id ≡ some id

abbrev pub Accounted : String → Result Fault Unit × World → Type 0
Accounted b (r, w) =
    (open_credential w.calls ≡ none)
    ⊎ ((id : String) × (open_credential w.calls ≡ some id)
        × (succeeded r ≡ true)
        × Holds b id w.store)

set_running-Holds :
    (b id : String) (now : ℕ) (s t : Store) (o : Operation)
    → Methods.set_running b id now s ≡ (ok o, t)
    → Holds b id t
unfolding Methods.set_running
set_running-Holds b id now s t o h =
    let f = transitioned running (some id) now in
    record {
      operation = o;
      row = ground (
        arith,
        find-update f (transitioned-KeepsKeys running (some id) now) b b s.rows,
        eq_refl b,
      );
      status = ground (
        arith,
        find-update f (transitioned-KeepsKeys running (some id) now) b b s.rows,
        eq_refl b,
      );
      credential = ground (
        arith,
        find-update f (transitioned-KeepsKeys running (some id) now) b b s.rows,
        eq_refl b,
      );
    }

-- Between two steps of a dispatch no row is held, and no credential is open.
closed-Accounted :
    (b : String) (r : Result Fault Unit) (w : World)
    → open_credential w.calls ≡ none
    → Accounted b (r, w)
closed-Accounted b r w h = inl h

module _ (env : Services) (settings : Settings) (command : BuildCommand) where
  start_or_revoke-Accounted :
      (o : Operation) (id : String) (deadline : ℕ) (w : World)
      → open_credential w.calls ≡ some id
      → Accounted o.build_id (start_or_revoke env settings command o id deadline w)
  unfolding start_or_revoke start_job
  start_or_revoke-Accounted o id deadline w h = elim (Result-cases (env.job_dispatch w.step)) [
    | inr (e, raised) ↦ inl (ground (arith, raised, eq_refl id))
    | inl (done, started) ↦
        elim (Result-cases (Methods.set_running o.build_id id (env.time (suc w.step)) w.store).0) [
          | inr (e, refused) ↦ inl (ground (arith, started, refused, eq_refl id))
          | inl (p, accepted) ↦ inr (
            id,
            ground (arith, started, accepted),
            ground (arith, started, accepted),
            rw (started, accepted)
                (set_running-Holds o.build_id id (env.time (suc w.step)) w.store _ p
                  (ground (arith, accepted))),
          )
        ]
  ]

  dispatch_job-Accounted :
      (o : Operation) (w : World)
      → open_credential w.calls ≡ none
      → Accounted o.build_id (dispatch_job env settings command o w)
  unfolding dispatch_job
  dispatch_job-Accounted o w h = elim (Result-cases (env.credentials w.step)) [
    | inr (e, raised) ↦ rw raised (inl h)
    | inl (c, given) ↦ elim (Option-cases (env.timestamp c.expires_at)) [
      | inl bad ↦ rw (given, bad) (inl h)
      | inr (t, date) ↦
          let deadline = min settings.build_timeout_seconds (t - env.time (suc w.step) - 30) in
          elim (Bool-cases (ltb deadline 60)) [
            | inl short ↦ rw (given, date, short) (inl h)
            | inr long ↦ elim (Result-cases (env.register (suc (suc (suc w.step))))) [
              | inr (e, raised) ↦ rw (given, date, long, raised) (inl h)
              | inl (id, issued) ↦
                  rw (given, date, long, issued) (start_or_revoke-Accounted o id deadline _ refl)
            ]
          ]
    ]
  ]

  dispatch_same-Accounted :
      (o : Operation) (w : World)
      → o.build_id ≡ command.build_id
      → open_credential w.calls ≡ none
      → Accounted command.build_id (dispatch_job env settings command o w)
  dispatch_same-Accounted o w same h =
      subst (λ b. Accounted b (dispatch_job env settings command o w)) same
        (dispatch_job-Accounted o w h)

  -- a registered operation is the command's build
  register-build_id :
      (now : ℕ) (s : Store) (o : Operation) (fresh : Bool)
      → (Methods.register env.hash command now s).0 ≡ ok (o, fresh)
      → o.build_id ≡ command.build_id
  unfolding Methods.register Methods.register_found get_operation
  register-build_id now s o fresh h = elim (Option-cases (find command.build_id s.rows)) [
    | inl missing ↦ ground (
      arith,
      missing,
      find-build_id command.build_id
          (s.rows
            ++ Methods.new_operation (Methods.request_digest env.hash command) command now ∷ [])
          o,
    )
    | inr (p, found) ↦ ground (arith, found, find-build_id command.build_id s.rows p found)
  ]

  -- However a dispatch ends, with an exception of any service or of the store too, a credential
  -- that it has registered is either revoked, or the dispatch has returned and the build's row is
  -- running and holds it. (If revoking itself raises, it has at least been tried.)
  pub dispatch-Accounted :
      (w : World)
      → open_credential w.calls ≡ none
      → Accounted command.build_id (dispatch env settings command w)
  unfolding dispatch
  dispatch-Accounted w h =
      elim (Result-cases (Methods.register env.hash command (env.time w.step) w.store).0) [
        | inr (e, refused) ↦ rw refused (inl h)
        | inl ((o, fresh), known) ↦
            let seen =
              (on_store (Methods.register env.hash command (env.time w.step)) (now env w).1).1 in
            let same = register-build_id (env.time w.step) w.store o fresh known in
            elim (Bool-cases
              (Methods.status_in o.status (running ∷ result_pending ∷ completed ∷ failed ∷ []))) [
                | inr new ↦ rw (known, new) (dispatch_same-Accounted o seen same h)
                | inl old ↦ elim (Result-cases (env.job_status (suc w.step))) [
                  | inr (e, down) ↦ rw (known, old, down) (inl h)
                  | inl (state, read) ↦
                      elim (Bool-cases
                        (not (Methods.status_in o.status (running ∷ [])) || state.exists)) [
                          | inl there ↦ rw (known, old, read, there) (inl h)
                          | inr lost ↦
                              rw (known, old, read, lost)
                                (dispatch_same-Accounted o
                                  (ask (job_read o.job_name) env.job_status seen).1 same h)
                        ]
                ]
              ]
      ]

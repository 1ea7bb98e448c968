-- ===== src/Build/Store/Results.antt =====
-- How worker results are accepted: replays, conflicts, checkpoints and archives.
use layerrail_deploy.Prelude.{
  ℕ, String, ◌≡◌, refl, ◌==◌, eq_iff, eq_refl, Bool, true, false, none, some, List, [], ◌∷◌, inl,
  inr, arith, Option-cases, is_some,
}
use layerrail_deploy.Effect.{ok, err}
use layerrail_deploy.Json.{Fields, text, get}
use layerrail_deploy.Json.Laws.{get-put}
use layerrail_deploy.Build.Contracts.{conflict, Bytes, BuildCommand, WorkerResult, safe_value}
use layerrail_deploy.Build.Store.{
  Status, preparing, running, result_pending, completed, failed, canceling, canceled, Operation,
  Store, find, update, get_operation, archive_of, unlink,
}
use layerrail_deploy.Build.Store.Methods.{
  register, save_result, store_result, settle_result, stored_value, observe_completion, mark_status,
  register_found, new_operation, request_digest, runs, status_in, ends, same_digest,
  completion_observed, marked,
}
use layerrail_deploy.Build.Store.Rows.{IsKeyed, count_rows-found, find-update, find-append}
use layerrail_deploy.Build.Store.Writes.{
  written, result_saved-KeepsKeys, completion_observed-KeepsKeys, marked-KeepsKeys,
}

-- the digest that a first result leaves in its row
get-stored_value :
    (safe : Fields) (digest : String) (archived : Bool) (now : ℕ)
    → get "result_digest" (stored_value safe digest archived now) ≡ some (text digest)
unfolding stored_value
get-stored_value safe digest archived now = simp (get-put)

-- A first result is stored only in a running row, and is then what `get` returns.
store_result-stored :
    (r : WorkerResult) (digest : String) (now : ℕ) (s t : Store) (p o : Operation) (fresh : Bool)
    → IsKeyed s.rows
    → find r.build_id s.rows ≡ some p
    → store_result r digest now s ≡ (ok (o, fresh), t)
    → (p.status ≡ running) × (o ≡ written r digest now p) × (find r.build_id t.rows ≡ some o)
unfolding store_result
store_result-stored r digest now s t p o fresh keyed found h = ground (
  arith,
  count_rows-found r.build_id runs s.rows p,
  find-update (written r digest now) (result_saved-KeepsKeys _ now) r.build_id r.build_id s.rows,
  eq_refl r.build_id,
)

module _ (hash : Fields → String) where
  -- A command that was registered is answered by the same row, without a write, when it is
  -- delivered again.
  register_replay :
      (command : BuildCommand) (now later : ℕ) (s t : Store) (o : Operation) (fresh : Bool)
      → register hash command now s ≡ (ok (o, fresh), t)
      → register hash command later t ≡ (ok (o, false), t)
  unfolding register register_found get_operation new_operation
  register_replay command now later s t o fresh h = ground (
    arith,
    find-append command.build_id s.rows (new_operation (request_digest hash command) command now),
    eq_refl (request_digest hash command),
    eq_refl command.build_id,
  )

  -- Another command for a build that is registered, with another digest, is refused, and nothing is
  -- written.
  register_conflict :
      (command other : BuildCommand) (now later : ℕ) (s t : Store) (o : Operation) (fresh : Bool)
      → register hash command now s ≡ (ok (o, fresh), t)
      → other.build_id ≡ command.build_id
      → (request_digest hash command == request_digest hash other) ≡ false
      → register hash other later t
        ≡ (err (conflict "build command conflicts with existing state"), t)
  unfolding register register_found get_operation new_operation
  register_conflict command other now later s t o fresh h same differs = ground (
    arith,
    find-append command.build_id s.rows (new_operation (request_digest hash command) command now),
    eq_iff (request_digest hash command) o.request_digest,
    eq_iff o.request_digest (request_digest hash command),
    eq_refl command.build_id,
  )

  -- what an accepted result leaves behind
  pub record IsSettled (r : WorkerResult) (o : Operation) (t : Store) : Type 0 where
    pub row : find r.build_id t.rows ≡ some o
    pub operation : (o.operation_id == r.operation_id) ≡ true
    pub commit : (o.source_commit == r.source_commit) ≡ true
    pub status : status_in o.status (result_pending ∷ completed ∷ failed ∷ []) ≡ true
    pub digest : same_digest (get "result_digest" o.result) (hash (safe_value r)) ≡ true

  module _ (r : WorkerResult) (now : ℕ) (s t : Store) (o : Operation) (fresh : Bool)
      (keyed : IsKeyed s.rows) (accepted : save_result hash r now s ≡ (ok (o, fresh), t)) where
    save_result-IsSettled : (p : Operation) → find r.build_id s.rows ≡ some p → IsSettled r o t
    unfolding save_result settle_result get_operation
    save_result-IsSettled p found = ground (
      arith,
      found,
      store_result-stored r (hash (safe_value r)) now s t p o fresh,
      eq_refl (hash (safe_value r)),
      get-stored_value (safe_value r) (hash (safe_value r)) (is_some r.static_archive) now,
    )

    save_result-found : (p : Operation) × (find r.build_id s.rows ≡ some p)
    unfolding save_result get_operation
    save_result-found = elim (Option-cases (find r.build_id s.rows)) [
      | inl missing ↦ absurd (ground (arith, missing))
      | inr found ↦ found
    ]

    pub settled : IsSettled r o t
    settled = let (p, found) = save_result-found in save_result-IsSettled p found

    -- A result that was accepted is answered by the same row, without a write, when it is delivered
    -- again at any later time.
    save_result_replay : (later : ℕ) → save_result hash r later t ≡ (ok (o, false), t)
    unfolding save_result settle_result get_operation
    save_result_replay later =
        ground
          (arith, settled.row, settled.operation, settled.commit, settled.status, settled.digest)

-- When a build has ended by `mark`, its archive is gone.
archive_of-unlink :
    (b : String) (files : List (String × Bytes)) → archive_of b (unlink b files) ≡ none
unfolding archive_of unlink
archive_of-unlink b [] = refl
archive_of-unlink b ((c, body) ∷ files) = ground (arith, archive_of-unlink b files)

-- A build that `mark` ends has no archive left, and `get` returns it with the status and the
-- result that were given.
mark_status-ends :
    (b : String) (status : Status) (result : Fields) (now : ℕ) (s t : Store) (o : Operation)
    → ends status ≡ true
    → mark_status b status (some result) now s ≡ (ok o, t)
    → (archive_of b t.archives ≡ none)
      × (find b t.rows ≡ some o)
      × (o.status ≡ status)
      × (o.result ≡ result)
unfolding mark_status
mark_status-ends b status result now s t o ended h = ground (
  arith,
  archive_of-unlink b s.archives,
  find-update (marked status (some result) now) (marked-KeepsKeys status (some result) now) b b
      s.rows,
  eq_refl b,
)

-- The archive of a result that names the operation and the commit of its build, but arrives when
-- the build is preparing, canceling or canceled, is left on disk although the result is refused.
pub save_result_leaves_archive :
    (hash : Fields → String) (r : WorkerResult) (now : ℕ) (s : Store) (o : Operation) (body : Bytes)
    → IsKeyed s.rows
    → find r.build_id s.rows ≡ some o
    → (o.operation_id == r.operation_id) ≡ true
    → (o.source_commit == r.source_commit) ≡ true
    → status_in o.status (preparing ∷ canceling ∷ canceled ∷ []) ≡ true
    → r.static_archive ≡ some body
    → ((save_result hash r now s).0 ≡ err (conflict "worker result arrived in an invalid state"))
      × (archive_of r.build_id (save_result hash r now s).1.archives ≡ some body)
unfolding save_result archive_of
save_result_leaves_archive hash r now s o body keyed found operation commit late archived = ground (
  arith,
  found,
  archived,
  operation,
  commit,
  count_rows-found r.build_id runs s.rows o keyed found,
  eq_refl r.build_id,
)

-- The first observation of the completed job of a running build is kept: later ones do not move
-- its time.
observe_completion_first :
    (b : String) (now later : ℕ) (s : Store) (o : Operation)
    → find b s.rows ≡ some o
    → o.status ≡ running
    → (observe_completion b later (observe_completion b now s).1).0 ≡ (observe_completion b now s).0
unfolding observe_completion
observe_completion_first b now later s o found h =
    let once = completion_observed now in
    let again = completion_observed later in
    ground (
      arith,
      found,
      find-update once (completion_observed-KeepsKeys now) b b s.rows,
      find-update again (completion_observed-KeepsKeys later) b b (update b once s.rows),
      eq_refl b,
    )

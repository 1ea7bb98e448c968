-- ===== src/Build/Store/Methods.antt =====
-- The methods of `OperationStore`. Each runs in one transaction, whose writes stand after its last
-- check, so a raised exception rolls nothing back. `hash` stands for "sha256:" and the SHA-256 of
-- the canonical JSON of a value, and `now` for the clock, read once by each call.
use layerrail_deploy.Prelude.{
  ℕ, String, ◌==◌, Bool, true, false, not, ◌&&◌, ◌||◌, Option, none, some, List, [], ◌∷◌, ◌++◌,
  nat_eq, if◌then◌else◌, is_some,
}
use layerrail_deploy.Effect.{pure, raise, gets, modify, guard, ◌>>=◌, ◌>>◌}
use layerrail_deploy.Json.{Json, text, bool, num, Fields, end, get, put, union}
use layerrail_deploy.Build.Contracts.{
  conflict, value_error, integrity, Bytes, BuildCommand, job_name, secret_name, command_value,
  WorkerResult, safe_value,
}
use layerrail_deploy.Build.Store.{
  Status, preparing, running, result_pending, completed, failed, canceling, canceled, is_running,
  is_result_pending, parse_status, Operation, Action, find, update, count_rows, archive_of, unlink,
  set_rows, update_row, get_operation,
}

-- the row that `register` inserts
unfoldable pub new_operation : String → BuildCommand → ℕ → Operation
new_operation digest command now = record {
  event_id = command.event_id;
  operation_id = command.operation_id;
  organization_id = command.organization_id;
  deployment_id = command.deployment_id;
  build_id = command.build_id;
  revision_id = command.revision_id;
  service_id = command.service_id;
  expected_version = command.expected_version;
  workload_type = command.workload_type;
  repository = command.repository;
  source_commit = command.source_commit;
  source_root = command.source_root;
  descriptor_digest = command.descriptor_digest;
  correlation_id = command.correlation_id;
  request_digest = digest;
  status = preparing;
  job_name = job_name command;
  secret_name = secret_name command;
  registry_credential_id = none;
  completion_observed_at = none;
  result = end;
  created_at = now;
  updated_at = now;
}

-- Some row has this `operation_id`: the unique index refuses another one.
unfoldable pub has_operation_id : String → List Operation → Bool
has_operation_id i [] = false
has_operation_id i (o ∷ rows) = o.operation_id == i || has_operation_id i rows

-- INSERT under the primary key (`register` has looked for it) and the unique index
unfoldable pub insert : Operation → Action Unit
unfolding has_operation_id
insert o s =
    (do guard (not (has_operation_id o.operation_id s.rows)) integrity; set_rows (s.rows ++ o ∷ []))
      s

-- `register` once the row of the build has been looked up
unfoldable pub register_found :
    String → BuildCommand → ℕ → Option Operation → Action (Operation × Bool)
unfolding insert get_operation new_operation
register_found digest command now (some operation) = do
  guard (operation.request_digest == digest)
      (conflict "build command conflicts with existing state")
  pure (operation, false)
register_found digest command now none = do
  insert (new_operation digest command now)
  operation ← get_operation command.build_id
  pure (operation, true)

module _ (hash : Fields → String) where
  unfoldable pub request_digest : BuildCommand → String
  request_digest command = hash (command_value command)

  unfoldable pub register : BuildCommand → ℕ → Action (Operation × Bool)
  unfolding register_found request_digest find
  register command now s =
      register_found (request_digest command) command now (find command.build_id s.rows) s

-- `COALESCE(a, b)`
abbrev pub coalesce : {A : Type 0} → Option A → Option A → Option A
coalesce none b = b
coalesce (some a) b = some a

abbrev same_status : Status → Status → Bool
same_status preparing preparing = true
same_status running running = true
same_status result_pending result_pending = true
same_status completed completed = true
same_status failed failed = true
same_status canceling canceling = true
same_status canceled canceled = true
same_status _ _ = false

abbrev pub status_in : Status → List Status → Bool
status_in s [] = false
status_in s (t ∷ l) = same_status s t || status_in s l

-- the row that `_transition` writes
abbrev pub transitioned : Status → Option String → ℕ → Operation → Operation
transitioned status credential now o = record o {
  status = status;
  registry_credential_id = coalesce credential o.registry_credential_id;
  completion_observed_at = none;
  updated_at = now;
}

unfoldable pub transition : String → List Status → Status → Option String → ℕ → Action Operation
unfolding get_operation update
transition build_id from status credential now = do
  operation ← get_operation build_id
  guard (status_in operation.status from) (conflict "operation transition is invalid")
  update_row build_id (transitioned status credential now)
  get_operation build_id

unfoldable pub set_running : String → String → ℕ → Action Operation
unfolding transition
set_running build_id credential now =
    transition build_id (preparing ∷ running ∷ []) running (some credential) now

-- `save_result` writes this into a running row, and leaves any other one.
abbrev pub result_saved : Fields → ℕ → Operation → Operation
result_saved safe now o =
    if is_running o.status
    then record o { status = result_pending; result = safe; updated_at = now }
    else o

abbrev pub runs : Operation → Bool
runs o = is_running o.status

abbrev pub write_archive : String → Option Bytes → Action Unit
write_archive build_id none = pure tt
write_archive build_id (some body) =
    modify (λ s. record s { archives = (build_id, body) ∷ s.archives })

-- a stored `result_digest` that equals the one at hand
abbrev pub same_digest : Option Json → String → Bool
same_digest (some (text d)) digest = d == digest
same_digest _ digest = false

unfoldable pub stored_value : Fields → String → Bool → ℕ → Fields
unfolding put
stored_value safe digest archived now =
    put "result_received_at" (num now)
      (put "static_archive_present" (bool archived) (put "result_digest" (text digest) safe))

-- the write of a first result: the archive, then the row if it is running
unfoldable pub store_result : WorkerResult → String → ℕ → Action (Operation × Bool)
unfolding get_operation update count_rows
store_result result digest now = do
  write_archive result.build_id result.static_archive
  rowcount ← gets (λ s. count_rows result.build_id runs s.rows)
  update_row result.build_id (
      result_saved (stored_value (safe_value result) digest (is_some result.static_archive) now)
        now)
  guard (nat_eq rowcount 1) (conflict "worker result arrived in an invalid state")
  operation ← get_operation result.build_id
  pure (operation, true)

-- `save_result` once the result is known to answer the build command
unfoldable pub settle_result : Operation → WorkerResult → String → ℕ → Action (Operation × Bool)
unfolding store_result
settle_result operation result digest now =
    if status_in operation.status (result_pending ∷ completed ∷ failed ∷ [])
    then (do
      guard (same_digest (get "result_digest" operation.result) digest)
          (conflict "worker result conflicts with existing result")
      pure (operation, false))
    else store_result result digest now

module _ (hash : Fields → String) where
  unfoldable pub save_result : WorkerResult → ℕ → Action (Operation × Bool)
  unfolding get_operation settle_result
  save_result result now = do
    operation ← get_operation result.build_id
    guard
        (operation.operation_id == result.operation_id
          && operation.source_commit == result.source_commit)
        (conflict "worker result conflicts with build command")
    settle_result operation result (hash (safe_value result)) now

unfoldable pub load_archive : String → Action (Option Bytes)
unfolding archive_of
load_archive build_id = gets (λ s. archive_of build_id s.archives)

abbrev pub completion_observed : ℕ → Operation → Operation
completion_observed now o =
    if is_running o.status
    then record o { completion_observed_at = coalesce o.completion_observed_at (some now) }
    else o

unfoldable pub observe_completion : String → ℕ → Action Operation
unfolding get_operation update
observe_completion build_id now = do
  update_row build_id (completion_observed now)
  get_operation build_id

-- the UPDATE of `merge_result`, guarded by the status as in its WHERE
abbrev pub result_merged : Fields → Operation → Operation
result_merged result o = if is_result_pending o.status then record o { result = result } else o

unfoldable pub merge_result : String → Fields → Action Operation
unfolding get_operation update union
merge_result build_id values = do
  operation ← get_operation build_id
  guard (is_result_pending operation.status)
      (conflict "result checkpoint arrived in an invalid state")
  update_row build_id (result_merged (union operation.result values))
  get_operation build_id

abbrev pub ends : Status → Bool
ends s = status_in s (completed ∷ failed ∷ canceled ∷ [])

-- `existing.result if result is None else result`
abbrev pub marked : Status → Option Fields → ℕ → Operation → Operation
marked status none now o = record o { status = status; updated_at = now }
marked status (some result) now o = record o { status = status; result = result; updated_at = now }

unfoldable pub mark_status : String → Status → Option Fields → ℕ → Action Operation
unfolding get_operation update unlink
mark_status build_id status result now = do
  existing ← get_operation build_id
  update_row build_id (marked status result now)
  modify
      (λ s. record s { archives = if ends status then unlink build_id s.archives else s.archives })
  get_operation build_id

unfoldable pub mark : String → String → Option Fields → ℕ → Action Operation
unfolding mark_status parse_status
mark build_id status result now = elim (parse_status status) [
  | none ↦ raise (value_error "operation status is invalid")
  | some known ↦ mark_status build_id known result now
]

-- the WHERE of `pending`
unfoldable pub is_pending : Operation → Bool
is_pending o = status_in o.status (running ∷ result_pending ∷ canceling ∷ [])

-- ===== src/Build/Store.antt =====
-- services/build_controller/build_controller/store.py: the table of build operations and the
-- archives beside it. The methods and their laws are in the modules below.
pub mod Methods
pub mod Rows
pub mod Writes
pub mod History
pub mod Keys
pub mod Results
pub mod Settled
pub mod Pending
use layerrail_deploy.Prelude.{
  ℕ, suc, String, ◌==◌, Bool, true, false, ◌&&◌, ◌||◌, Option, none, some, List, [], ◌∷◌, any,
  nat_eq, ltb, if◌then◌else◌, is_some,
}
use layerrail_deploy.Effect.{Exec, pure, raise, gets, modify, guard, ◌>>=◌, ◌>>◌}
use layerrail_deploy.Json.{Json, text, bool, num, Fields, end, get, put, union}
use layerrail_deploy.Build.Contracts.{
  Fault, conflict, key_error, value_error, integrity, Bytes, BuildCommand, job_name, secret_name,
  command_value, WorkerResult, safe_value,
}

-- `OperationStore.STATUSES`
pub data Status : Type 0 where
  preparing running result_pending completed failed canceling canceled : Status

unfoldable pub parse_status : String → Option Status
parse_status s =
    if s == "preparing"
    then some preparing
    else if s == "running"
    then some running
    else if s == "result_pending"
    then some result_pending
    else if s == "completed"
    then some completed
    else if s == "failed"
    then some failed
    else if s == "canceling"
    then some canceling
    else if s == "canceled"
    then some canceled
    else none

abbrev pub is_running : Status → Bool
is_running running = true
is_running _ = false

abbrev pub is_result_pending : Status → Bool
is_result_pending result_pending = true
is_result_pending _ = false

pub record Operation : Type 0 where
  pub event_id : String
  pub operation_id : String
  pub organization_id : String
  pub deployment_id : String
  pub build_id : String
  pub revision_id : String
  pub service_id : String
  pub expected_version : ℕ
  pub workload_type : String
  pub repository : String
  pub source_commit : String
  pub source_root : String
  pub descriptor_digest : String
  pub correlation_id : String
  pub request_digest : String
  pub status : Status
  pub job_name : String
  pub secret_name : String
  pub registry_credential_id : Option String
  pub completion_observed_at : Option ℕ
  pub result : Fields
  pub created_at : ℕ
  pub updated_at : ℕ

-- `archives` is the directory of `<build_id>.tar` files, as a list whose first entry counts.
pub record Store : Type 0 where
  pub rows : List Operation
  pub archives : List (String × Bytes)

unfoldable pub empty : Store
empty = record { rows = []; archives = [] }

abbrev pub Action : Type 0 → Type 0
Action A = Exec Fault Store A

-- `SELECT * FROM operations WHERE build_id = ?`
unfoldable pub find : String → List Operation → Option Operation
find b [] = none
find b (o ∷ rows) = if o.build_id == b then some o else find b rows

-- `UPDATE operations SET … WHERE build_id = ?`
unfoldable pub update : String → (Operation → Operation) → List Operation → List Operation
update b f [] = []
update b f (o ∷ rows) = (if o.build_id == b then f o else o) ∷ update b f rows

-- `cursor.rowcount` of an UPDATE with a further condition `p`
unfoldable pub count_rows : String → (Operation → Bool) → List Operation → ℕ
count_rows b p [] = 0
count_rows b p (o ∷ rows) =
    let n = count_rows b p rows in if o.build_id == b && p o then suc n else n

unfoldable pub archive_of : String → List (String × Bytes) → Option Bytes
archive_of b [] = none
archive_of b ((c, body) ∷ files) = if c == b then some body else archive_of b files

-- `unlink(missing_ok=True)`
unfoldable pub unlink : String → List (String × Bytes) → List (String × Bytes)
unlink b [] = []
unlink b ((c, body) ∷ files) =
    let rest = unlink b files in if c == b then rest else (c, body) ∷ rest

abbrev pub or_raise : {A : Type 0} → Option A → Fault → Action A
or_raise none e = raise e
or_raise (some a) e = pure a

abbrev pub set_rows : List Operation → Action Unit
set_rows rows = modify (λ s. record s { rows = rows })

abbrev pub update_row : String → (Operation → Operation) → Action Unit
update_row b f = modify (λ s. record s { rows = update b f s.rows })

unfoldable pub get_operation : String → Action Operation
unfolding find
get_operation b s = or_raise (find b s.rows) (key_error b) s

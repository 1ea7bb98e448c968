-- ===== src/Provider/State.antt =====
-- state.py: `StateStore`, its four tables and its methods. `hash` stands for the SHA-256 of the
-- canonical JSON of a value, and `size` for the bytes of the canonical JSON of log entries.
use layerrail_deploy.Prelude.{
  ℕ, String, ◌==◌, Bool, true, not, ◌&&◌, ◌||◌, Option, none, some, List, [], ◌∷◌, ltb, length, any,
  first, upsert, change, discard,
}
use layerrail_deploy.Effect.{Exec, pure, gets, modify, guard, ◌>>◌}
use layerrail_deploy.Json.{Fields, end}

-- The exceptions that the provider tells apart. `integrity` is an `sqlite3.IntegrityError`, and
-- `internal` any other exception, which no handler catches.
pub data Trouble : Type 0 where
  event_conflict : String → Trouble
  value_error : String → Trouble
  integrity : Trouble
  invalid_route : String → Trouble
  permanent_error : String → Trouble
  transient_error : String → Trouble
  control_plane_unavailable : Trouble
  runtime_unavailable : Trouble
  runtime_conflict : Trouble
  readiness_failed : Trouble
  internal : Trouble

pub data ReceiptStatus : Type 0 where
  processing completed : ReceiptStatus

-- a row of `events`
pub record Receipt : Type 0 where
  pub event_id : String
  pub payload_digest : String
  pub status : ReceiptStatus
  pub result : Option Fields

-- a row of `revisions`
pub record Revision : Type 0 where
  pub revision_id : String
  pub deployment_id : String
  pub container_id : String
  pub container_name : String
  pub container_port : ℕ

-- a row of `aliases`
pub record Alias : Type 0 where
  pub alias_id : String
  pub hostname : String
  pub revision_id : String
  pub deployment_id : String
  pub container_name : String
  pub container_port : ℕ

pub record LogEntry : Type 0 where
  pub timestamp : String
  pub stream : String
  pub message : String

-- a row of `runtime_logs`
pub record LogSnapshot : Type 0 where
  pub deployment_id : String
  pub organization_id : String
  pub entries : List LogEntry
  pub truncated : Bool

-- The tables, and the file that routing.py writes from them.
pub record State : Type 0 where
  pub events : List Receipt
  pub revisions : List Revision
  pub aliases : List Alias
  pub logs : List LogSnapshot
  pub routes : Fields

abbrev pub blank : State
blank = record { events = []; revisions = []; aliases = []; logs = []; routes = end }

abbrev pub Method : Type 0 → Type 0
Method A = Exec Trouble State A

abbrev pub has_event : String → Receipt → Bool
has_event event_id row = row.event_id == event_id

-- `receive` once the receipt has been looked up
unfoldable pub receive_row :
    String → String → Option Receipt → Method (ReceiptStatus × Option Fields)
receive_row event_id digest (some row) = do
  guard (row.payload_digest == digest) (event_conflict "event payload conflicts with its receipt")
  pure (row.status, row.result)
receive_row event_id digest none = do
  modify (λ s. record s {
    events =
        record { event_id = event_id; payload_digest = digest; status = processing; result = none }
        ∷ s.events;
  })
  pure (processing, none)

unfoldable pub receive :
    (Fields → String) → String → Fields → Method (ReceiptStatus × Option Fields)
unfolding receive_row
receive hash event_id envelope s =
    receive_row event_id (hash envelope) (first (has_event event_id) s.events) s

abbrev pub completed_with : Fields → Receipt → Receipt
completed_with result row = record row { status = completed; result = some result }

unfoldable pub complete : String → Fields → Method Unit
complete event_id result =
    modify (λ s. record s { events = change (has_event event_id) (completed_with result) s.events })

abbrev pub of_deployment : String → Revision → Bool
of_deployment deployment_id row = row.deployment_id == deployment_id

-- A row of another deployment that has this `revision_id`, the primary key: the statement fails.
abbrev pub revision_taken : Revision → Revision → Bool
revision_taken new row =
    row.revision_id == new.revision_id && not (row.deployment_id == new.deployment_id)

unfoldable pub save_revision : Revision → Method Unit
save_revision new s =
    (do
      guard (not (any (revision_taken new) s.revisions)) integrity
      modify
          (λ t. record t { revisions = upsert (of_deployment new.deployment_id) new t.revisions }))
      s

unfoldable pub revision_for_deployment : String → Method (Option Revision)
revision_for_deployment deployment_id = gets (λ s. first (of_deployment deployment_id) s.revisions)

abbrev pub has_alias : String → Alias → Bool
has_alias alias_id row = row.alias_id == alias_id

abbrev pub same_hostname : Alias → Alias → Bool
same_hostname a b = a.hostname == b.hostname

-- Another alias that has this hostname, a unique column: the statement fails.
abbrev pub hostname_taken : Alias → Alias → Bool
hostname_taken new row = same_hostname new row && not (has_alias new.alias_id row)

unfoldable pub save_alias : Alias → Method Unit
save_alias new s =
    (do
      guard (not (any (hostname_taken new) s.aliases)) integrity
      modify (λ t. record t { aliases = upsert (has_alias new.alias_id) new t.aliases }))
      s

abbrev pub logs_of : String → LogSnapshot → Bool
logs_of deployment_id row = row.deployment_id == deployment_id

-- `existing and existing["organization_id"] != organization_id`
abbrev pub tenant_fits : String → Option LogSnapshot → Bool
tenant_fits organization_id none = true
tenant_fits organization_id (some row) = row.organization_id == organization_id

unfoldable pub save_runtime_logs : (List LogEntry → ℕ) → LogSnapshot → Method Unit
save_runtime_logs size new s =
    (do
      guard (not (ltb 200 (length new.entries) || ltb 1048576 (size new.entries)))
          (value_error "runtime log snapshot is too large")
      guard (tenant_fits new.organization_id (first (logs_of new.deployment_id) s.logs))
          (event_conflict "runtime log tenant identity conflicts")
      modify (λ t. record t { logs = upsert (logs_of new.deployment_id) new t.logs }))
      s

abbrev pub logs_for : String → String → LogSnapshot → Bool
logs_for deployment_id organization_id row =
    row.deployment_id == deployment_id && row.organization_id == organization_id

unfoldable pub runtime_logs : String → String → Method (Option LogSnapshot)
runtime_logs deployment_id organization_id =
    gets (λ s. first (logs_for deployment_id organization_id) s.logs)

abbrev pub serves : String → Alias → Bool
serves deployment_id row = row.deployment_id == deployment_id

unfoldable pub remove_deployment : String → Method Unit
remove_deployment deployment_id = modify (λ s. record s {
  aliases = discard (serves deployment_id) s.aliases;
  revisions = discard (of_deployment deployment_id) s.revisions;
})

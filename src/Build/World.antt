-- ===== src/Build/World.antt =====
-- The services that the build controller calls (clients.py, kubernetes.py, scanner.py,
-- provenance.py) as its environment: each call gets whatever answer or exception the environment
-- has for the step at which it is made, and is recorded in a trace.
use layerrail_deploy.Prelude.{ℕ, suc, String, Bool, Option, none, some, List, ◌∷◌}
use layerrail_deploy.Effect.{Result, ok, err, Exec, pure, raise}
use layerrail_deploy.Json.{Json, Fields}
use layerrail_deploy.Build.Contracts.{Fault, internal, Bytes, BuildCommand, CancelCommand, Failure}
use layerrail_deploy.Build.Store.{Store}
use layerrail_deploy.Build.Store

-- kubernetes.py, `JobState`
pub record JobState : Type 0 where
  pub exists : Bool
  pub active : Bool
  pub complete : Bool
  pub failed : Bool
  pub reason : Option String

-- scanner.py, `ScanResult`
pub record ScanResult : Type 0 where
  pub sbom : Fields
  pub report : Fields
  pub summary : Fields
  pub passed : Bool

-- contracts.py, `CloneCredentials`: the controller reads only the expiry, and passes the rest on.
pub record CloneCredentials : Type 0 where
  pub expires_at : String

-- The payload of `send_build_event`.
pub record Event : Type 0 where
  pub status : String
  pub evidence : Fields
  pub artifact_digest : Option String
  pub failure : Option Failure

-- The command of a lease, by its `event_type` and after `parse`.
pub data Command : Type 0 where
  build_requested : Result Fault BuildCommand → Command
  cancellation_requested : Result Fault CancelCommand → Command
  unsupported : Command

pub record Lease : Type 0 where
  pub event_id : String
  pub command : Command
  pub claim_token : String

-- What the controller has asked for. A registration is recorded with the credential that it
-- returned; a call that raised is recorded too, but for a registration.
pub data Call : Type 0 where
  claimed : Call
  finalized : (event_id outcome : String) → Option String → Call
  job_read : String → Call
  job_logs_read : String → Call
  job_dispatched : (build_id : String) → (deadline : ℕ) → Call
  job_deleted : (job_name secret_name : String) → Call
  clone_requested : String → Call
  registered : (credential_id repository : String) → Call
  revoked : String → Call
  event_sent : (build_id : String) → Event → Call
  cancellation_sent : String → Call
  evidence_put : (build_id name : String) → Call
  static_put : String → Call
  image_scanned : String → Call
  archive_scanned : Bytes → Call
  signed : String → Call

-- The environment. A function of ℕ answers the call that is made at that step.
pub record Services : Type 0 where
  pub time : ℕ → ℕ
  pub claim : ℕ → Result Fault (Option Lease)
  pub finalize : ℕ → Result Fault Unit
  pub job_status : ℕ → Result Fault JobState
  pub job_logs : ℕ → Result Fault (List String)
  pub job_dispatch : ℕ → Result Fault Bool
  pub job_delete : ℕ → Result Fault Unit
  pub credentials : ℕ → Result Fault CloneCredentials
  pub register : ℕ → Result Fault String
  pub revoke : ℕ → Result Fault Unit
  pub send_event : ℕ → Result Fault Unit
  pub post_cancellation : ℕ → Result Fault Unit
  pub put_evidence : ℕ → Result Fault Fields
  pub put_static : ℕ → Result Fault Fields
  pub scan : ℕ → Result Fault ScanResult
  pub sign : ℕ → Result Fault Fields
  -- "sha256:" and the SHA-256 of the canonical JSON of a value
  pub hash : Fields → String
  -- `datetime.fromisoformat(…).timestamp()` in whole seconds, if the text is a date
  pub timestamp : String → Option ℕ
  -- redaction.py, `redact`
  pub redact : String → String
  -- `str(value)` of a JSON value that is no text
  pub show : Json → String
  -- the current time as the first part of a log line
  pub log_stamp : ℕ → String

-- config.py, the settings that the controller reads
pub record Settings : Type 0 where
  pub build_timeout_seconds : ℕ
  pub result_grace_seconds : ℕ
  pub registry_endpoint : String

pub record World : Type 0 where
  pub store : Store
  pub step : ℕ
  pub calls : List Call

abbrev pub Ctl : Type 0 → Type 0
Ctl A = Exec Fault World A

module _ {A : Type 0} where
  -- a call that is recorded whatever it returns
  abbrev pub ask : Call → (ℕ → Result Fault A) → Ctl A
  ask call answer w = (answer w.step, record w { step = suc w.step; calls = call ∷ w.calls })

  -- a method of the store
  abbrev pub on_store : Store.Action A → Ctl A
  on_store m w = ((m w.store).0, record w { store = (m w.store).1 })

  abbrev pub or_fault : Option A → Fault → Ctl A
  or_fault none e = raise e
  or_fault (some a) e = pure a

abbrev recorded : Result Fault String → String → World → Result Fault String × World
recorded (ok id) repository w = (ok id, record w { calls = registered id repository ∷ w.calls })
recorded (err e) repository w = (err e, w)

module _ (env : Services) where
  abbrev pub now : Ctl ℕ
  now w = (ok (env.time w.step), record w { step = suc w.step })

  -- `RegistryAuthClient.register`
  abbrev pub register_credential : String → Ctl String
  register_credential repository w =
      recorded (env.register w.step) repository (record w { step = suc w.step })

  abbrev pub revoke_credential : String → Ctl Unit
  revoke_credential id = ask (revoked id) env.revoke

  -- `ControlPlaneClient.complete_cancellation`. Its parameter `evidence` is keyword-only and has no
  -- default: a call without it raises a `TypeError` before anything is sent.
  abbrev pub complete_cancellation : String → Option Fields → Ctl Unit
  complete_cancellation build_id none = raise internal
  complete_cancellation build_id (some evidence) =
      ask (cancellation_sent build_id) env.post_cancellation

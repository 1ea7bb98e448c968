-- ===== src/Provider/Local.antt =====
-- The local provider's surroundings (runtime.py and control_plane.py) as an environment: each call
-- gets the answer or the exception that the environment has for its step, and is recorded.
use layerrail_deploy.Prelude.{ℕ, suc, String, Bool, Option, none, some, List, ◌∷◌}
use layerrail_deploy.Effect.{Result, ok, Exec, raise, pure}
use layerrail_deploy.Json.{Json, Fields, get}
use layerrail_deploy.Provider.State.{Trouble, internal, LogEntry, State, Method}
use layerrail_deploy.Provider.Routes.{Python}

-- runtime.py, `RuntimeInstance`
pub record RuntimeInstance : Type 0 where
  pub container_id : String
  pub container_name : String
  pub container_port : ℕ

-- contracts.py, an `Envelope` that `parse` has accepted: its value, and what is read from it.
pub record Envelope : Type 0 where
  pub value : Fields
  pub event_id : String
  pub event_type : String
  pub organization_id : String
  pub resource_id : String
  pub correlation_id : String
  pub payload : Fields

pub data Act : Type 0 where
  ensured : String → Act
  container_removed : String → Act
  logs_read : String → Act
  called_back : Fields → Act

pub record Outside : Type 0 where
  pub python : Python
  pub ensure : ℕ → Result Trouble RuntimeInstance
  pub remove : ℕ → Result Trouble Unit
  pub logs : ℕ → Result Trouble (List String)
  pub callback : ℕ → Result Trouble Fields
  -- `_now()`
  pub clock : ℕ → String
  -- `DockerRuntime.resource_profile`
  pub resource_profile : Fields
  -- the SHA-256 of the canonical JSON of a value, and the bytes of that of log entries
  pub hash : Fields → String
  pub size : List LogEntry → ℕ
  -- `str(uuid5(NAMESPACE_URL, name))`
  pub uuid5 : String → String
  pub is_timestamp : String → Bool
  pub redact : String → String
  -- the arguments of the constructors
  pub allowed_image_reference : String
  pub deploy_domain : String

pub record Local : Type 0 where
  pub state : State
  pub step : ℕ
  pub acts : List Act

abbrev pub Job : Type 0 → Type 0
Job A = Exec Trouble Local A

module _ {A : Type 0} where
  abbrev pub act : Act → (ℕ → Result Trouble A) → Job A
  act a answer w = (answer w.step, record w { step = suc w.step; acts = a ∷ w.acts })

  abbrev pub on_state : Method A → Job A
  on_state m w = ((m w.state).0, record w { state = (m w.state).1 })

abbrev pub stamp : Outside → Job String
stamp outside w = (ok (outside.clock w.step), record w { step = suc w.step })

-- `d[key]`
abbrev pub found_or_raise : Option Json → Job Json
found_or_raise none = raise internal
found_or_raise (some v) = pure v

abbrev pub item : String → Fields → Job Json
item key d = found_or_raise (get key d)

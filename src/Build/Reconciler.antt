-- ===== src/Build/Reconciler.antt =====
-- controller.py: the reconciler, which observes jobs, processes results and ends builds.
pub mod Processing
pub mod Results
pub mod Reports
pub mod Scans
pub mod Jobs
use layerrail_deploy.Prelude.{
  ℕ, suc, ◌+◌, ◌-◌, String, ◌⊕◌, ◌==◌, Bool, true, false, not, ◌&&◌, ◌||◌, Option, none, some, List,
  [], ◌∷◌, leb, if◌then◌else◌, is_some, first_chars, last_n, text_is,
}
use layerrail_deploy.Effect.{
  Result, ok, err, pure, raise, lift, guard, and_then, handle, ◌>>=◌, ◌>>◌, try_except,
}
use layerrail_deploy.Json.{
  Json, null, bool, num, text, array, object, Items, nil, cons, Fields, end, field, get, put, union,
  remove,
}
use layerrail_deploy.Build.Contracts.{
  Fault, conflict, key_error, internal, Bytes, Failure, failure_value, text_items,
}
use layerrail_deploy.Build.Store.{Status, running, result_pending, canceling, Operation}
use layerrail_deploy.Build.Store.Methods
use layerrail_deploy.Build.Store.Methods.{status_in}
use layerrail_deploy.Build.Store.Pending.{pending}
use layerrail_deploy.Build.World.{
  JobState, ScanResult, Event, Call, job_read, job_logs_read, job_deleted, event_sent, evidence_put,
  static_put, image_scanned, archive_scanned, signed, Services, Settings, World, Ctl, ask, on_store,
  now, register_credential, revoke_credential,
}
use layerrail_deploy.Build.Commands.{revoke_optional}

-- `[redact(value) for value in values[-limit:] if value]`
abbrev pub redact_all : (String → String) → List String → List String
redact_all redact [] = []
redact_all redact (s ∷ l) = if s == "" then redact_all redact l else redact s ∷ redact_all redact l

abbrev pub redact_lines : (String → String) → List String → ℕ → List String
redact_lines redact values limit = redact_all redact (last_n limit values)

-- `result.get(key) or {}` for a key that holds an object
abbrev pub object_or_empty : Option Json → Fields
object_or_empty (some (object d)) = d
object_or_empty _ = end

-- `value if isinstance(value, dict) else None`
abbrev pub as_object : Option Json → Option Fields
as_object (some (object d)) = some d
as_object _ = none

-- `result.get("log_lines") or []`
abbrev pub item_texts : Items → List String
item_texts nil = []
item_texts (cons (text s) l) = s ∷ item_texts l
item_texts (cons v l) = item_texts l

abbrev pub lines_of : Option Json → List String
lines_of (some (array l)) = item_texts l
lines_of _ = []

-- `result.get("status") == "failed"`
abbrev pub is_text : Option Json → String → Bool
is_text (some (text s)) t = s == t
is_text _ t = false

module _ (env : Services) (settings : Settings) where
  abbrev pub str : Json → String
  str (text s) = s
  str v = env.show v

  -- `str(d[key])`
  abbrev pub required : String → Option Json → Ctl String
  required key none = raise (key_error key)
  required key (some v) = pure (str v)

  -- `str(failure.get(key, default))[:n]`
  abbrev pub clipped : ℕ → String → Option Json → String
  clipped n default none = first_chars n default
  clipped n default (some v) = first_chars n (str v)

  unfoldable pub cleanup : Operation → Ctl Unit
  cleanup operation = do
    ask (job_deleted operation.job_name operation.secret_name) env.job_delete
    revoke_optional env settings operation.registry_credential_id

  abbrev pub upload : Operation → String → Ctl Fields
  upload operation name = ask (evidence_put operation.build_id name) env.put_evidence

  abbrev pub send_build_event : Operation → Event → Ctl Unit
  send_build_event operation event = ask (event_sent operation.build_id event) env.send_event

  -- the last steps of every build that ends: `_cleanup`, then `store.mark`
  unfoldable pub end_build : Operation → String → Fields → Ctl Unit
  end_build operation status result = do
    cleanup operation
    stamp ← now env
    on_store (Methods.mark operation.build_id status (some result) stamp)
    pure tt

  abbrev pub or_message : List String → String → List String
  or_message [] line = line ∷ []
  or_message (s ∷ l) line = s ∷ l

  unfoldable pub fail_without_result : Operation → Failure → List String → Ctl Unit
  fail_without_result operation failure logs = do
    stamp ← now env
    let line = env.log_stamp stamp ⊕ " " ⊕ failure.message
    let safe_logs = or_message (redact_lines env.redact logs 200) line
    log_ref ← upload operation "build.log"
    send_build_event operation (record {
      status = "failed";
      evidence =
          field "logs_ref" (object log_ref)
            (field "log_tail" (array (text_items (last_n 50 safe_logs))) end);
      artifact_digest = none;
      failure = some failure;
    })
    end_build operation "failed" (
        field "status" (text "failed") (
          field "failure" (object (failure_value failure)) (
            field "log_lines" (array (text_items safe_logs))
              (field "log_ref" (object log_ref) end))))

  abbrev pub failure_of : String → String → String → Failure
  failure_of phase code message = record { phase = phase; code = code; message = message }

  -- `observed.completion_observed_at is None or current - … <= grace`
  abbrev pub within_grace : Option ℕ → ℕ → Bool
  within_grace none current = true
  within_grace (some t) current = leb (current - t) settings.result_grace_seconds

  -- the branch of `_observe_job` for a complete job
  unfoldable pub observe_complete : Operation → Ctl Unit
  observe_complete operation = do
    current ← now env
    observed ← on_store (Methods.observe_completion operation.build_id current)
    if not (status_in observed.status (running ∷ []))
          || within_grace observed.completion_observed_at current
        then pure tt
        else fail_without_result observed
            (failure_of "callback" "result_missing"
              "Build sandbox completed without a signed result")
            []

  unfoldable pub observe_state : Operation → JobState → Ctl Unit
  observe_state operation state =
      if not state.exists
      then (do
        current ← now env
        if leb (current - operation.updated_at) settings.result_grace_seconds
            then pure tt
            else fail_without_result operation
                (failure_of "sandbox" "worker_lost"
                  "Build sandbox was lost before producing a result")
                [])
      else if state.failed
      then (do
        logs ← ask (job_logs_read operation.job_name) env.job_logs
        fail_without_result operation
            (failure_of "sandbox"
              (if text_is state.reason "DeadlineExceeded" then "build_timeout" else "worker_failed")
              "Build sandbox did not complete successfully")
            logs)
      else if state.complete
      then observe_complete operation
      else pure tt

  unfoldable pub observe_job : Operation → Ctl Unit
  observe_job operation = do
    state ← ask (job_read operation.job_name) env.job_status
    observe_state operation state

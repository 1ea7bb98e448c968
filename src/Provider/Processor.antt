-- ===== src/Provider/Processor.antt =====
-- processor.py: `Processor`, which acts on one event of the control plane.
pub mod Keeping
pub mod Replay
pub mod Allowed
use Prim.Native.Char.{Char, code}
use Prim.Native.String
use layerrail_deploy.Prelude.{
  ℕ, String, ◌⊕◌, ◌==◌, Bool, true, false, not, ◌&&◌, ◌||◌, Option, none, some, List, [], ◌∷◌, leb,
  nat_eq, if◌then◌else◌, starts_with, chars, drop_chars, text_is,
}
use layerrail_deploy.Effect.{
  Result, ok, err, Exec, pure, raise, lift, guard, gets, handle, and_then, ◌>>=◌, ◌>>◌, try_except,
}
use layerrail_deploy.Json.{
  Json, null, bool, num, text, array, nil, object, Fields, end, field, get, union,
}
use layerrail_deploy.Provider.State.{
  Trouble, event_conflict, invalid_route, permanent_error, transient_error,
  control_plane_unavailable, runtime_unavailable, runtime_conflict, readiness_failed, internal,
  ReceiptStatus, processing, completed, LogSnapshot, State, receive, complete, save_revision,
  save_runtime_logs,
}
use layerrail_deploy.Provider.Routes.{Python, str, apply, remove_deployment}
use layerrail_deploy.Provider.Logs.{format}
use layerrail_deploy.Provider.Checks.{
  all_hex, is_digest, holds_text, holds_false, Refusal, refuse, source_of, screened, digest_of,
  path_of, readiness_path, inner_item, is_falsy, is_readiness, is_conflict, is_unavailable,
  alias_trouble, transient_of, permanent_of,
}
use layerrail_deploy.Provider.Local.{
  RuntimeInstance, Envelope, Act, ensured, container_removed, logs_read, called_back, Outside,
  Local, Job, act, on_state, stamp, found_or_raise, item,
}

module _ (outside : Outside) where
  abbrev pub str_item : String → Fields → Job String
  str_item key d = do v ← item key d; pure (str outside.python outside.deploy_domain v)

  -- `_callback_envelope` of the event type "deployment.runtime.<suffix>.v1"
  unfoldable pub callback_envelope : Envelope → String → Fields → Job Fields
  callback_envelope envelope suffix payload = do
    now ← stamp outside
    pure (
        field "event_id"
          (text
            (outside.uuid5 ("https://events.layerrail.local/" ⊕ envelope.event_id ⊕ "/" ⊕ suffix)))
          (field "event_type" (text ("deployment.runtime." ⊕ suffix ⊕ ".v1")) (
            field "occurred_at" (text now) (
              field "organization_id" (text envelope.organization_id) (
                field "resource_id" (text envelope.resource_id) (
                  field "correlation_id" (text envelope.correlation_id) (
                    field "idempotency_key"
                      (text ("local-provider:" ⊕ envelope.event_id ⊕ ":" ⊕ suffix))
                      (field "producer" (text "local-provider")
                        (field "schema_version" (num 1) (field "data" (object payload) end))))))))))

  abbrev pub send : Fields → Job Fields
  send callback = act (called_back callback) outside.callback

  -- `_fail`
  unfoldable pub fail : Envelope → Refusal → Job Fields
  fail envelope refusal = do
    deployment ← item "deployment_id" envelope.payload
    version ← item "expected_version" envelope.payload
    callback ← callback_envelope envelope "failed" (
        field "deployment_id" deployment (
          field "operation_id" (text envelope.event_id) (
            field "expected_version" version (
              field "phase" (text "runtime") (
                field "code" (text refusal.code) (
                  field "message" (text refusal.message) (
                    field "diagnostic_reference" (text ("local-provider:" ⊕ envelope.event_id))
                      end)))))))
    send callback
    pure (
        field "kind" (text "deployment_failed") (
          field "deployment_id" (text (str outside.python outside.deploy_domain deployment))
            (field "code" (text refusal.code) (field "callback" (object callback) end))))

  abbrev pub runtime_failed : Refusal
  runtime_failed = record {
    code = "runtime_failed";
    message = "Local runtime could not start the deployment";
  }

  -- `_deployment` once the container is ready
  unfoldable pub announce : Envelope → String → RuntimeInstance → Job Fields
  announce envelope digest instance = do
    deployment ← item "deployment_id" envelope.payload
    version ← item "expected_version" envelope.payload
    checked ← stamp outside
    callback ← callback_envelope envelope "ready" (
        field "deployment_id" deployment (
          field "operation_id" (text envelope.event_id) (
            field "expected_version" version (
              field "artifact_digest" (text digest) (
                field "region" (text "local") (
                  field "cell" (text "docker-desktop") (
                    field "readiness"
                      (object (
                        field "status" (text "passed") (
                          field "checked_at" (text checked)
                            (field "resources" (object outside.resource_profile) end))))
                      end)))))))
    response ← send callback
    revision ← item "result" response
    revision_id ← found_or_raise (inner_item "revision_id" (some revision))
    guard (not (is_falsy revision_id)) (permanent_error "Ready callback did not create a Revision")
    let id = str outside.python outside.deploy_domain revision_id
    let name = str outside.python outside.deploy_domain deployment
    on_state (
        save_revision (record {
          revision_id = id;
          deployment_id = name;
          container_id = instance.container_id;
          container_name = instance.container_name;
          container_port = instance.container_port;
        }))
    pure (
        field "kind" (text "deployment_ready") (
          field "deployment_id" (text name) (
            field "revision_id" (text id) (
              field "container_id" (text instance.container_id) (
                field "container_name" (text instance.container_name)
                  (field "callback" (object callback) end))))))

  -- what `ensure` has returned or raised, and the two exceptions that are handled
  abbrev pub settle : Envelope → String → String → Result Trouble RuntimeInstance → Job Fields
  settle envelope name digest (ok instance) = announce envelope digest instance
  settle envelope name digest (err e) =
      if is_readiness e
      then (do act (container_removed name) outside.remove; fail envelope runtime_failed)
      else if is_conflict e
      then fail envelope runtime_failed
      else raise e

  abbrev pub attempt : {A : Type 0} → Job A → Job (Result Trouble A)
  attempt m w = (ok (m w).0, (m w).1)

  -- `_deployment` of a source that is accepted
  unfoldable pub start : Envelope → Fields → Job Fields
  start envelope source = do
    digest ← lift (digest_of (get "digest" source))
    path ← lift (readiness_path (get "runtime_policy" envelope.payload))
    name ← str_item "deployment_id" envelope.payload
    hostname ← str_item "immutable_hostname" envelope.payload
    answer ← attempt (act (ensured name) outside.ensure)
    settle envelope name digest answer

  abbrev pub start_or_fail : Envelope → Result Refusal Fields → Job Fields
  start_or_fail envelope (ok source) = start envelope source
  start_or_fail envelope (err refusal) = fail envelope refusal

  unfoldable pub deployment : Envelope → Job Fields
  deployment envelope = start_or_fail envelope (
      screened outside.allowed_image_reference envelope.payload
        (source_of (get "source" envelope.payload)))

  abbrev pub ignore_runtime : Trouble → Job Unit
  ignore_runtime e = if is_conflict e || is_unavailable e then pure tt else raise e

  -- the `try` of `_cancellation`
  unfoldable pub keep_logs : Envelope → String → Job Unit
  keep_logs envelope name = do
    lines ← act (logs_read name) outside.logs
    let formatted = format outside.is_timestamp outside.redact lines
    on_state (
        save_runtime_logs outside.size (record {
          deployment_id = name;
          organization_id = envelope.organization_id;
          entries = formatted.0;
          truncated = formatted.1;
        }))

  -- `str(data.get("deployment_id", ""))`
  abbrev pub str_or_empty : Option Json → String
  str_or_empty none = ""
  str_or_empty (some v) = str outside.python outside.deploy_domain v

  unfoldable pub cancellation : Envelope → Job Fields
  cancellation envelope = do
    let name = str_or_empty (get "deployment_id" envelope.payload)
    guard (not (name == "")) (permanent_error "Cancellation command is incomplete")
    try_except (keep_logs envelope name) ignore_runtime
    act (container_removed name) outside.remove
    on_state (remove_deployment outside.python outside.deploy_domain name)
    version ← item "expected_version" envelope.payload
    callback ← callback_envelope envelope "canceled" (
        field "deployment_id" (text name)
          (field "operation_id" (text envelope.event_id) (field "expected_version" version end)))
    send callback
    pure (
        field "kind" (text "deployment_canceled")
          (field "deployment_id" (text name) (field "callback" (object callback) end)))

  unfoldable pub alias : Envelope → Job Fields
  alias envelope = do
    result ←
        try_except (on_state (apply outside.python outside.deploy_domain envelope.payload))
          (λ e. raise (alias_trouble e))
    pure (union (field "kind" (text "alias_routed") end) result)

  -- `_replay_callback`
  abbrev pub replay : Option Json → Job Unit
  replay (some (object callback)) = do send callback; pure tt
  replay v = pure tt

  abbrev pub replay_callback : Option Fields → Job Unit
  replay_callback none = pure tt
  replay_callback (some result) = replay (get "callback" result)

  unfoldable pub run : Envelope → Job Fields
  run envelope =
      if envelope.event_type == "deployment.requested.v1"
      then deployment envelope
      else if envelope.event_type == "deployment.cancellation.requested.v1"
      then cancellation envelope
      else if envelope.event_type == "alias.routing.requested.v1"
      then alias envelope
      else raise (permanent_error "Command type is unsupported")

  -- `process` once the receipt is known
  unfoldable pub process_received : Envelope → ReceiptStatus × Option Fields → Job (Option Fields)
  process_received envelope (completed, result) = do replay_callback result; pure result
  process_received envelope (processing, result) = do
    done ← try_except (run envelope) (λ e. raise (transient_of e))
    on_state (complete envelope.event_id done)
    pure (some done)

  unfoldable pub process : Envelope → Job (Option Fields)
  process envelope = do
    received ←
        try_except (on_state (receive outside.hash envelope.event_id envelope.value))
          (λ e. raise (permanent_of e))
    process_received envelope received

-- ===== src/Provider/Runs.antt =====
-- The local provider's theorems at concrete inputs.
use layerrail_deploy.Prelude.{
  All, ℕ, ◌≡◌, refl, String, true, false, Option, none, some, List, [], ◌∷◌,
}
use layerrail_deploy.Effect.{succeeded, Result, ok, err, pure, ◌>>◌}
use layerrail_deploy.Json.{num, text, Fields, end, field, get}
use layerrail_deploy.Provider.State.{
  Trouble, Revision, LogEntry, LogSnapshot, State, blank, receive, receive_row, complete,
  revision_for_deployment, save_alias, save_runtime_logs, runtime_logs,
}
use layerrail_deploy.Provider.Receipts.{save_runtime_logs_tenant}
use layerrail_deploy.Provider.Routes.{Python, is_hostname, aliases, write_all, apply}
use layerrail_deploy.Provider.Routes.Valid
use layerrail_deploy.Provider.Routes.Targets.{Accepted, target_row, routed_state, apply-Accepted}
use layerrail_deploy.Provider.Routes.Unique
use layerrail_deploy.Provider.Routes.Unique.{IsRouted, changes, changes-IsRouted}
use layerrail_deploy.Provider.Local.{Envelope, Outside, Local}
use layerrail_deploy.Provider.Processor.{
  process, process_received, run, deployment, fail, callback_envelope, replay_callback,
}
use layerrail_deploy.Provider.Processor.Replay.{process_replay}
use layerrail_deploy.Provider.Processor.Allowed.{containers_asked, process_other_image}

abbrev python : Python
python = record {
  show = λ v. "";
  decimal = λ n. "8080";
  to_int = λ v. elim v [ num n ↦ some n | _ ↦ none ];
  lower = λ s. s;
}

-- a digest that tells two payloads apart by their first key
abbrev key_hash : Fields → String
key_hash end = ""
key_hash (field k v d) = k

abbrev envelope_value : Fields
envelope_value = field "event_id" (text "e1") end

abbrev revision : Revision
revision = record {
  revision_id = "r1";
  deployment_id = "d1";
  container_id = "c1";
  container_name = "web";
  container_port = 8080;
}

abbrev deployed : State
deployed = record blank { revisions = revision ∷ [] }

abbrev log_entry : LogEntry
log_entry = record { timestamp = "t"; stream = "runtime"; message = "started" }

abbrev snapshot : LogSnapshot
snapshot = record {
  deployment_id = "d1";
  organization_id = "org";
  entries = log_entry ∷ [];
  truncated = false;
}

abbrev logged : State
logged = record blank { logs = snapshot ∷ [] }

abbrev foreign_snapshot : LogSnapshot
foreign_snapshot = record snapshot { organization_id = "stranger"; entries = [] }

save_runtime_logs_tenant_example :
    ((runtime_logs "d1" "org" logged).0 ≡ ok (some snapshot))
    × ((runtime_logs "d1" "stranger" logged).0 ≡ ok none)
    × (succeeded (save_runtime_logs (λ l. 60) foreign_snapshot logged).0 ≡ false)
    × ((save_runtime_logs (λ l. 60) foreign_snapshot logged).1 ≡ logged)
unfolding save_runtime_logs
save_runtime_logs_tenant_example =
    save_runtime_logs_tenant (λ l. 60) snapshot foreign_snapshot blank logged tt refl refl (λ e. cc)

abbrev route_command : Fields
route_command = field "alias_id" (text "a-1") (
    field "hostname" (text "app.lrail.dev") (
      field "current_revision_id" (text "r1")
        (field "current_deployment_id" (text "d1") (field "container_port" (num 8080) end))))

abbrev answer_of : Result Trouble Fields → Fields
answer_of (ok d) = d
answer_of (err e) = end

route_accepted : apply python "lrail.dev" route_command deployed ≡ (
  ok (answer_of (apply python "lrail.dev" route_command deployed).0),
  (apply python "lrail.dev" route_command deployed).1,
)
unfolding apply is_hostname get revision_for_deployment save_alias write_all aliases
route_accepted = refl

apply-Accepted_example :
    (port : ℕ) × (target : Revision) × Accepted python "lrail.dev" route_command deployed port
      target
    × ((apply python "lrail.dev" route_command deployed).1
        ≡ routed_state python "lrail.dev" route_command deployed
            (target_row python "lrail.dev" route_command port target))
    × (answer_of (apply python "lrail.dev" route_command deployed).0
        ≡ field "alias_id"
            (text "a-1")
            (field "hostname" (text "app.lrail.dev") (field "revision_id" (text "r1") end)))
unfolding get
apply-Accepted_example =
    apply-Accepted python "lrail.dev" route_command deployed
      (apply python "lrail.dev" route_command deployed).1
      (answer_of (apply python "lrail.dev" route_command deployed).0) route_accepted

abbrev calls : List Unique.Change
calls =
    Unique.routed route_command
    ∷ Unique.routed (field "alias_id" (text "a2") route_command)
    ∷ Unique.removed "d1"
    ∷ []

changes-IsValid_example :
    All (Valid.IsValid "lrail.dev") (changes python "lrail.dev" calls deployed).aliases
changes-IsValid_example = Valid.changes-IsValid python "lrail.dev" calls deployed tt

changes-IsRouted_example : IsRouted (changes python "lrail.dev" calls deployed).aliases
changes-IsRouted_example =
    changes-IsRouted python "lrail.dev" calls deployed (record { ids = tt; hosts = tt })

abbrev outside : Outside
outside = record {
  python = python;
  ensure = λ k. ok (record { container_id = "c1"; container_name = "web"; container_port = 8080 });
  remove = λ k. ok tt;
  logs = λ k. ok [];
  callback = λ k. ok end;
  clock = λ k. "now";
  resource_profile = end;
  hash = key_hash;
  size = λ l. 2;
  uuid5 = λ s. s;
  is_timestamp = λ s. true;
  redact = λ s. s;
  allowed_image_reference = "lrail-local-sample:dev";
  deploy_domain = "lrail.dev";
}

abbrev git_deployment : Envelope
git_deployment = record {
  value = envelope_value;
  event_id = "e1";
  event_type = "deployment.requested.v1";
  organization_id = "org";
  resource_id = "res";
  correlation_id = "cor";
  payload = field "deployment_id" (text "d1") (field "expected_version" (num 1) end);
}

abbrev local : Local
local = record { state = blank; step = 0; acts = [] }

abbrev result_of : Result Trouble (Option Fields) → Option Fields
result_of (ok r) = r
result_of (err e) = none

abbrev once : Result Trouble (Option Fields) × Local
once = process outside git_deployment local

handled : process outside git_deployment local ≡ (ok (result_of once.0), once.1)
unfolding process process_received receive receive_row run deployment fail callback_envelope get
    complete
handled = refl

process_replay_example :
    process outside git_deployment once.1
    ≡ (do replay_callback outside (result_of once.0); pure (result_of once.0)) once.1
process_replay_example =
    process_replay outside git_deployment local once.1 (result_of once.0) handled

process_other_image_example : containers_asked (process outside git_deployment local).1.acts ≡ 0
unfolding get
process_other_image_example = process_other_image outside git_deployment local refl

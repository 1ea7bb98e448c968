-- ===== src/Build/Samples.antt =====
-- Sample values of the build controller, for the tests and the witnesses.
use layerrail_deploy.Prelude.{String, Bool, true, false, Option, none, some, [], ◌∷◌}
use layerrail_deploy.Effect.{ok, err}
use layerrail_deploy.Json.{Json, text, Fields, end, get}
use layerrail_deploy.Build.Contracts.{dependency, Bytes, BuildCommand, CancelCommand, WorkerResult}
use layerrail_deploy.Build.Store.{Status, Operation, Store}
use layerrail_deploy.Build.World.{JobState, ScanResult, Services, Settings, World}

abbrev pub command : BuildCommand
command = record {
  event_id = "e1";
  operation_id = "op1";
  organization_id = "org";
  deployment_id = "dep";
  build_id = "b1";
  revision_id = "rev";
  service_id = "svc";
  expected_version = 3;
  workload_type = "static";
  repository = "lrail/org/svc";
  source_commit = "c0ffee";
  source_root = ".";
  descriptor_digest = "sha256:d";
  correlation_id = "corr";
}

abbrev pub cancellation : CancelCommand
cancellation = record {
  event_id = "e2";
  operation_id = "op2";
  organization_id = "org";
  deployment_id = "dep";
  build_id = "b1";
  expected_version = 4;
}

-- a stand-in for the digest that tells a completed from a failed result
abbrev pub text_or_empty : Option Json → String
text_or_empty (some (text s)) = s
text_or_empty _ = ""

unfoldable pub sample_hash : Fields → String
unfolding get
sample_hash d = text_or_empty (get "status" d)

abbrev pub operation : Status → Operation
operation status = record {
  event_id = "e1";
  operation_id = "op1";
  organization_id = "org";
  deployment_id = "dep";
  build_id = "b1";
  revision_id = "rev";
  service_id = "svc";
  expected_version = 3;
  workload_type = "static";
  repository = "lrail/org/svc";
  source_commit = "c0ffee";
  source_root = ".";
  descriptor_digest = "sha256:d";
  correlation_id = "corr";
  request_digest = "";
  status = status;
  job_name = "build-b1";
  secret_name = "build-credentials-b1";
  registry_credential_id = some "cred0";
  completion_observed_at = none;
  result = end;
  created_at = 100;
  updated_at = 100;
}

abbrev pub store : Status → Store
store status = record { rows = operation status ∷ []; archives = [] }

abbrev pub archive : Bytes
archive = 7 ∷ 8 ∷ []

abbrev pub static_result : WorkerResult
static_result = record {
  operation_id = "op1";
  build_id = "b1";
  source_commit = "c0ffee";
  status = "completed";
  plan_type = some "plain_static";
  artifact_kind = some "static";
  artifact_digest = some "sha256:a";
  image_reference = none;
  static_archive = some archive;
  log_lines = "2026 ok" ∷ [];
  failure = none;
}

abbrev pub failed_result : WorkerResult
failed_result = record {
  operation_id = "op1";
  build_id = "b1";
  source_commit = "c0ffee";
  status = "failed";
  plan_type = none;
  artifact_kind = none;
  artifact_digest = none;
  image_reference = none;
  static_archive = none;
  log_lines = [];
  failure = some (record { phase = "build"; code = "boom"; message = "it broke" });
}

abbrev pub job : Bool → Bool → Bool → JobState
job exists complete failed = record {
  exists = exists;
  active = false;
  complete = complete;
  failed = failed;
  reason = none;
}

abbrev pub scan : Bool → ScanResult
scan passed = record { sbom = end; report = end; summary = end; passed = passed }

-- Every service answers, and scans pass or not as given.
abbrev pub services : Bool → Services
services passed = record {
  time = λ k. 1000;
  claim = λ k. ok none;
  finalize = λ k. ok tt;
  job_status = λ k. ok (job false false false);
  job_logs = λ k. ok [];
  job_dispatch = λ k. ok true;
  job_delete = λ k. ok tt;
  credentials = λ k. ok (record { expires_at = "later" });
  register = λ k. ok "cred1";
  revoke = λ k. ok tt;
  send_event = λ k. ok tt;
  post_cancellation = λ k. ok tt;
  put_evidence = λ k. ok end;
  put_static = λ k. ok end;
  scan = λ k. ok (scan passed);
  sign = λ k. ok end;
  hash = sample_hash;
  timestamp = λ s. some 5000;
  redact = λ s. s;
  show = λ v. "";
  log_stamp = λ t. "now";
}

abbrev pub down : Services
down = record (services true) { send_event = λ k. err (dependency "dependency_unavailable" true) }

abbrev pub settings : Settings
settings = record {
  build_timeout_seconds = 900;
  result_grace_seconds = 15;
  registry_endpoint = "registry";
}

abbrev pub world : Store → World
world s = record { store = s; step = 0; calls = [] }

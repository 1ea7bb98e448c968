-- ===== src/Build/Reconciler/Results.antt =====
-- controller.py, the end of `_process_result`, and `reconcile_once`.
use layerrail_deploy.Prelude.{
  String, ◌==◌, Bool, true, false, not, ◌||◌, Option, none, some, List, [], ◌∷◌, if◌then◌else◌,
  is_some, last_n,
}
use layerrail_deploy.Effect.{pure, guard, ◌>>=◌, ◌>>◌, try_except}
use layerrail_deploy.Json.{Json, text, array, object, Fields, end, field, get, put, union}
use layerrail_deploy.Build.Contracts.{conflict, Bytes, text_items}
use layerrail_deploy.Build.Store.{Status, running, result_pending, canceling, Operation}
use layerrail_deploy.Build.Store.Methods
use layerrail_deploy.Build.Store.Methods.{status_in}
use layerrail_deploy.Build.Store.Pending.{pending}
use layerrail_deploy.Build.World.{ScanResult, signed, Services, Settings, Ctl, ask, on_store}
use layerrail_deploy.Build.Reconciler.{
  redact_lines, object_or_empty, as_object, lines_of, is_text, required, clipped, cleanup, upload,
  send_build_event, end_build, failure_of, observe_job,
}
use layerrail_deploy.Build.Reconciler.Processing.{
  Stage, terminal_result, present, staged, scan_stage, manifest_stage, upload_scan_evidence,
  log_stage,
}

module _ (env : Services) (settings : Settings) where
  -- the branch of a result that the worker reports as failed
  unfoldable pub report_failure : Operation → Fields → List String → Ctl Unit
  report_failure operation log_ref logs = do
    let failure = object_or_empty (get "failure" operation.result)
    send_build_event env settings operation (record {
      status = "failed";
      evidence =
          field "logs_ref" (object log_ref)
            (field "log_tail" (array (text_items (last_n 50 logs))) end);
      artifact_digest = none;
      failure = some (
          failure_of env settings (clipped env settings 64 "build" (get "phase" failure))
            (clipped env settings 64 "build_failed" (get "code" failure))
            (clipped env settings 500 "Build failed" (get "message" failure)));
    })
    end_build env settings operation "failed"
        (union (terminal_result operation.result) (field "log_ref" (object log_ref) end))

  -- the branch of an artifact that fails the vulnerability policy
  unfoldable pub report_scan_failure :
      Operation → ScanResult → Fields → Fields → List String → Ctl Unit
  report_scan_failure operation scan evidence_refs log_ref logs = do
    sbom_ref ← present "sbom" (get "sbom" evidence_refs)
    scan_ref ← present "scan" (get "scan" evidence_refs)
    send_build_event env settings operation (record {
      status = "failed";
      evidence = field "logs_ref" (object log_ref) (
          field "sbom_ref" sbom_ref (
            field "scan_ref" scan_ref (
              field "scan_summary" (object scan.summary)
                (field "log_tail" (array (text_items (last_n 50 logs))) end))));
      artifact_digest = none;
      failure = some (
          failure_of env settings "scan" "critical_vulnerability"
            "Artifact failed the critical vulnerability policy");
    })
    end_build env settings operation "failed" (
        union (terminal_result operation.result) (
          field "scan_summary" (object scan.summary) (field "evidence" (object evidence_refs) end)))

  abbrev pub with_manifest : Option Fields → Fields → Fields
  with_manifest none evidence = evidence
  with_manifest (some manifest) evidence =
      put "static_manifest_digest" (text (env.hash manifest)) evidence

  abbrev pub with_image : Option String → Fields → Fields
  with_image none evidence = evidence
  with_image (some reference) evidence = put "image_reference" (text reference) evidence

  -- the evidence of a completed build, but for its provenance
  abbrev pub evidence_of :
      Operation → String → ScanResult → Json → Json → Json → Fields → List String → Fields
  evidence_of operation kind scan plan sbom_ref scan_ref log_ref logs =
      field "scan_status" (text "passed") (
        field "plan_type" plan (
          field "artifact_kind" (text kind) (
            field "source_commit" (text operation.source_commit) (
              field "cache_status" (text "disabled") (
                field "runtime_class" (text "gvisor") (
                  field "scan_summary" (object scan.summary) (
                    field "log_tail" (array (text_items (last_n 50 logs))) (
                      field "logs_ref" (object log_ref)
                        (field "sbom_ref" sbom_ref (field "scan_ref" scan_ref end))))))))))

  abbrev pub sign_and_upload : Operation → Ctl Fields
  sign_and_upload operation = do
    ask (signed operation.build_id) env.sign
    upload env settings operation "provenance.json"

  -- the branch of an artifact that passes: its provenance, the event, and the end
  unfoldable pub complete_build :
      Stage
      → String
      → String
      → ScanResult
      → Option Fields
      → Option String
      → Fields
      → Fields
      → List String
      → Ctl Unit
  complete_build s kind digest scan manifest image evidence_refs log_ref logs = do
    plan ← present "plan_type" (get "plan_type" s.operation.result)
    sbom_ref ← present "sbom" (get "sbom" evidence_refs)
    scan_ref ← present "scan" (get "scan" evidence_refs)
    let evidence = with_image image (
        with_manifest manifest
          (evidence_of s.operation kind scan plan sbom_ref scan_ref log_ref logs))
    (provenance_ref, done) ←
        staged s "provenance_ref" (as_object (get "provenance_ref" s.processing))
          (sign_and_upload s.operation)
    let full = put "provenance_ref" (object provenance_ref) evidence
    send_build_event env settings done.operation (record {
      status = "completed";
      evidence = full;
      artifact_digest = some digest;
      failure = none;
    })
    end_build env settings done.operation "completed"
        (union (terminal_result done.operation.result) (field "evidence" (object full) end))

  abbrev pub archive_if : Bool → String → Ctl (Option Bytes)
  archive_if true build_id = on_store (Methods.load_archive build_id)
  archive_if false build_id = pure none

  abbrev pub image_if : Bool → Operation → Ctl (Option String)
  image_if true operation = do
    reference ← required env settings "image_reference" (get "image_reference" operation.result)
    pure (some reference)
  image_if false operation = pure none

  -- the branch of a result with an artifact
  unfoldable pub process_artifact : Stage → Fields → List String → Ctl Unit
  process_artifact s log_ref logs = do
    kind ← required env settings "artifact_kind" (get "artifact_kind" s.operation.result)
    digest ← required env settings "artifact_digest" (get "artifact_digest" s.operation.result)
    archive ← archive_if (kind == "static") s.operation.build_id
    guard (not (kind == "static") || is_some archive) (conflict "static result archive is missing")
    (scan, s₁) ← scan_stage env settings s kind archive (as_object (get "scan" s.processing))
    (manifest, s₂) ← manifest_stage env settings s₁ kind archive
    image ← image_if (kind == "oci") s₂.operation
    (evidence_refs, s₃) ←
        staged s₂ "evidence_refs" (as_object (get "evidence_refs" s₂.processing))
          (upload_scan_evidence env settings s₂.operation log_ref)
    if scan.passed
        then complete_build s₃ kind digest scan manifest image evidence_refs log_ref logs
        else report_scan_failure s₃.operation scan evidence_refs log_ref logs

  unfoldable pub process_result : Operation → Ctl Unit
  process_result operation = do
    let logs = redact_lines env.redact (lines_of (get "log_lines" operation.result)) 200
    (log_ref, s) ← log_stage env settings operation
    if is_text (get "status" s.operation.result) "failed"
        then report_failure s.operation log_ref logs
        else process_artifact s log_ref logs

  abbrev pub step_for : Status → Operation → Ctl Unit
  step_for result_pending operation = process_result operation
  step_for running operation = observe_job env settings operation
  step_for canceling operation = cleanup env settings operation
  step_for _ operation = pure tt

  -- Whatever exception a build raises, the loop goes on with the next one.
  unfoldable pub reconcile_one : Operation → Ctl Unit
  reconcile_one operation = try_except (step_for operation.status operation) (λ e. pure tt)

  unfoldable pub reconcile_all : List Operation → Ctl Unit
  reconcile_all [] = pure tt
  reconcile_all (operation ∷ rest) = do reconcile_one operation; reconcile_all rest

  unfoldable pub reconcile_once : Ctl Unit
  reconcile_once = do operations ← on_store pending; reconcile_all operations

-- ===== src/Build/Reconciler/Scans.antt =====
-- controller.py: a build is reported as completed only if a scan of it has passed.
use layerrail_deploy.Prelude.{
  ℕ, String, ◌≡◌, refl, ◌==◌, Bool, true, false, Option, none, some, List,
}
use layerrail_deploy.Effect.{Result, ok, err}
use layerrail_deploy.Effect.Keeps.{
  Returns, Anything, Keeps, Keeps-pure, Keeps-raise, Keeps-if, Keeps-try, Keeps-bind,
  Keeps-bind_any, Keeps-pure_any, Keeps-guard_any, plain_rules,
}
use layerrail_deploy.Json.{object, Fields, get, put}
use layerrail_deploy.Json.Laws.{get-put}
use layerrail_deploy.Build.Contracts.{Fault, Bytes}
use layerrail_deploy.Build.Store
use layerrail_deploy.Build.Store.{Status, Operation}
use layerrail_deploy.Build.World.{
  ScanResult, Call, revoked, evidence_put, image_scanned, archive_scanned, Services, Settings,
  World, Ctl, ask,
}
use layerrail_deploy.Build.Reconciler.{
  redact_lines, object_or_empty, as_object, lines_of, is_text, upload,
}
use layerrail_deploy.Build.Reconciler.Processing.{
  Stage, present, staged, scan_stage, manifest_stage, upload_scan_evidence, log_stage, checkpoint,
  read_scan, run_scan, scan_image, stored_scan,
}
use layerrail_deploy.Build.Reconciler.Results.{
  report_failure, complete_build, process_artifact, process_result, image_if, archive_if,
}
use layerrail_deploy.Build.Reconciler.Reports.{
  is_completed, completed_sent, Sent, Unpassed, ask-Keeps, on_store-Keeps, now-Keeps,
  register-Keeps, report_failure-Keeps, present-Keeps, required-Keeps, report_scan_failure-Keeps,
}

module _ (n : ℕ) where
  module _ (env : Services) (settings : Settings) where
    checkpoint-Keeps :
        (s : Stage) (key : String) (value : Fields)
        → Keeps
            (Sent n)
            (λ t. t.processing ≡ put key (object value) s.processing)
            (checkpoint s key value)
    unfolding checkpoint
    checkpoint-Keeps s key value =
        Keeps-bind_any (Sent n) _ _ _ (on_store-Keeps n _) (λ o. Keeps-pure (Sent n) _ _ refl)

    -- a stage leaves the other entries of `processing` alone
    abbrev Leaves : Stage → String → {A : Type 0} → A × Stage → Type 0
    Leaves s other (v, t) = get other t.processing ≡ get other s.processing

    staged-Keeps :
        (s : Stage) (key other : String) (o : Option Fields) (run : Ctl Fields)
        → (key == other) ≡ false
        → Keeps (Sent n) Anything run
        → Keeps (Sent n) (Leaves s other) (staged s key o run)
    staged-Keeps s key other (some v) run apart kr = Keeps-pure (Sent n) _ _ refl
    staged-Keeps s key other none run apart kr = Keeps-bind_any (Sent n) _ run _ kr λ v.
        Keeps-bind (Sent n) (λ t. t.processing ≡ put key (object v) s.processing) _
          (checkpoint s key v) _ (checkpoint-Keeps s key v)
          λ t e. Keeps-pure (Sent n) _ _ (rw (e, get-put, apart))

    staged-Keeps_any :
        (s : Stage) (key : String) (o : Option Fields) (run : Ctl Fields)
        → Keeps (Sent n) Anything run
        → Keeps (Sent n) Anything (staged s key o run)
    staged-Keeps_any s key (some v) run kr = search plain_rules
    staged-Keeps_any s key none run kr = Keeps-bind_any (Sent n) _ run _ kr λ v.
        Keeps-bind (Sent n) _ _ (checkpoint s key v) _ (checkpoint-Keeps s key v)
          λ t e. Keeps-pure_any (Sent n) (v, t)

    log_stage-Keeps :
        (o : Operation)
        → Keeps
            (Sent n)
            (λ r.
              get "scan" r.1.processing ≡ get "scan" (object_or_empty (get "processing" o.result)))
            (log_stage env settings o)
    unfolding log_stage
    log_stage-Keeps o =
        let processing = object_or_empty (get "processing" o.result) in
        staged-Keeps (record { operation = o; processing = processing }) "log_ref" "scan"
          (as_object (get "log_ref" processing)) (upload env settings o "build.log") refl
          (ask-Keeps n (evidence_put o.build_id "build.log") env.put_evidence refl)

    present-value :
        {A : Type 0} (key : String) (o : Option A)
        → Keeps (Sent n) (λ v. o ≡ some v) (present key o)
    present-value key none = Keeps-raise (Sent n) _ _
    present-value key (some v) = Keeps-pure (Sent n) _ v refl

    abbrev Fails : ScanResult → Type 0
    Fails scan = scan.passed ≡ false

    read_scan-Keeps : (d : Fields) → Unpassed (some d) → Keeps (Sent n) Fails (read_scan d)
    unfolding read_scan
    read_scan-Keeps d unpassed =
        Keeps-bind_any (Sent n) _ _ _ (present-Keeps n env settings "sbom" (get "sbom" d)) λ sbom.
          Keeps-bind_any (Sent n) _ _ _ (present-Keeps n env settings "report" (get "report" d))
            λ report.
              Keeps-bind_any (Sent n) _ _ _
                (present-Keeps n env settings "summary" (get "summary" d))
                λ summary.
                  Keeps-bind (Sent n) (λ v. get "passed" d ≡ some v) _ _ _
                    (present-value "passed" (get "passed" d))
                    λ v e. Keeps-pure (Sent n) Fails _ (unpassed v e)

    module _ (none_passes : (k : ℕ) (scan : ScanResult) → env.scan k ≡ ok scan → Fails scan) where
      scanned : (k : ℕ) (r : Result Fault ScanResult) → env.scan k ≡ r → Returns Fails r
      scanned k (ok scan) e = none_passes k scan e
      scanned k (err e) h = tt

      scan-Keeps : (c : Call) → is_completed c ≡ false → Keeps (Sent n) Fails (ask c env.scan)
      scan-Keeps c other = record {
        at = λ w p. (rw other p, scanned w.step (env.scan w.step) refl);
      }

      scan_image-Keeps : (o : Operation) → Keeps (Sent n) Fails (scan_image env settings o)
      unfolding scan_image
      scan_image-Keeps o = Keeps-bind_any (Sent n) _ _ _ (now-Keeps n env settings) λ issued.
          Keeps-bind_any (Sent n) _ _ _ (register-Keeps n env settings o.repository) λ credential.
            Keeps-bind (Sent n) Fails _ _ _
              (Keeps-try (Sent n) Fails _ _
                (Keeps-bind_any (Sent n) _ _ _
                  (required-Keeps n env settings "image_reference" (get "image_reference" o.result))
                  λ reference. scan-Keeps (image_scanned reference) refl)
                λ e.
                  Keeps-bind_any (Sent n) _ _ _ (ask-Keeps n (revoked credential) env.revoke refl)
                    λ u. Keeps-raise (Sent n) _ e)
              λ scan fails.
                Keeps-bind_any (Sent n) _ _ _ (ask-Keeps n (revoked credential) env.revoke refl)
                  λ u. Keeps-pure (Sent n) Fails scan fails

      run_scan-Keeps :
          (o : Operation) (kind : String) (archive : Option Bytes)
          → Keeps (Sent n) Fails (run_scan env settings o kind archive)
      unfolding run_scan
      run_scan-Keeps o kind (some archive) =
          Keeps-if (Sent n) Fails _ _ _ (λ static. scan-Keeps (archive_scanned archive) refl)
            (λ other. scan_image-Keeps o)
      run_scan-Keeps o kind none = scan_image-Keeps o

      scan_stage-Keeps :
          (s : Stage) (kind : String) (archive : Option Bytes) (stored : Option Fields)
          → Unpassed stored
          → Keeps (Sent n) (λ r. Fails r.0) (scan_stage env settings s kind archive stored)
      unfolding scan_stage
      scan_stage-Keeps s kind archive (some d) unpassed =
          Keeps-bind (Sent n) Fails _ (read_scan d) _ (read_scan-Keeps d unpassed)
            λ scan fails. Keeps-pure (Sent n) _ _ fails
      scan_stage-Keeps s kind archive none unpassed =
          Keeps-bind (Sent n) Fails _ _ _ (run_scan-Keeps s.operation kind archive) λ scan fails.
            Keeps-bind (Sent n) _ _ _ _ (checkpoint-Keeps s "scan" (stored_scan scan))
              λ t e. Keeps-pure (Sent n) _ _ fails

      manifest_stage-Keeps :
          (s : Stage) (kind : String) (archive : Option Bytes)
          → Keeps (Sent n) Anything (manifest_stage env settings s kind archive)
      unfolding manifest_stage
      manifest_stage-Keeps s kind none = search plain_rules
      manifest_stage-Keeps s kind (some archive) = search (plain_rules, staged-Keeps_any, ask-Keeps)

      upload_scan_evidence-Keeps :
          (o : Operation) (log_ref : Fields)
          → Keeps (Sent n) Anything (upload_scan_evidence env settings o log_ref)
      unfolding upload_scan_evidence
      upload_scan_evidence-Keeps o log_ref = search (plain_rules, ask-Keeps) depth 8

      archive_if-Keeps :
          (static : Bool) (b : String) → Keeps (Sent n) Anything (archive_if env settings static b)
      archive_if-Keeps true b = on_store-Keeps n (Store.Methods.load_archive b)
      archive_if-Keeps false b = search plain_rules

      image_if-Keeps :
          (oci : Bool) (o : Operation) → Keeps (Sent n) Anything (image_if env settings oci o)
      image_if-Keeps true o = search (plain_rules, required-Keeps)
      image_if-Keeps false o = search plain_rules

      -- A scan that has not passed leads to the failure report, on every way through the stages.
      process_artifact-Keeps :
          (s : Stage) (log_ref : Fields) (logs : List String)
          → Unpassed (as_object (get "scan" s.processing))
          → Keeps (Sent n) Anything (process_artifact env settings s log_ref logs)
      unfolding process_artifact
      process_artifact-Keeps s log_ref logs unpassed =
          Keeps-bind_any (Sent n) _ _ _
            (required-Keeps n env settings "artifact_kind" (get "artifact_kind" s.operation.result))
            λ kind.
              Keeps-bind_any (Sent n) _ _ _
                (required-Keeps n env settings "artifact_digest"
                  (get "artifact_digest" s.operation.result))
                λ digest.
                  Keeps-bind_any (Sent n) _ _ _
                    (archive_if-Keeps (kind == "static") s.operation.build_id)
                    λ archive. Keeps-bind_any (Sent n) _ _ _ (Keeps-guard_any (Sent n) _ _) λ there.
                      Keeps-bind (Sent n) (λ r. Fails r.0) _ _ _
                        (scan_stage-Keeps s kind archive (as_object (get "scan" s.processing))
                          unpassed)
                        λ scan fails.
                          Keeps-bind_any (Sent n) _ _ _ (manifest_stage-Keeps scan.1 kind archive)
                            λ manifest.
                              Keeps-bind_any (Sent n) _ _ _
                                (image_if-Keeps (kind == "oci") manifest.1.operation)
                                λ image.
                                  Keeps-bind_any (Sent n) _ _ _
                                    (staged-Keeps_any manifest.1 "evidence_refs"
                                      (as_object (get "evidence_refs" manifest.1.processing))
                                      (upload_scan_evidence env settings manifest.1.operation
                                        log_ref)
                                      (upload_scan_evidence-Keeps manifest.1.operation log_ref))
                                    λ refs.
                                      Keeps-if (Sent n) Anything scan.0.passed
                                        (complete_build env settings refs.1 kind digest scan.0
                                          manifest.0 image refs.0 log_ref logs)
                                        _ (λ passes. absurd (cc (fails, passes)))
                                        (λ _.
                                          report_scan_failure-Keeps n env settings refs.1.operation
                                            scan.0 refs.0 log_ref logs)

      process_result-Keeps :
          (o : Operation)
          → Unpassed (as_object (get "scan" (object_or_empty (get "processing" o.result))))
          → Keeps (Sent n) Anything (process_result env settings o)
      unfolding process_result
      process_result-Keeps o unpassed =
          let logs = redact_lines env.redact (lines_of (get "log_lines" o.result)) 200 in
          Keeps-bind (Sent n) _ _ _ _ (log_stage-Keeps o) λ r same.
            Keeps-if (Sent n) Anything (is_text (get "status" r.1.operation.result) "failed")
              (report_failure env settings r.1.operation r.0 logs)
              (process_artifact env settings r.1 r.0 logs)
              (λ _. report_failure-Keeps n env settings r.1.operation r.0 logs)
              (λ _. process_artifact-Keeps r.1 r.0 logs (rw same unpassed))

-- If no scan of the environment passes, and the scan that the row has stored, if any, has not
-- passed, then processing the result reports no build as completed, however far it comes.
pub process_result_needs_scan :
    (env : Services) (settings : Settings) (o : Operation) (w : World)
    → ((k : ℕ) (scan : ScanResult) → env.scan k ≡ ok scan → scan.passed ≡ false)
    → Unpassed (as_object (get "scan" (object_or_empty (get "processing" o.result))))
    → completed_sent (process_result env settings o w).1.calls ≡ completed_sent w.calls
process_result_needs_scan env settings o w none_passes unpassed =
    ((process_result-Keeps (completed_sent w.calls) env settings none_passes o unpassed).at w
      refl).0

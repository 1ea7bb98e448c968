-- ===== src/Build/Reconciler/Processing.antt =====
-- controller.py, `_process_result` and `reconcile_once`. A stage whose outcome stands in the row's
-- `processing` is not run again; any other one is run, and its outcome is written there at once.
use layerrail_deploy.Prelude.{String, ◌==◌, Bool, false, Option, none, some, if◌then◌else◌}
use layerrail_deploy.Effect.{pure, raise, ◌>>=◌, ◌>>◌, try_except}
use layerrail_deploy.Json.{Json, bool, object, Fields, end, field, get, put, remove}
use layerrail_deploy.Build.Contracts.{key_error, Bytes}
use layerrail_deploy.Build.Store.{Operation}
use layerrail_deploy.Build.Store.Methods
use layerrail_deploy.Build.Store.Methods.{status_in}
use layerrail_deploy.Build.World.{
  ScanResult, image_scanned, archive_scanned, static_put, Services, Settings, Ctl, ask, on_store,
  now, register_credential, revoke_credential,
}
use layerrail_deploy.Build.Reconciler.{object_or_empty, as_object, required, upload}

-- the row and the `processing` that the stages hand on
pub record Stage : Type 0 where
  pub operation : Operation
  pub processing : Fields

-- `_terminal_result`
unfoldable pub terminal_result : Fields → Fields
terminal_result result = remove "processing" result

-- `isinstance(scan_value, dict)` and its four keys
abbrev pub is_true : Json → Bool
is_true (bool b) = b
is_true v = false

abbrev pub fields_of : Json → Fields
fields_of (object d) = d
fields_of v = end

unfoldable pub stored_scan : ScanResult → Fields
stored_scan scan = field "sbom" (object scan.sbom) (
    field "report" (object scan.report)
      (field "summary" (object scan.summary) (field "passed" (bool scan.passed) end)))

abbrev pub present : {A : Type 0} → String → Option A → Ctl A
present key none = raise (key_error key)
present key (some v) = pure v

unfoldable pub read_scan : Fields → Ctl ScanResult
read_scan d = do
  sbom ← present "sbom" (get "sbom" d)
  report ← present "report" (get "report" d)
  summary ← present "summary" (get "summary" d)
  passed ← present "passed" (get "passed" d)
  pure (record {
    sbom = fields_of sbom;
    report = fields_of report;
    summary = fields_of summary;
    passed = is_true passed;
  })

-- `processing[key] = value` and `merge_result`
unfoldable pub checkpoint : Stage → String → Fields → Ctl Stage
checkpoint s key value = do
  let processing = put key (object value) s.processing
  operation ←
      on_store
        (Methods.merge_result s.operation.build_id (field "processing" (object processing) end))
  pure (record { operation = operation; processing = processing })

-- A stage: its stored outcome, or that of `run`, stored.
abbrev pub staged : Stage → String → Option Fields → Ctl Fields → Ctl (Fields × Stage)
staged s key (some value) run = pure (value, s)
staged s key none run = do value ← run; next ← checkpoint s key value; pure (value, next)

module _ (env : Services) (settings : Settings) where
  -- `scan_image` between the registration of a pull credential and its revocation in `finally`
  unfoldable pub scan_image : Operation → Ctl ScanResult
  scan_image operation = do
    issued ← now env
    credential ← register_credential env operation.repository
    scan ←
        try_except
          (do
            reference ←
                required env settings "image_reference" (get "image_reference" operation.result)
            ask (image_scanned reference) env.scan)
          (λ e. do revoke_credential env credential; raise e)
    revoke_credential env credential
    pure scan

  unfoldable pub run_scan : Operation → String → Option Bytes → Ctl ScanResult
  run_scan operation kind (some archive) =
      if kind == "static" then ask (archive_scanned archive) env.scan else scan_image operation
  run_scan operation kind none = scan_image operation

  -- the scan of a result, from its checkpoint if there is one
  unfoldable pub scan_stage :
      Stage → String → Option Bytes → Option Fields → Ctl (ScanResult × Stage)
  scan_stage s kind archive (some value) = do scan ← read_scan value; pure (scan, s)
  scan_stage s kind archive none = do
    scan ← run_scan s.operation kind archive
    next ← checkpoint s "scan" (stored_scan scan)
    pure (scan, next)

  -- the manifest of a static result
  unfoldable pub manifest_stage : Stage → String → Option Bytes → Ctl (Option Fields × Stage)
  manifest_stage s kind none = pure (as_object (get "static_manifest" s.processing), s)
  manifest_stage s kind (some archive) =
      if kind == "static"
      then (do
        (manifest, next) ←
            staged s "static_manifest" (as_object (get "static_manifest" s.processing))
              (ask (static_put s.operation.revision_id) env.put_static)
        pure (some manifest, next))
      else pure (as_object (get "static_manifest" s.processing), s)

  -- `_upload_scan_evidence`
  unfoldable pub upload_scan_evidence : Operation → Fields → Ctl Fields
  upload_scan_evidence operation log_ref = do
    sbom ← upload env settings operation "sbom.json"
    report ← upload env settings operation "scan.json"
    pure (
        field "logs" (object log_ref)
          (field "sbom" (object sbom) (field "scan" (object report) end)))

  -- `processing.get("log_ref")`, or the upload of the log
  unfoldable pub log_stage : Operation → Ctl (Fields × Stage)
  log_stage operation =
      let processing = object_or_empty (get "processing" operation.result) in
      staged (record { operation = operation; processing = processing }) "log_ref"
        (as_object (get "log_ref" processing)) (upload env settings operation "build.log")

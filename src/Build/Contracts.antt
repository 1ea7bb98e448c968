-- ===== src/Build/Contracts.antt =====
-- The values that cross the build controller's boundary (contracts.py), and its exceptions.
use layerrail_deploy.Prelude.{
  ℕ, String, ◌⊕◌, Bool, Option, none, some, List, [], ◌∷◌, first_chars, remove_char,
}
use layerrail_deploy.Json.{
  Json, null, num, text, array, object, Items, nil, cons, Fields, end, field,
}

-- The exceptions that the handlers of controller.py tell apart. `integrity` is the
-- `sqlite3.IntegrityError` of an INSERT, `internal` any other `Exception`.
pub data Fault : Type 0 where
  conflict : String → Fault
  invalid_contract : String → Fault
  dependency : String → Bool → Fault
  kubernetes : String → Fault
  scan_error : String → Fault
  key_error : String → Fault
  value_error : String → Fault
  integrity : Fault
  internal : Fault

abbrev pub Bytes : Type 0
Bytes = List ℕ

pub record BuildCommand : Type 0 where
  pub event_id : String
  pub operation_id : String
  pub organization_id : String
  pub deployment_id : String
  pub build_id : String
  pub revision_id : String
  pub service_id : String
  pub expected_version : ℕ
  pub workload_type : String
  pub repository : String
  pub source_commit : String
  pub source_root : String
  pub descriptor_digest : String
  pub correlation_id : String

unfoldable pub job_name : BuildCommand → String
job_name command = "build-" ⊕ first_chars 24 (remove_char b'-' command.build_id)

unfoldable pub secret_name : BuildCommand → String
secret_name command = "build-credentials-" ⊕ first_chars 16 (remove_char b'-' command.build_id)

unfoldable pub command_value : BuildCommand → Fields
command_value command = field "contract_version" (num 1) (
    field "command_type" (text "build.start") (
      field "operation_id" (text operation_id) (
        field "organization_id" (text organization_id) (
          field "deployment_id" (text deployment_id) (
            field "build_id" (text build_id) (
              field "revision_id" (text revision_id) (
                field "service_id" (text service_id) (
                  field "expected_version" (num expected_version) (
                    field "workload_type" (text workload_type) (
                      field "repository" (text repository) (
                        field "source_commit" (text source_commit) (
                          field "source_root" (text source_root)
                            (field "descriptor_digest" (text descriptor_digest) end)))))))))))))
  where
    open command use {
      operation_id, organization_id, deployment_id, build_id, revision_id, service_id,
      expected_version, workload_type, repository, source_commit, source_root, descriptor_digest,
    }

pub record CancelCommand : Type 0 where
  pub event_id : String
  pub operation_id : String
  pub organization_id : String
  pub deployment_id : String
  pub build_id : String
  pub expected_version : ℕ

pub record Failure : Type 0 where
  pub phase : String
  pub code : String
  pub message : String

pub record WorkerResult : Type 0 where
  pub operation_id : String
  pub build_id : String
  pub source_commit : String
  pub status : String
  pub plan_type : Option String
  pub artifact_kind : Option String
  pub artifact_digest : Option String
  pub image_reference : Option String
  pub static_archive : Option Bytes
  pub log_lines : List String
  pub failure : Option Failure

abbrev pub optional_text : Option String → Json
optional_text none = null
optional_text (some s) = text s

abbrev pub text_items : List String → Items
text_items [] = nil
text_items (s ∷ l) = cons (text s) (text_items l)

abbrev pub failure_value : Failure → Fields
failure_value failure =
    field "phase" (text failure.phase)
      (field "code" (text failure.code) (field "message" (text failure.message) end))

-- the part of the value that depends on `if self.failure`
outcome_value : Option Failure → WorkerResult → Fields
outcome_value (some failure) result = field "failure" (object (failure_value failure)) end
outcome_value none result = field "plan_type" (optional_text result.plan_type) (
    field "artifact_kind" (optional_text result.artifact_kind) (
      field "artifact_digest" (optional_text result.artifact_digest)
        (field "image_reference" (optional_text result.image_reference) end)))

unfoldable pub safe_value : WorkerResult → Fields
unfolding outcome_value
safe_value result = field "operation_id" (text result.operation_id) (
    field "build_id" (text result.build_id) (
      field "source_commit" (text result.source_commit) (
        field "status" (text result.status) (
          field "log_lines" (array (text_items result.log_lines))
            (outcome_value result.failure result)))))

-- ===== src/Build/Store/History.antt =====
-- Sequences of calls of `OperationStore`: what every history keeps.
use layerrail_deploy.Prelude.{
  ℕ, String, ◌≡◌, refl, ◌==◌, Bool, true, false, Bool-cases, ◌&&◌, ◌⊎◌, inl, inr, Option, some,
  List, [], ◌∷◌, arith,
}
use layerrail_deploy.Effect.{succeeded}
use layerrail_deploy.Json.{Fields}
use layerrail_deploy.Build.Contracts.{BuildCommand, WorkerResult}
use layerrail_deploy.Build.Store.{
  Status, preparing, running, result_pending, parse_status, Operation, Store, find,
}
use layerrail_deploy.Build.Store.Methods
use layerrail_deploy.Build.Store.Methods.{
  status_in, new_operation, transitioned, has_operation_id, result_saved, stored_value,
  completion_observed, result_merged, marked,
}
use layerrail_deploy.Build.Store.Rows.{mapped}
use layerrail_deploy.Build.Store.Writes.{
  find-register, find-set_running, set_running-started, find-store_result, find-observe_completion,
  find-merge_result, find-mark_status, written, save_result-cases, mark-cases,
}

-- One call of a public method that writes.
pub data Method : Type 0 where
  register : BuildCommand → ℕ → Method
  set_running : String → String → ℕ → Method
  save_result : WorkerResult → ℕ → Method
  observe_completion : String → ℕ → Method
  merge_result : String → Fields → Method
  mark : String → String → Option Fields → ℕ → Method

-- What identifies a build, and never changes.
pub record SameBuild (o p : Operation) : Type 0 where
  pub event_id : p.event_id ≡ o.event_id
  pub operation_id : p.operation_id ≡ o.operation_id
  pub organization_id : p.organization_id ≡ o.organization_id
  pub deployment_id : p.deployment_id ≡ o.deployment_id
  pub build_id : p.build_id ≡ o.build_id
  pub revision_id : p.revision_id ≡ o.revision_id
  pub service_id : p.service_id ≡ o.service_id
  pub expected_version : p.expected_version ≡ o.expected_version
  pub workload_type : p.workload_type ≡ o.workload_type
  pub repository : p.repository ≡ o.repository
  pub source_commit : p.source_commit ≡ o.source_commit
  pub source_root : p.source_root ≡ o.source_root
  pub descriptor_digest : p.descriptor_digest ≡ o.descriptor_digest
  pub correlation_id : p.correlation_id ≡ o.correlation_id
  pub request_digest : p.request_digest ≡ o.request_digest
  pub job_name : p.job_name ≡ o.job_name
  pub secret_name : p.secret_name ≡ o.secret_name
  pub created_at : p.created_at ≡ o.created_at

-- How one call may change a status.
abbrev pub Edge : Method → Status → Status → Type 0
Edge (register command now) a b = b ≡ a
Edge (set_running build credential now) a b =
    (b ≡ a) ⊎ (status_in a (preparing ∷ running ∷ []) ≡ true) × (b ≡ running)
Edge (save_result result now) a b = (b ≡ a) ⊎ (a ≡ running) × (b ≡ result_pending)
Edge (observe_completion build now) a b = b ≡ a
Edge (merge_result build values) a b = b ≡ a
Edge (mark build status result now) a b = (b ≡ a) ⊎ (parse_status status ≡ some b)

abbrev pub Row : Method → Operation → Operation → Type 0
Row m o p = SameBuild o p × Edge m o.status p.status

module _ (hash : Fields → String) where
  unfoldable pub after : Method → Store → Store
  after (register command now) s = (Methods.register hash command now s).1
  after (set_running build credential now) s = (Methods.set_running build credential now s).1
  after (save_result result now) s = (Methods.save_result hash result now s).1
  after (observe_completion build now) s = (Methods.observe_completion build now s).1
  after (merge_result build values) s = (Methods.merge_result build values s).1
  after (mark build status result now) s = (Methods.mark build status result now s).1

  unfoldable pub history : List Method → Store → Store
  history [] s = s
  history (m ∷ ms) s = history ms (after m s)

SameBuild-refl : (o : Operation) → SameBuild o o
SameBuild-refl o = ground arith

-- The row of a build after a write that either happens or does not.
written-Row :
    (m : Method) (t : Bool) (f : Operation → Operation) (o : Operation)
    → Row m o o
    → Row m o (f o)
    → (p : Operation) × (mapped t f (some o) ≡ some p) × Row m o p
written-Row m true f o stay go = (f o, refl, go)
written-Row m false f o stay go = (o, refl, stay)

module _ (hash : Fields → String) (s : Store) (c : String) (o : Operation)
    (h : find c s.rows ≡ some o) where
  abbrev Kept : Method → Store → Type 0
  Kept m t = (p : Operation) × (find c t.rows ≡ some p) × Row m o p

  row-mark_status :
      (b st : String) (status : Status) (result : Option Fields) (now : ℕ)
      → parse_status st ≡ some status
      → Kept (mark b st result now) (Methods.mark_status b status result now s).1
  row-mark_status b st status result now e =
      rw (find-mark_status s c b status result now, h)
        (written-Row (mark b st result now) (b == c) (marked status result now) o (ground arith)
          (ground arith))

  -- Whatever the call, the build keeps its row and its identity, and its status moves along an edge.
  pub after_row : (m : Method) → Kept m (after hash m s)
  unfolding after
  after_row (register command now) =
      (o, find-register s c hash command now o h, (SameBuild-refl o, refl))
  after_row (set_running b credential now) =
      elim (Bool-cases (b == c && succeeded (Methods.set_running b credential now s).0)) [
        | inl started ↦
            rw (find-set_running s c b credential now, h, started)
              (
                transitioned running (some credential) now o,
                refl,
                (ground arith, inr (set_running-started s c b credential now o h started, refl)),
              )
        | inr unchanged ↦
            rw (find-set_running s c b credential now, h, unchanged)
              (o, refl, (SameBuild-refl o, inl refl))
      ]
  after_row (save_result r now) = elim (save_result-cases hash r now s) [
    | inl same ↦ (o, rw same h, (SameBuild-refl o, inl refl))
    | inr first ↦
        rw (first, find-store_result s c r (hash _) now, h)
          (written-Row (save_result r now) _ (written r (hash _) now) o (ground arith)
            (ground arith))
  ]
  after_row (observe_completion b now) =
      rw (find-observe_completion s c b now, h)
        (written-Row (observe_completion b now) _ (completion_observed now) o (ground arith)
          (ground arith))
  after_row (merge_result b values) =
      rw (find-merge_result s c b values o h, h)
        (written-Row (merge_result b values) _ _ o (ground arith) (ground arith))
  after_row (mark b st result now) = elim (mark-cases b st result now s) [
    | inl same ↦ (o, rw same h, (SameBuild-refl o, inl refl))
    | inr (status, known, write) ↦ rw write (row-mark_status b st status result now known)
  ]

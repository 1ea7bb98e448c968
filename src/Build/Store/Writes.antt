-- ===== src/Build/Store/Writes.antt =====
-- What each method of `OperationStore` does to the rows of every build, on all its branches.
use layerrail_deploy.Prelude.{
  ℕ, String, ◌≡◌, refl, ◌==◌, eq_iff, ◌&&◌, Option, some, true, [], ◌∷◌, arith, is_some, ◌⊎◌,
  Option-cases, inl, inr,
}
use layerrail_deploy.Effect.{succeeded}
use layerrail_deploy.Json.{Fields, union}
use layerrail_deploy.Build.Contracts.{BuildCommand, WorkerResult, safe_value}
use layerrail_deploy.Build.Store.{Status, preparing, running, Operation, Store, find, parse_status}
use layerrail_deploy.Build.Store.Methods.{
  status_in, new_operation, request_digest, register, set_running, transitioned, store_result,
  stored_value, result_saved, save_result, completion_observed, observe_completion, result_merged,
  merge_result, marked, mark_status, mark,
}
use layerrail_deploy.Build.Store.Rows.{KeepsKeys, mapped, find-update, find-append}

pub transitioned-KeepsKeys :
    (status : Status) (credential : Option String) (now : ℕ)
    → KeepsKeys (transitioned status credential now)
transitioned-KeepsKeys status credential now = record {
  build_kept = λ o. refl;
  operation_kept = λ o. refl;
}

pub result_saved-KeepsKeys : (safe : Fields) (now : ℕ) → KeepsKeys (result_saved safe now)
result_saved-KeepsKeys safe now = record {
  build_kept = λ o. ground arith;
  operation_kept = λ o. ground arith;
}

pub completion_observed-KeepsKeys : (now : ℕ) → KeepsKeys (completion_observed now)
completion_observed-KeepsKeys now = record {
  build_kept = λ o. ground arith;
  operation_kept = λ o. ground arith;
}

pub result_merged-KeepsKeys : (result : Fields) → KeepsKeys (result_merged result)
result_merged-KeepsKeys result = record {
  build_kept = λ o. ground arith;
  operation_kept = λ o. ground arith;
}

pub marked-KeepsKeys :
    (status : Status) (result : Option Fields) (now : ℕ) → KeepsKeys (marked status result now)
marked-KeepsKeys status result now = record {
  build_kept = λ o. ground arith;
  operation_kept = λ o. ground arith;
}

abbrev pub written : WorkerResult → String → ℕ → Operation → Operation
written r digest now =
    result_saved (stored_value (safe_value r) digest (is_some r.static_archive) now) now

module _ (s : Store) (c : String) where
  pub find-set_running :
      (b credential : String) (now : ℕ)
      → find c (set_running b credential now s).1.rows
        ≡ mapped
            (b == c && succeeded (set_running b credential now s).0)
            (transitioned running (some credential) now)
            (find c s.rows)
  unfolding set_running
  find-set_running b credential now = ground (
    arith,
    find-update (transitioned running (some credential) now)
        (transitioned-KeepsKeys running (some credential) now) b c s.rows,
    find-update (transitioned running (some credential) now)
        (transitioned-KeepsKeys running (some credential) now) b b s.rows,
    eq_iff b b,
  )

  -- A call that changes the row has found it preparing or running.
  pub set_running-started :
      (b credential : String) (now : ℕ) (o : Operation)
      → find c s.rows ≡ some o
      → (b == c && succeeded (set_running b credential now s).0) ≡ true
      → status_in o.status (preparing ∷ running ∷ []) ≡ true
  unfolding set_running
  set_running-started b credential now o h started = ground (arith, eq_iff b c)

  pub find-observe_completion :
      (b : String) (now : ℕ)
      → find c (observe_completion b now s).1.rows
        ≡ mapped (b == c) (completion_observed now) (find c s.rows)
  unfolding observe_completion
  find-observe_completion b now = ground (
    arith,
    find-update (completion_observed now) (completion_observed-KeepsKeys now) b c s.rows,
    find-update (completion_observed now) (completion_observed-KeepsKeys now) b b s.rows,
  )

  -- A checkpoint changes the row exactly if it is accepted.
  pub find-merge_result :
      (b : String) (values : Fields) (o : Operation)
      → find c s.rows ≡ some o
      → find c (merge_result b values s).1.rows
        ≡ mapped
            (b == c && succeeded (merge_result b values s).0)
            (result_merged (union o.result values))
            (find c s.rows)
  unfolding merge_result
  find-merge_result b values o h = elim (Option-cases (find b s.rows)) [
    | inl missing ↦ ground (arith)
    | inr (p, found) ↦ ground (
      arith,
      found,
      eq_iff b b,
      eq_iff b c,
      find-update (result_merged (union p.result values))
          (result_merged-KeepsKeys (union p.result values)) b c s.rows,
      find-update (result_merged (union p.result values))
          (result_merged-KeepsKeys (union p.result values)) b b s.rows,
    )
  ]

  pub find-mark_status :
      (b : String) (status : Status) (result : Option Fields) (now : ℕ)
      → find c (mark_status b status result now s).1.rows
        ≡ mapped (b == c) (marked status result now) (find c s.rows)
  unfolding mark_status
  find-mark_status b status result now = ground (
    arith,
    eq_iff b c,
    find-update (marked status result now) (marked-KeepsKeys status result now) b c s.rows,
    find-update (marked status result now) (marked-KeepsKeys status result now) b b s.rows,
  )

  pub find-store_result :
      (r : WorkerResult) (digest : String) (now : ℕ)
      → find c (store_result r digest now s).1.rows
        ≡ mapped (r.build_id == c) (written r digest now) (find c s.rows)
  unfolding store_result
  find-store_result r digest now = ground (
    arith,
    find-update (written r digest now) (result_saved-KeepsKeys _ now) r.build_id c s.rows,
    find-update (written r digest now) (result_saved-KeepsKeys _ now) r.build_id r.build_id s.rows,
  )

  -- `register` never changes a row that is there, whatever it returns.
  pub find-register :
      (hash : Fields → String) (command : BuildCommand) (now : ℕ) (o : Operation)
      → find c s.rows ≡ some o
      → find c (register hash command now s).1.rows ≡ some o
  unfolding register
  find-register hash command now o h = ground (
    arith,
    find-append c s.rows (new_operation (request_digest hash command) command now),
    find-append command.build_id s.rows (new_operation (request_digest hash command) command now),
  )

-- A result either changes nothing or is written as a first one.
pub save_result-cases :
    (hash : Fields → String) (r : WorkerResult) (now : ℕ) (s : Store)
    → ((save_result hash r now s).1 ≡ s)
      ⊎ ((save_result hash r now s).1 ≡ (store_result r (hash (safe_value r)) now s).1)
unfolding save_result
save_result-cases hash r now s = ground arith

-- `mark` changes nothing for an unknown status, and writes a known one.
pub mark-cases :
    (b st : String) (result : Option Fields) (now : ℕ) (s : Store)
    → ((mark b st result now s).1 ≡ s)
      ⊎ ((status : Status) × (parse_status st ≡ some status)
          × ((mark b st result now s).1 ≡ (mark_status b status result now s).1))
unfolding mark
mark-cases b st result now s = elim (Option-cases (parse_status st)) [
  | inl unknown ↦ inl (ground arith)
  | inr (status, known) ↦ inr (status, known, ground arith)
]

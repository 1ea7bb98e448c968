-- ===== src/Build/Store/Keys.antt =====
-- The primary key and the unique index of the operations table, over every history of calls.
use layerrail_deploy.Prelude.{ℕ, String, Option, some, List, [], ◌∷◌, inl, inr, arith, Option-cases}
use layerrail_deploy.Json.{Fields, union}
use layerrail_deploy.Build.Contracts.{BuildCommand, WorkerResult, safe_value}
use layerrail_deploy.Build.Store.{Status, running, Store, find}
use layerrail_deploy.Build.Store.Methods
use layerrail_deploy.Build.Store.Methods.{
  new_operation, transitioned, has_operation_id, completion_observed, result_merged, marked,
  request_digest,
}
use layerrail_deploy.Build.Store.Rows.{IsKeyed, update-IsKeyed, append-IsKeyed}
use layerrail_deploy.Build.Store.Writes.{
  written, transitioned-KeepsKeys, result_saved-KeepsKeys, completion_observed-KeepsKeys,
  result_merged-KeepsKeys, marked-KeepsKeys, mark-cases,
}
use layerrail_deploy.Build.Store.History.{
  Method, register, set_running, save_result, observe_completion, merge_result, mark, after,
  history,
}

module _ (s : Store) (h : IsKeyed s.rows) where
  register-IsKeyed :
      (hash : Fields → String) (command : BuildCommand) (now : ℕ)
      → IsKeyed (Methods.register hash command now s).1.rows
  unfolding Methods.register
  register-IsKeyed hash command now =
      ground
        (arith, append-IsKeyed s.rows (new_operation (request_digest hash command) command now))

  set_running-IsKeyed :
      (b credential : String) (now : ℕ) → IsKeyed (Methods.set_running b credential now s).1.rows
  unfolding Methods.set_running
  set_running-IsKeyed b credential now = ground (
    arith,
    update-IsKeyed (transitioned running (some credential) now)
        (transitioned-KeepsKeys running (some credential) now) b s.rows h,
  )

  save_result-IsKeyed :
      (hash : Fields → String) (r : WorkerResult) (now : ℕ)
      → IsKeyed (Methods.save_result hash r now s).1.rows
  unfolding Methods.save_result
  save_result-IsKeyed hash r now = ground (
    arith,
    update-IsKeyed (written r (hash (safe_value r)) now) (result_saved-KeepsKeys _ now) r.build_id
        s.rows h,
  )

  observe_completion-IsKeyed :
      (b : String) (now : ℕ) → IsKeyed (Methods.observe_completion b now s).1.rows
  unfolding Methods.observe_completion
  observe_completion-IsKeyed b now = ground (
    arith,
    update-IsKeyed (completion_observed now) (completion_observed-KeepsKeys now) b s.rows h,
  )

  merge_result-IsKeyed :
      (b : String) (values : Fields) → IsKeyed (Methods.merge_result b values s).1.rows
  unfolding Methods.merge_result
  merge_result-IsKeyed b values = elim (Option-cases (find b s.rows)) [
    | inl missing ↦ ground arith
    | inr (o, found) ↦ ground (
      arith,
      found,
      update-IsKeyed (result_merged (union o.result values))
          (result_merged-KeepsKeys (union o.result values)) b s.rows h,
    )
  ]

  mark_status-IsKeyed :
      (b : String) (status : Status) (result : Option Fields) (now : ℕ)
      → IsKeyed (Methods.mark_status b status result now s).1.rows
  unfolding Methods.mark_status
  mark_status-IsKeyed b status result now = ground (
    arith,
    update-IsKeyed (marked status result now) (marked-KeepsKeys status result now) b s.rows h,
  )

  after-IsKeyed : (hash : Fields → String) (m : Method) → IsKeyed (after hash m s).rows
  unfolding after
  after-IsKeyed hash (register command now) = register-IsKeyed hash command now
  after-IsKeyed hash (set_running b credential now) = set_running-IsKeyed b credential now
  after-IsKeyed hash (save_result r now) = save_result-IsKeyed hash r now
  after-IsKeyed hash (observe_completion b now) = observe_completion-IsKeyed b now
  after-IsKeyed hash (merge_result b values) = merge_result-IsKeyed b values
  after-IsKeyed hash (mark b st result now) = elim (mark-cases b st result now s) [
    | inl same ↦ rw same h
    | inr (status, known, write) ↦ rw write (mark_status-IsKeyed b status result now)
  ]

-- From a table in which no build and no operation identity has two rows, the empty one for
-- instance, any calls lead to such a table.
pub history-IsKeyed :
    (hash : Fields → String) (ms : List Method) (s : Store)
    → IsKeyed s.rows
    → IsKeyed (history hash ms s).rows
unfolding history
history-IsKeyed hash [] s h = h
history-IsKeyed hash (m ∷ ms) s h =
    history-IsKeyed hash ms (after hash m s) (after-IsKeyed s h hash m)

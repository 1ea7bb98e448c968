-- ===== src/Build/Witnesses.antt =====
-- Runs of the build controller, and its theorems at concrete inputs.
use layerrail_deploy.Prelude.{
  String, ◌==◌, ◌≡◌, refl, Bool, true, false, Option, none, some, List, [], ◌∷◌, All,
}
use layerrail_deploy.Effect.{Result, ok, err}
use layerrail_deploy.Json.{Fields, get, end}
use layerrail_deploy.Build.Contracts.{BuildCommand, Fault, conflict, command_value, safe_value}
use layerrail_deploy.Build.Store.{
  parse_status, Status, running, result_pending, completed, canceled, Operation, Store, find, empty,
  archive_of,
}
use layerrail_deploy.Build.Store.Methods
use layerrail_deploy.Build.Store.Rows.{IsKeyed}
use layerrail_deploy.Build.Store.History
use layerrail_deploy.Build.Store.History.{history, after_row, Row, after}
use layerrail_deploy.Build.Store.Keys.{history-IsKeyed}
use layerrail_deploy.Build.Store.Results.{save_result_leaves_archive}
use layerrail_deploy.Build.Store.Settled.{keeps_closed, save_result_first_wins}
use layerrail_deploy.Build.Commands.{dispatch}
use layerrail_deploy.Build.Commands.Credentials.{Accounted, dispatch-Accounted}
use layerrail_deploy.Build.Samples.{
  text_or_empty, command, sample_hash, operation, store, archive, static_result, failed_result,
  services, settings, world,
}

abbrev calls : List History.Method
calls =
    History.register command 5
    ∷ History.set_running "b1" "cred1" 6
    ∷ History.save_result static_result 7
    ∷ History.mark "b1" "completed" none 8
    ∷ []

store_program : Unit {0}
unfolding history after Methods.register Methods.set_running Methods.save_result Methods.mark find
    sample_hash safe_value archive_of
store_program = tt

status_of : Option Operation → Option Status
status_of none = none
status_of (some o) = some o.status

history_completes : status_of (find "b1" (history sample_hash calls empty).rows) ≡ some completed
unfolding store_program empty status_of
history_completes = refl

found_running : find "b1" (store running).rows ≡ some (operation running)
unfolding find
found_running = refl

found_canceled : find "b1" (store canceled).rows ≡ some (operation canceled)
unfolding find
found_canceled = refl

keyed : (status : Status) → IsKeyed (store status).rows
unfolding find Methods.has_operation_id
keyed status = (refl, refl, tt)

after_row_example :
    (p : Operation) × (find "b1"
        (after sample_hash (History.save_result static_result 7) (store running)).rows
      ≡ some p)
    × Row (History.save_result static_result 7) (operation running) p
after_row_example =
    after_row sample_hash (store running) "b1" (operation running) found_running
      (History.save_result static_result 7)

history-IsKeyed_example : IsKeyed (history sample_hash calls (store running)).rows
history-IsKeyed_example = history-IsKeyed sample_hash calls (store running) (keyed running)

registered_once : Store
registered_once = (Methods.register sample_hash command 5 empty).1

abbrev registered_row : Operation
registered_row = Methods.new_operation "" command 5

registers :
    Methods.register sample_hash command 5 empty ≡ (ok (registered_row, true), registered_once)
unfolding registered_once Methods.register sample_hash empty Methods.new_operation command_value
registers = refl

-- a digest that reads one key of the command
workload_hash : Fields → String
unfolding get
workload_hash d = text_or_empty (get "workload_type" d)

abbrev other_command : BuildCommand
other_command = record command { workload_type = "other" }

first_registered : Result Fault (Operation × Bool) × Store
first_registered = Methods.register workload_hash command 5 empty

registers_first :
    Methods.register workload_hash command 5 empty
    ≡ (ok (Methods.new_operation "static" command 5, true), first_registered.1)
unfolding first_registered Methods.register workload_hash empty Methods.new_operation command_value
registers_first = refl

other_digest :
    (Methods.request_digest workload_hash command
      == Methods.request_digest workload_hash other_command)
    ≡ false
unfolding Methods.request_digest workload_hash command_value
other_digest = refl

saved : Result Fault (Operation × Bool) × Store
saved = Methods.save_result sample_hash static_result 7 (store running)

abbrev saved_row : Operation
unfolding Methods.stored_value safe_value
saved_row = record (operation running) {
  status = result_pending;
  result = Methods.stored_value (safe_value static_result) "completed" true 7;
  updated_at = 7;
}

saves :
    Methods.save_result sample_hash static_result 7 (store running)
    ≡ (ok (saved_row, true), saved.1)
unfolding saved Methods.save_result sample_hash Methods.stored_value safe_value
saves = refl

abbrev canceled_later : List History.Method
canceled_later =
    History.save_result failed_result 8
    ∷ History.mark "b1" "canceling" none 9
    ∷ History.set_running "b1" "cred2" 10
    ∷ []

spares_result : All (λ m. keeps_closed m ≡ true) canceled_later
unfolding parse_status
spares_result = (refl, (refl, (refl, tt)))

save_result_first_wins_example :
    (Methods.save_result sample_hash failed_result 11
      (history sample_hash canceled_later saved.1)).1.rows
    ≡ (history sample_hash canceled_later saved.1).rows
save_result_first_wins_example =
    save_result_first_wins sample_hash static_result failed_result 7 11 (store running) saved.1
      saved_row true canceled_later (keyed running) saves spares_result refl

ended : Result Fault Operation × Store
ended = Methods.mark_status "b1" completed (some end) 8 (store running)

abbrev ended_row : Operation
ended_row = record (operation running) { status = completed; result = end; updated_at = 8 }

ends : Methods.mark_status "b1" completed (some end) 8 (store running) ≡ (ok ended_row, ended.1)
unfolding ended Methods.mark_status
ends = refl

save_result_leaves_archive_example :
    ((Methods.save_result sample_hash static_result 7 (store canceled)).0
      ≡ err (conflict "worker result arrived in an invalid state"))
    × (archive_of "b1" (Methods.save_result sample_hash static_result 7 (store canceled)).1.archives
        ≡ some archive)
save_result_leaves_archive_example =
    save_result_leaves_archive sample_hash static_result 7 (store canceled) (operation canceled)
      archive (keyed canceled) found_canceled refl refl refl refl

dispatch-Accounted_example :
    Accounted "b1" (dispatch (services true) settings command (world empty))
dispatch-Accounted_example = dispatch-Accounted (services true) settings command (world empty) refl

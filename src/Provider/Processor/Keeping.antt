-- ===== src/Provider/Processor/Keeping.antt =====
-- processor.py: handling an event leaves the receipts of events alone.
use layerrail_deploy.Prelude.{
  ℕ, not, ◌||◌, ltb, length, String, ◌≡◌, refl, Bool, true, false, Option, none, some, List, first,
  upsert,
}
use layerrail_deploy.Effect.{Result, ok, err, guard, modify, lift, require, ◌>>◌}
use layerrail_deploy.Effect.Keeps.{Keeps, Returns, Anything, plain_rules}
use layerrail_deploy.Json.{Json, Fields}
use layerrail_deploy.Provider.State.{
  Trouble, value_error, event_conflict, tenant_fits, logs_of, ReceiptStatus, processing, completed,
  Receipt, State, Method, has_event, receive, complete, completed_with, save_revision, Revision,
  save_alias, Alias, LogSnapshot, LogEntry, save_runtime_logs, revision_for_deployment,
}
use layerrail_deploy.Provider.State
use layerrail_deploy.Provider.Routes.{Python, aliases, write_all, apply, remove_deployment}
use layerrail_deploy.Provider.Local.{
  RuntimeInstance, Envelope, Act, Outside, Job, act, on_state, stamp, found_or_raise,
}
use layerrail_deploy.Provider.Checks.{Refusal}
use layerrail_deploy.Provider.Processor.{
  callback_envelope, fail, announce, settle, attempt, start, start_or_fail, deployment, keep_logs,
  cancellation, alias, run, ignore_runtime,
}

module _ (event_id : String) (row : Receipt) where
  abbrev pub HasRow : State → Type 0
  HasRow s = first (has_event event_id) s.events ≡ some row

  abbrev KeepsRow : {A : Type 0} → Method A → Type 0
  KeepsRow m = Keeps HasRow Anything m

  write-KeepsRow :
      (b : Bool) (e : Trouble) (f : State → State)
      → ((s : State) → (f s).events ≡ s.events)
      → KeepsRow (guard b e >> modify f)
  write-KeepsRow true e f same = record { at = λ s h. (rw (same s) h, tt) }
  write-KeepsRow false e f same = record { at = λ s h. (h, tt) }

  writes-KeepsRow :
      (b c : Bool) (e g : Trouble) (f : State → State)
      → ((s : State) → (f s).events ≡ s.events)
      → KeepsRow (guard b e >> (guard c g >> modify f))
  writes-KeepsRow true c e g f same = record { at = (write-KeepsRow c g f same).at }
  writes-KeepsRow false c e g f same = record { at = λ s h. (h, tt) }

  save_revision-KeepsRow : (new : Revision) → KeepsRow (save_revision new)
  unfolding save_revision
  save_revision-KeepsRow new = record { at = λ s. (write-KeepsRow _ _ _ (λ t. refl)).at s }

  save_alias-KeepsRow : (new : Alias) → KeepsRow (save_alias new)
  unfolding save_alias
  save_alias-KeepsRow new = record { at = λ s. (write-KeepsRow _ _ _ (λ t. refl)).at s }

  save_runtime_logs-KeepsRow :
      (size : List LogEntry → _) (new : LogSnapshot) → KeepsRow (save_runtime_logs size new)
  unfolding save_runtime_logs
  save_runtime_logs-KeepsRow size new = record {
    at = λ s.
        (writes-KeepsRow (not (ltb 200 (length new.entries) || ltb 1048576 (size new.entries)))
            (tenant_fits new.organization_id (first (logs_of new.deployment_id) s.logs))
            (value_error "runtime log snapshot is too large")
            (event_conflict "runtime log tenant identity conflicts")
            (λ t. record t { logs = upsert (logs_of new.deployment_id) new t.logs }) (λ t. refl)).at
          s;
  }

  revision_for_deployment-KeepsRow :
      (deployment_id : String) → KeepsRow (revision_for_deployment deployment_id)
  unfolding revision_for_deployment
  revision_for_deployment-KeepsRow deployment_id = record { at = λ s h. (h, tt) }

  require-KeepsRow : {A : Type 0} (o : Option A) (e : Trouble) → KeepsRow (require o e)
  require-KeepsRow none e = record { at = λ s h. (h, tt) }
  require-KeepsRow (some a) e = record { at = λ s h. (h, tt) }

  removal-KeepsRow : (deployment_id : String) → KeepsRow (State.remove_deployment deployment_id)
  unfolding State.remove_deployment
  removal-KeepsRow deployment_id = record { at = λ s h. (h, tt) }

  module _ (python : Python) (deploy_domain : String) where
    write_all-KeepsRow : KeepsRow (write_all python deploy_domain)
    unfolding write_all aliases
    write_all-KeepsRow = record { at = λ s h. (h, tt) }

    apply-KeepsRow : (command : Fields) → KeepsRow (apply python deploy_domain command)
    unfolding apply
    apply-KeepsRow command =
        search
          (
            plain_rules, save_alias-KeepsRow, revision_for_deployment-KeepsRow, require-KeepsRow,
            write_all-KeepsRow,
          )
          depth 16

    remove_deployment-KeepsRow :
        (deployment_id : String) → KeepsRow (remove_deployment python deploy_domain deployment_id)
    unfolding remove_deployment
    remove_deployment-KeepsRow deployment_id =
        search (plain_rules, removal-KeepsRow, write_all-KeepsRow) depth 8

  -- The same of the processor's own steps.
  abbrev pub Keeping : {A : Type 0} → Job A → Type 0
  Keeping m = Keeps (λ w. HasRow w.state) Anything m

  returns-Anything : {A : Type 0} (r : Result Trouble A) → Returns Anything r
  returns-Anything (ok a) = tt
  returns-Anything (err e) = tt

  act-Keeping : {A : Type 0} (a : Act) (answer : ℕ → Result Trouble A) → Keeping (act a answer)
  act-Keeping a answer = record { at = λ w h. (h, returns-Anything (answer w.step)) }

  on_state-Keeping : {A : Type 0} (m : Method A) → KeepsRow m → Keeping (on_state m)
  on_state-Keeping m k = record { at = λ w h. k.at w.state h }

  lift-Keeping : {A : Type 0} (r : Result Trouble A) → Keeping (lift r)
  lift-Keeping r = record { at = λ w h. (h, returns-Anything r) }

  stamp-Keeping : (outside : Outside) → Keeping (stamp outside)
  stamp-Keeping outside = record { at = λ w h. (h, tt) }

  item-Keeping : (v : Option Json) → Keeping (found_or_raise v)
  item-Keeping none = record { at = λ w h. (h, tt) }
  item-Keeping (some v) = record { at = λ w h. (h, tt) }

  attempt-Keeping :
      {A : Type 0} (outside : Outside) (m : Job A) → Keeping m → Keeping (attempt outside m)
  attempt-Keeping outside m k = record { at = λ w h. ((k.at w h).0, tt) }

  module _ (outside : Outside) (envelope : Envelope) where
    callback_envelope-Keeping :
        (suffix : String) (payload : Fields)
        → Keeping (callback_envelope outside envelope suffix payload)
    unfolding callback_envelope
    callback_envelope-Keeping suffix payload = search (plain_rules, stamp-Keeping) depth 8

    fail-Keeping : (refusal : Refusal) → Keeping (fail outside envelope refusal)
    unfolding fail
    fail-Keeping refusal =
        search (plain_rules, item-Keeping, callback_envelope-Keeping, act-Keeping) depth 16

    announce-Keeping :
        (digest : String) (instance : _) → Keeping (announce outside envelope digest instance)
    unfolding announce
    announce-Keeping digest instance =
        search
          (
            plain_rules, item-Keeping, stamp-Keeping, callback_envelope-Keeping, act-Keeping,
            on_state-Keeping, save_revision-KeepsRow,
          )
          depth 24

    settle-Keeping :
        (name digest : String) (answer : Result Trouble RuntimeInstance)
        → Keeping (settle outside envelope name digest answer)
    settle-Keeping name digest (ok instance) = announce-Keeping digest instance
    settle-Keeping name digest (err e) = search (plain_rules, act-Keeping, fail-Keeping) depth 12

    start-Keeping : (source : Fields) → Keeping (start outside envelope source)
    unfolding start
    start-Keeping source =
        search
          (plain_rules, lift-Keeping, item-Keeping, act-Keeping, attempt-Keeping, settle-Keeping)
          depth 24

    start_or_fail-Keeping :
        (screened : Result Refusal Fields) → Keeping (start_or_fail outside envelope screened)
    start_or_fail-Keeping (ok source) = start-Keeping source
    start_or_fail-Keeping (err refusal) = fail-Keeping refusal

    keep_logs-Keeping : (name : String) → Keeping (keep_logs outside envelope name)
    unfolding keep_logs
    keep_logs-Keeping name =
        search (plain_rules, act-Keeping, on_state-Keeping, save_runtime_logs-KeepsRow) depth 16

    ignore_runtime-Keeping : (e : Trouble) → Keeping (ignore_runtime outside e)
    ignore_runtime-Keeping e = search (plain_rules) depth 4

    cancellation-Keeping : Keeping (cancellation outside envelope)
    unfolding cancellation
    cancellation-Keeping =
        search
          (
            plain_rules, keep_logs-Keeping, ignore_runtime-Keeping, act-Keeping, on_state-Keeping,
            remove_deployment-KeepsRow, item-Keeping, callback_envelope-Keeping,
          )
          depth 24

    alias-Keeping : Keeping (alias outside envelope)
    unfolding alias
    alias-Keeping = search (plain_rules, on_state-Keeping, apply-KeepsRow) depth 16

    -- Whatever the event asks for, and however it ends, the row of a receipt is not touched.
    pub run-Keeping : Keeping (run outside envelope)
    unfolding run deployment
    run-Keeping =
        search (plain_rules, start_or_fail-Keeping, cancellation-Keeping, alias-Keeping) depth 16

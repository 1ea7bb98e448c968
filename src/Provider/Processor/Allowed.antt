-- ===== src/Provider/Processor/Allowed.antt =====
-- processor.py: which events start a container.
use layerrail_deploy.Prelude.{
  ℕ, suc, String, ◌≡◌, refl, Bool, false, Option, none, some, List, [], ◌∷◌, Bool-cases, inl, inr,
}
use layerrail_deploy.Effect.{Result, ok, err}
use layerrail_deploy.Effect.Keeps.{Keeps, Returns, Anything, Keeps-pure_any, plain_rules}
use layerrail_deploy.Json.{Json, null, bool, num, text, array, object, Fields, get}
use layerrail_deploy.Provider.State.{Trouble, ReceiptStatus, processing, completed, Method}
use layerrail_deploy.Provider.Local.{
  Envelope, Act, ensured, container_removed, logs_read, called_back, Outside, Local, Job, act,
  on_state, stamp, found_or_raise,
}
use layerrail_deploy.Provider.Checks.{Refusal, holds_text, inner_item, source_of, screened}
use layerrail_deploy.Provider.Processor.{
  callback_envelope, fail, deployment, start_or_fail, keep_logs, ignore_runtime, cancellation,
  alias, replay, replay_callback, run, process, process_received,
}

-- how many containers have been asked for
abbrev pub containers_asked : List Act → ℕ
containers_asked [] = 0
containers_asked (ensured name ∷ acts) = suc (containers_asked acts)
containers_asked (container_removed name ∷ acts) = containers_asked acts
containers_asked (logs_read name ∷ acts) = containers_asked acts
containers_asked (called_back callback ∷ acts) = containers_asked acts

module _ (n : ℕ) where
  abbrev Asks : {A : Type 0} → Job A → Type 0
  Asks m = Keeps (λ w. containers_asked w.acts ≡ n) Anything m

  returns-Anything : {A : Type 0} (r : Result Trouble A) → Returns Anything r
  returns-Anything (ok a) = tt
  returns-Anything (err e) = tt

  called_back-Asks :
      {A : Type 0} (callback : Fields) (answer : ℕ → Result Trouble A)
      → Asks (act (called_back callback) answer)
  called_back-Asks callback answer = record { at = λ w h. (h, returns-Anything (answer w.step)) }

  container_removed-Asks :
      {A : Type 0} (name : String) (answer : ℕ → Result Trouble A)
      → Asks (act (container_removed name) answer)
  container_removed-Asks name answer = record { at = λ w h. (h, returns-Anything (answer w.step)) }

  logs_read-Asks :
      {A : Type 0} (name : String) (answer : ℕ → Result Trouble A)
      → Asks (act (logs_read name) answer)
  logs_read-Asks name answer = record { at = λ w h. (h, returns-Anything (answer w.step)) }

  on_state-Asks : {A : Type 0} (m : Method A) → Asks (on_state m)
  on_state-Asks m = record { at = λ w h. (h, returns-Anything (m w.state).0) }

  stamp-Asks : (outside : Outside) → Asks (stamp outside)
  stamp-Asks outside = record { at = λ w h. (h, tt) }

  found_or_raise-Asks : (v : Option Json) → Asks (found_or_raise v)
  found_or_raise-Asks none = record { at = λ w h. (h, tt) }
  found_or_raise-Asks (some v) = record { at = λ w h. (h, tt) }

  ruleset own_rules = (
    plain_rules, called_back-Asks, container_removed-Asks, logs_read-Asks, on_state-Asks,
    stamp-Asks, found_or_raise-Asks,
  )

  module _ (outside : Outside) (envelope : Envelope) where
    callback_envelope-Asks :
        (suffix : String) (payload : Fields)
        → Asks (callback_envelope outside envelope suffix payload)
    unfolding callback_envelope
    callback_envelope-Asks suffix payload = search (own_rules) depth 8

    fail-Asks : (refusal : Refusal) → Asks (fail outside envelope refusal)
    unfolding fail
    fail-Asks refusal = search (own_rules, callback_envelope-Asks) depth 16

    keep_logs-Asks : (name : String) → Asks (keep_logs outside envelope name)
    unfolding keep_logs
    keep_logs-Asks name = search (own_rules) depth 8

    ignore_runtime-Asks : (e : Trouble) → Asks (ignore_runtime outside e)
    ignore_runtime-Asks e = search (own_rules) depth 4

    cancellation-Asks : Asks (cancellation outside envelope)
    unfolding cancellation
    cancellation-Asks =
        search (own_rules, callback_envelope-Asks, keep_logs-Asks, ignore_runtime-Asks) depth 24

    alias-Asks : Asks (alias outside envelope)
    unfolding alias
    alias-Asks = search (own_rules) depth 8

    replay-Asks : (callback : Option Json) → Asks (replay outside callback)
    replay-Asks none = Keeps-pure_any _ _
    replay-Asks (some null) = Keeps-pure_any _ _
    replay-Asks (some (bool b)) = Keeps-pure_any _ _
    replay-Asks (some (num k)) = Keeps-pure_any _ _
    replay-Asks (some (text s)) = Keeps-pure_any _ _
    replay-Asks (some (array l)) = Keeps-pure_any _ _
    replay-Asks (some (object d)) = search (own_rules) depth 8

    replay_callback-Asks : (result : Option Fields) → Asks (replay_callback outside result)
    replay_callback-Asks none = Keeps-pure_any _ _
    replay_callback-Asks (some result) = replay-Asks (get "callback" result)

    abbrev names_image : Bool
    names_image =
        holds_text (inner_item "reference" (get "source" envelope.payload))
          outside.allowed_image_reference

    refused-Asks :
        (source : Option Json)
        → holds_text (inner_item "reference" source) outside.allowed_image_reference ≡ false
        → Asks (
            start_or_fail outside envelope
              (screened outside.allowed_image_reference envelope.payload (source_of source)))
    refused-Asks none other = fail-Asks _
    refused-Asks (some null) other = fail-Asks _
    refused-Asks (some (bool b)) other = fail-Asks _
    refused-Asks (some (num k)) other = fail-Asks _
    refused-Asks (some (text s)) other = fail-Asks _
    refused-Asks (some (array l)) other = fail-Asks _
    refused-Asks (some (object d)) other = elim (Bool-cases (holds_text (get "type" d) "oci")) [
      | inl oci ↦ rw (oci, other) (fail-Asks _)
      | inr git ↦ rw git (fail-Asks _)
    ]

    deployment-Asks : names_image ≡ false → Asks (deployment outside envelope)
    unfolding deployment
    deployment-Asks other = refused-Asks (get "source" envelope.payload) other

    run-Asks : names_image ≡ false → Asks (run outside envelope)
    unfolding run
    run-Asks other = search (own_rules, deployment-Asks, cancellation-Asks, alias-Asks) depth 12

    process_received-Asks :
        (received : ReceiptStatus × Option Fields)
        → names_image ≡ false
        → Asks (process_received outside envelope received)
    unfolding process_received
    process_received-Asks (completed, result) other =
        search (own_rules, replay_callback-Asks) depth 8
    process_received-Asks (processing, result) other = search (own_rules, run-Asks) depth 8

    process-Asks : names_image ≡ false → Asks (process outside envelope)
    unfolding process
    process-Asks other = search (own_rules, process_received-Asks) depth 12

-- An event whose source does not name the allowed image asks for no container, however its
-- handling ends.
pub process_other_image :
    (outside : Outside) (envelope : Envelope) (w : Local)
    → holds_text
        (inner_item "reference" (get "source" envelope.payload))
        outside.allowed_image_reference
      ≡ false
    → containers_asked (process outside envelope w).1.acts ≡ containers_asked w.acts
process_other_image outside envelope w other =
    ((process-Asks (containers_asked w.acts) outside envelope other).at w refl).0

-- ===== src/Build/Reconciler/Reports.antt =====
-- controller.py: the steps of `_process_result` that report no build as completed.
use layerrail_deploy.Prelude.{
  ℕ, suc, String, ◌≡◌, refl, ◌==◌, Bool, false, Option, none, some, List, [], ◌∷◌, arith,
  if◌then◌else◌,
}
use layerrail_deploy.Effect.{Result, ok, err}
use layerrail_deploy.Effect.Keeps.{Returns, Anything, Keeps, plain_rules}
use layerrail_deploy.Json.{Json, Fields, get}
use layerrail_deploy.Build.Contracts.{Fault}
use layerrail_deploy.Build.Store
use layerrail_deploy.Build.Store.{Status, Operation}
use layerrail_deploy.Build.World.{
  ScanResult, Call, event_sent, revoked, Services, Settings, World, ask, on_store, now,
  register_credential,
}
use layerrail_deploy.Build.Commands.{revoke_optional}
use layerrail_deploy.Build.Reconciler.{required, cleanup, end_build}
use layerrail_deploy.Build.Reconciler.Processing.{present, is_true}
use layerrail_deploy.Build.Reconciler.Results.{report_failure, report_scan_failure}

abbrev pub is_completed : Call → Bool
is_completed (event_sent b event) = event.status == "completed"
is_completed _ = false

-- how many builds have been reported as completed
abbrev pub completed_sent : List Call → ℕ
completed_sent [] = 0
completed_sent (c ∷ calls) = let n = completed_sent calls in if is_completed c then suc n else n

abbrev pub Sent : ℕ → World → Type 0
Sent n w = completed_sent w.calls ≡ n

-- the stored scan, if there is one, has not passed
abbrev pub Unpassed : Option Fields → Type 0
Unpassed none = Unit
Unpassed (some d) = (v : Json) → get "passed" d ≡ some v → is_true v ≡ false

pub any_value : {A : Type 0} (r : Result Fault A) → Returns Anything r
any_value (ok a) = tt
any_value (err e) = tt

module _ (n : ℕ) where
  pub ask-Keeps :
      {A : Type 0} (c : Call) (answer : ℕ → Result Fault A)
      → is_completed c ≡ false
      → Keeps (Sent n) Anything (ask c answer)
  ask-Keeps c answer other = record { at = λ w p. (rw other p, any_value (answer w.step)) }

  pub on_store-Keeps : {A : Type 0} (m : Store.Action A) → Keeps (Sent n) Anything (on_store m)
  on_store-Keeps m = record { at = λ w p. (p, any_value (m w.store).0) }

  module _ (env : Services) (settings : Settings) where
    pub now-Keeps : Keeps (Sent n) Anything (now env)
    now-Keeps = record { at = λ w p. (p, tt) }

    pub register-Keeps :
        (repository : String) → Keeps (Sent n) Anything (register_credential env repository)
    register-Keeps repository = record { at = λ w p. (ground arith, any_value _) }

    pub revoke_optional-Keeps :
        (c : Option String) → Keeps (Sent n) Anything (revoke_optional env settings c)
    revoke_optional-Keeps none = search plain_rules
    revoke_optional-Keeps (some id) = ask-Keeps (revoked id) env.revoke refl

    pub cleanup-Keeps : (o : Operation) → Keeps (Sent n) Anything (cleanup env settings o)
    unfolding cleanup
    cleanup-Keeps o = search (plain_rules, ask-Keeps, revoke_optional-Keeps)

    pub end_build-Keeps :
        (o : Operation) (status : String) (result : Fields)
        → Keeps (Sent n) Anything (end_build env settings o status result)
    unfolding end_build
    end_build-Keeps o status result = search (plain_rules, cleanup-Keeps, now-Keeps, on_store-Keeps)

    pub report_failure-Keeps :
        (o : Operation) (log_ref : Fields) (logs : List String)
        → Keeps (Sent n) Anything (report_failure env settings o log_ref logs)
    unfolding report_failure
    report_failure-Keeps o log_ref logs = search (plain_rules, ask-Keeps, end_build-Keeps)

    pub present-Keeps :
        {A : Type 0} (key : String) (o : Option A) → Keeps (Sent n) Anything (present key o)
    present-Keeps key none = search plain_rules
    present-Keeps key (some v) = search plain_rules

    pub required-Keeps :
        (key : String) (o : Option Json) → Keeps (Sent n) Anything (required env settings key o)
    required-Keeps key none = search plain_rules
    required-Keeps key (some v) = search plain_rules

    pub report_scan_failure-Keeps :
        (o : Operation) (scan : ScanResult) (refs log_ref : Fields) (logs : List String)
        → Keeps (Sent n) Anything (report_scan_failure env settings o scan refs log_ref logs)
    unfolding report_scan_failure
    report_scan_failure-Keeps o scan refs log_ref logs =
        search (plain_rules, ask-Keeps, end_build-Keeps, present-Keeps) depth 8

-- ===== src/Provider/Processor/Replay.antt =====
-- processor.py: an event that is delivered again.
use layerrail_deploy.Prelude.{
  ◌≡◌, refl, ◌==◌, eq_refl, true, inl, inr, Option, none, some, arith, first, Bool-cases,
  Option-cases,
}
use layerrail_deploy.Effect.{ok, pure, ◌>>◌, Result-cases}
use layerrail_deploy.Json.{Json, null, bool, num, text, array, object, Fields, get}
use layerrail_deploy.Provider.State.{
  ReceiptStatus, processing, completed, Receipt, has_event, complete, completed_with,
}
use layerrail_deploy.Provider.Receipts.{
  receive-new, receive-known, receive-conflict, first-completed, new_receipt,
}
use layerrail_deploy.Provider.Local.{Envelope, Outside, Local}
use layerrail_deploy.Provider.Processor.{run, process, process_received, replay, replay_callback}
use layerrail_deploy.Provider.Processor.Keeping.{HasRow, run-Keeping}

replay-state :
    (outside : Outside) (callback : Option Json) (u : Local)
    → (replay outside callback u).1.state ≡ u.state
replay-state outside none u = refl
replay-state outside (some null) u = refl
replay-state outside (some (bool b)) u = refl
replay-state outside (some (num n)) u = refl
replay-state outside (some (text s)) u = refl
replay-state outside (some (array l)) u = refl
replay-state outside (some (object d)) u = ground (arith, Result-cases (outside.callback u.step))

replay_callback-state :
    (outside : Outside) (result : Option Fields) (u : Local)
    → (replay_callback outside result u).1.state ≡ u.state
replay_callback-state outside none u = refl
replay_callback-state outside (some result) u = replay-state outside (get "callback" result) u

module _ (outside : Outside) (envelope : Envelope) (r : Option Fields) (v : Local) where
  -- the receipt that a delivery leaves when it has returned `r`
  pub record Done (row : Receipt) : Type 0 where
    pub stored : first (has_event envelope.event_id) v.state.events ≡ some row
    pub same_payload : (row.payload_digest == outside.hash envelope.value) ≡ true
    pub status : row.status ≡ completed
    pub result : row.result ≡ r

  run_once :
      (row : Receipt) (x : Option Fields) (u : Local)
      → HasRow envelope.event_id row u.state
      → (row.payload_digest == outside.hash envelope.value) ≡ true
      → process_received outside envelope (processing, x) u ≡ (ok r, v)
      → (done : Receipt) × Done done
  unfolding process_received complete
  run_once row x u stored digest h = elim (Result-cases (run outside envelope u).0) [
    | inl (answer, returned) ↦
        let kept = ((run-Keeping envelope.event_id row outside envelope).at u stored).0 in
        let h₁ = rw returned at h in
        (
          completed_with answer row,
          record {
            stored = ground (
              arith,
              h₁,
              first-completed envelope.event_id answer (run outside envelope u).1.state.events row
                  kept,
            );
            same_payload = digest;
            status = refl;
            result = ground (arith, h₁);
          },
        )
    | inr (e, raised) ↦
        let h₁ = rw raised at h in
        (
          row,
          record {
            stored = ground (arith, h₁);
            same_payload = digest;
            status = ground (arith, h₁);
            result = ground (arith, h₁);
          },
        )
  ]

  received_once :
      (status : ReceiptStatus) (x : Option Fields) (row : Receipt) (u : Local)
      → row.status ≡ status
      → row.result ≡ x
      → HasRow envelope.event_id row u.state
      → (row.payload_digest == outside.hash envelope.value) ≡ true
      → process_received outside envelope (status, x) u ≡ (ok r, v)
      → (done : Receipt) × Done done
  unfolding process_received
  received_once completed x row u status result stored digest h = (
    row,
    record {
      stored = ground (arith, replay_callback-state outside x u);
      same_payload = digest;
      status = status;
      result = ground (arith, replay_callback-state outside x u);
    },
  )
  received_once processing x row u status result stored digest h = run_once row x u stored digest h

  delivered : (w : Local) → process outside envelope w ≡ (ok r, v) → (done : Receipt) × Done done
  unfolding process
  delivered w h = elim (Option-cases (first (has_event envelope.event_id) w.state.events)) [
    | inl missing ↦
        let h₁ =
          rw (receive-new outside.hash envelope.event_id envelope.value w.state missing) at h in
        received_once processing none
          (new_receipt outside.hash envelope.event_id envelope.value w.state) _ refl refl
          (rw (eq_refl envelope.event_id)) (eq_refl (outside.hash envelope.value)) h₁
    | inr (row, found) ↦ elim (Bool-cases (row.payload_digest == outside.hash envelope.value)) [
      | inl same ↦
          let h₁ =
            rw (receive-known outside.hash envelope.event_id envelope.value w.state row found same)
              at h in
          received_once row.status row.result row w refl refl found same h₁
      | inr differs ↦
          let h₁ =
            rw
              (receive-conflict outside.hash envelope.event_id envelope.value w.state row found
                differs)
              at h in
          (row, ground (arith, h₁))
    ]
  ]

-- An event whose handling has returned a result and that is delivered again is not handled again:
-- its callback, if it had one, is sent once more, and the same result is returned.
pub process_replay :
    (outside : Outside) (envelope : Envelope) (w v : Local) (r : Option Fields)
    → process outside envelope w ≡ (ok r, v)
    → process outside envelope v ≡ (do replay_callback outside r; pure r) v
unfolding process process_received
process_replay outside envelope w v r h =
    let (row, done) = delivered outside envelope r v w h in
    rw
      (
        receive-known outside.hash envelope.event_id envelope.value v.state row done.stored
            done.same_payload,
        done.status,
        done.result,
      )
      refl

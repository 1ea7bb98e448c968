-- ===== src/Provider/Receipts.antt =====
-- state.py: receipts of events, revisions, and the logs of tenants.
use layerrail_deploy.Prelude.{
  ℕ, String, ◌≡◌, ◌≢◌, refl, sym, ◌∙◌, ◌==◌, eq_iff, eq_refl, Bool, true, false, Option, none, some,
  List, [], ◌∷◌, arith, first, upsert, change, first-upsert, first-upsert_other, first-upsert_lone,
  first-upsert_at, not, ltb, length, ◌||◌, UniqueBy, ◌&&◌, Option-cases, Bool-cases, inl, inr,
}
use layerrail_deploy.Effect.{ok, err, succeeded}
use layerrail_deploy.Json.{Fields}
use layerrail_deploy.Provider.State.{
  event_conflict, ReceiptStatus, processing, completed, Receipt, Revision, LogEntry, LogSnapshot,
  State, has_event, receive, receive_row, complete, completed_with, of_deployment, save_revision,
  revision_for_deployment, logs_of, logs_for, save_runtime_logs, runtime_logs,
}

not_equal : (a b : String) → a ≢ b → (a == b) ≡ false
not_equal a b ne = ground (arith, eq_iff a b)

pub first-completed :
    (event_id : String) (result : Fields) (rows : List Receipt) (row : Receipt)
    → first (has_event event_id) rows ≡ some row
    → first (has_event event_id) (change (has_event event_id) (completed_with result) rows)
      ≡ some (completed_with result row)
first-completed event_id result [] row h = ground arith
first-completed event_id result (r ∷ rows) row h =
    ground (arith, first-completed event_id result rows row)

module _ (hash : Fields → String) (event_id : String) (envelope : Fields) (s : State) where
  abbrev pub new_receipt : Receipt
  new_receipt = record {
    event_id = event_id;
    payload_digest = hash envelope;
    status = processing;
    result = none;
  }

  pub receive-new :
      first (has_event event_id) s.events ≡ none
      → receive hash event_id envelope s
        ≡ (ok (processing, none), record s { events = new_receipt ∷ s.events })
  unfolding receive receive_row
  receive-new missing = rw missing refl

  pub receive-known :
      (row : Receipt)
      → first (has_event event_id) s.events ≡ some row
      → (row.payload_digest == hash envelope) ≡ true
      → receive hash event_id envelope s ≡ (ok (row.status, row.result), s)
  unfolding receive receive_row
  receive-known row found same = rw (found, same) refl

  pub receive-conflict :
      (row : Receipt)
      → first (has_event event_id) s.events ≡ some row
      → (row.payload_digest == hash envelope) ≡ false
      → receive hash event_id envelope s
        ≡ (err (event_conflict "event payload conflicts with its receipt"), s)
  unfolding receive receive_row
  receive-conflict row found differs = rw (found, differs) refl

-- What `receive` and `complete` of an event leave, whether its receipt is new or known.
receive_completed-row :
    (hash : Fields → String) (event_id : String) (envelope result : Fields) (s : State)
    (got : ReceiptStatus × Option Fields)
    → (receive hash event_id envelope s).0 ≡ ok got
    → (row : Receipt) × (first
          (has_event event_id)
          (complete event_id result (receive hash event_id envelope s).1).1.events
        ≡ some (completed_with result row))
      × (row.payload_digest ≡ hash envelope)
unfolding complete
receive_completed-row hash event_id envelope result s got h =
    elim (Option-cases (first (has_event event_id) s.events)) [
      | inl missing ↦ (
        new_receipt hash event_id envelope s,
        rw (receive-new hash event_id envelope s missing, eq_refl event_id, eq_refl event_id) refl,
        refl,
      )
      | inr (row, found) ↦ elim (Bool-cases (row.payload_digest == hash envelope)) [
        | inl same ↦ (
          row,
          rw (receive-known hash event_id envelope s row found same)
              (first-completed event_id result s.events row found),
          (eq_iff _ _).0 same,
        )
        | inr differs ↦ (
          row,
          ground (arith, receive-conflict hash event_id envelope s row found differs),
          ground (arith, receive-conflict hash event_id envelope s row found differs),
        )
      ]
    ]

-- An event that has been received and then completed is received again as completed, with the
-- result that was saved, and the state is not changed; with another payload it is a conflict.
receive_completed :
    (hash : Fields → String) (event_id : String) (envelope other result : Fields) (s : State)
    (got : ReceiptStatus × Option Fields)
    → (receive hash event_id envelope s).0 ≡ ok got
    → let t = (complete event_id result (receive hash event_id envelope s).1).1 in
      (receive hash event_id envelope t ≡ (ok (completed, some result), t))
      × (hash other ≢ hash envelope
          → receive hash event_id other t
            ≡ (err (event_conflict "event payload conflicts with its receipt"), t))
receive_completed hash event_id envelope other result s got h =
    let (row, found, digest) = receive_completed-row hash event_id envelope result s got h in
    let t = (complete event_id result (receive hash event_id envelope s).1).1 in
    (
      receive-known hash event_id envelope t (completed_with result row) found
          (rw digest (eq_refl _)),
      λ ne.
          receive-conflict hash event_id other t (completed_with result row) found
            (rw digest (not_equal _ _ (λ e. ne (sym e)))),
    )

-- A revision that is saved is the one of its deployment, and the others' are not changed.
save_revision_lookup :
    (new : Revision) (other : String) (s t : State)
    → save_revision new s ≡ (ok tt, t)
    → ((revision_for_deployment new.deployment_id t).0 ≡ ok (some new))
      × (other ≢ new.deployment_id
          → (revision_for_deployment other t).0 ≡ (revision_for_deployment other s).0)
unfolding save_revision revision_for_deployment
save_revision_lookup new other s t h =
    let apart : other ≢ new.deployment_id
        → (d : String) → (d == new.deployment_id) ≡ true
        → (d == other) ≡ false =
      λ ne d same. not_equal d other (λ e. ne (sym e ∙ (eq_iff d new.deployment_id).0 same)) in
    (
      ground (
        arith,
        first-upsert (of_deployment new.deployment_id) new s.revisions,
        eq_refl new.deployment_id,
      ),
      λ ne. ground (
        arith,
        not_equal new.deployment_id other (λ e. ne (sym e)),
        first-upsert_other (of_deployment new.deployment_id) (of_deployment other) new s.revisions
            (λ x. apart ne x.deployment_id),
      ),
    )

abbrev small : (List LogEntry → ℕ) → LogSnapshot → Bool
small size new = not (ltb 200 (length new.entries) || ltb 1048576 (size new.entries))

save_runtime_logs-done :
    (size : List LogEntry → ℕ) (new : LogSnapshot) (s t : State)
    → save_runtime_logs size new s ≡ (ok tt, t)
    → (t.logs ≡ upsert (logs_of new.deployment_id) new s.logs) × (small size new ≡ true)
unfolding save_runtime_logs
save_runtime_logs-done size new s t h = elim (Bool-cases (small size new)) [
  | inl fits ↦ ground (arith, fits)
  | inr large ↦ ground (arith, large)
]

save_runtime_logs-refused :
    (size : List LogEntry → ℕ) (new row : LogSnapshot) (s : State)
    → first (logs_of new.deployment_id) s.logs ≡ some row
    → (row.organization_id == new.organization_id) ≡ false
    → (succeeded (save_runtime_logs size new s).0 ≡ false) × ((save_runtime_logs size new s).1 ≡ s)
unfolding save_runtime_logs
save_runtime_logs-refused size new row s found other = elim (Bool-cases (small size new)) [
  | inl fits ↦ rw (fits, found, other) (refl, refl)
  | inr large ↦ rw large (refl, refl)
]

-- If the deployment has one row of logs at most, then logs that are saved are read by their tenant
-- and not by another one, and any logs of the same deployment that another tenant then saves,
-- whatever their entries and their size, are refused, and nothing is written.
pub save_runtime_logs_tenant :
    (size : List LogEntry → ℕ) (new foreign : LogSnapshot) (s t : State)
    → UniqueBy (λ a b. logs_of new.deployment_id a && logs_of new.deployment_id b) s.logs
    → save_runtime_logs size new s ≡ (ok tt, t)
    → foreign.deployment_id ≡ new.deployment_id
    → foreign.organization_id ≢ new.organization_id
    → ((runtime_logs new.deployment_id new.organization_id t).0 ≡ ok (some new))
      × ((runtime_logs new.deployment_id foreign.organization_id t).0 ≡ ok none)
      × (succeeded (save_runtime_logs size foreign t).0 ≡ false)
      × ((save_runtime_logs size foreign t).1 ≡ t)
unfolding runtime_logs
save_runtime_logs_tenant size new foreign s t one h same apart =
    let (logs, fits) = save_runtime_logs-done size new s t h in
    let of = logs_of new.deployment_id in
    let differs = not_equal new.organization_id foreign.organization_id (λ e. apart (sym e)) in
    let refused =
      save_runtime_logs-refused size foreign new t
        (rw (same, logs) (first-upsert of new s.logs (eq_refl new.deployment_id))) differs in
    (
      rw
          (
            logs,
            first-upsert_at of (logs_for new.deployment_id new.organization_id) new s.logs
                (λ x. ground arith)
                (ground (arith, eq_refl new.deployment_id, eq_refl new.organization_id)),
          )
          refl,
      rw
          (
            logs,
            first-upsert_lone of (logs_for new.deployment_id foreign.organization_id) new s.logs
                (λ x. ground arith) one (ground (arith, differs)),
          )
          refl,
      refused.0,
      refused.1,
    )

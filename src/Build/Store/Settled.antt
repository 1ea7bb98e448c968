-- ===== src/Build/Store/Settled.antt =====
-- The first result of a build is the only one that is ever stored.
use layerrail_deploy.Prelude.{
  ℕ, String, ◌≡◌, refl, ap, subst, ◌==◌, Bool, true, false, not, Option, none, some, List, [], ◌∷◌,
  All, arith, ◌∙◌, Option-cases, Bool-cases, inl, inr, is_some,
}
use layerrail_deploy.Effect.{ok}
use layerrail_deploy.Json.{Fields}
use layerrail_deploy.Build.Contracts.{WorkerResult, safe_value}
use layerrail_deploy.Build.Store.{
  Status, preparing, running, result_pending, completed, failed, parse_status, Operation, Store,
  find, update, count_rows, is_running,
}
use layerrail_deploy.Build.Store.Methods
use layerrail_deploy.Build.Store.Methods.{status_in, store_result, stored_value, result_saved, runs}
use layerrail_deploy.Build.Store.Rows.{IsKeyed, count_rows-found}
use layerrail_deploy.Build.Store.Writes.{save_result-cases}
use layerrail_deploy.Build.Store.History.{
  Method, register, set_running, save_result, observe_completion, merge_result, mark, Edge, after,
  history, after_row,
}
use layerrail_deploy.Build.Store.Keys.{history-IsKeyed}
use layerrail_deploy.Build.Store.Results.{settled}

-- Does a build of the status still wait for its first result?
abbrev pub is_open : Status → Bool
is_open status = status_in status (preparing ∷ running ∷ [])

abbrev opens : Option Status → Bool
opens none = false
opens (some status) = is_open status

-- The call is no `mark` with `preparing` or `running`.
abbrev pub keeps_closed : Method → Bool
keeps_closed (mark build status result now) = not (opens (parse_status status))
keeps_closed _ = true

Edge-closed :
    (m : Method) (a b : Status)
    → keeps_closed m ≡ true
    → is_open a ≡ false
    → Edge m a b
    → is_open b ≡ false
Edge-closed (register command now) a b k closed e = ground (arith, closed, e)
Edge-closed (set_running build credential now) a b k closed e = ground (arith, closed, e)
Edge-closed (save_result result now) a b k closed e = ground (arith, closed, e)
Edge-closed (observe_completion build now) a b k closed e = ground (arith, closed, e)
Edge-closed (merge_result build values) a b k closed e = ground (arith, closed, e)
Edge-closed (mark build status result now) a b k closed (inl same) = ground (arith, closed, same)
Edge-closed (mark build status result now) a b k closed (inr known) =
    marked_closed (parse_status status) b k known
  where
    marked_closed :
        (o : Option Status) (b : Status) → not (opens o) ≡ true → o ≡ some b → is_open b ≡ false
    marked_closed none b k h = ground (arith, h)
    marked_closed (some c) b k h = ground (arith, k, h)

module _ (hash : Fields → String) where
  history-closed :
      (ms : List Method) (s : Store) (c : String) (o : Operation)
      → All (λ m. keeps_closed m ≡ true) ms
      → find c s.rows ≡ some o
      → is_open o.status ≡ false
      → (p : Operation) × (find c (history hash ms s).rows ≡ some p) × (is_open p.status ≡ false)
  unfolding history
  history-closed [] s c o kept found closed = (o, found, closed)
  history-closed (m ∷ ms) s c o (one, ones) found closed =
      let (p, there, row) = after_row hash s c o found m in
      history-closed ms (after hash m s) c p ones there
        (Edge-closed m o.status p.status one closed row.1)

  update-closed :
      (b : String) (safe : Fields) (now : ℕ) (rows : List Operation)
      → count_rows b runs rows ≡ 0
      → update b (result_saved safe now) rows ≡ rows
  unfolding update count_rows
  update-closed b safe now [] none_runs = refl
  update-closed b safe now (o ∷ rows) none_runs = elim (Bool-cases (o.build_id == b)) [
    | inr other ↦ ground (arith, other, none_runs, update-closed b safe now rows)
    | inl own ↦ elim (Bool-cases (is_running o.status)) [
      | inl runs_ ↦ absurd (ground (arith, own, runs_, none_runs))
      | inr idle ↦ ground (arith, own, idle, none_runs, update-closed b safe now rows)
    ]
  ]

  none_run :
      (r : WorkerResult) (rows : List Operation) (o : Operation)
      → IsKeyed rows
      → find r.build_id rows ≡ some o
      → is_open o.status ≡ false
      → count_rows r.build_id runs rows ≡ 0
  none_run r rows o keyed found closed =
      ground (arith, closed, count_rows-found r.build_id runs rows o keyed found)

  store_result-closed :
      (r : WorkerResult) (digest : String) (now : ℕ) (s : Store) (o : Operation)
      → IsKeyed s.rows
      → find r.build_id s.rows ≡ some o
      → is_open o.status ≡ false
      → (store_result r digest now s).1.rows ≡ s.rows
  unfolding store_result
  store_result-closed r digest now s o keyed found closed =
      let idle = none_run r s.rows o keyed found closed in
      let safe = stored_value (safe_value r) digest (is_some r.static_archive) now in
      elim (Option-cases r.static_archive) [
        | inl bare ↦ ground (arith, bare, idle, update-closed r.build_id safe now s.rows idle)
        | inr (body, held) ↦
            ground (arith, held, idle, update-closed r.build_id safe now s.rows idle)
      ]

  save_result-closed :
      (r : WorkerResult) (now : ℕ) (s : Store) (o : Operation)
      → IsKeyed s.rows
      → find r.build_id s.rows ≡ some o
      → is_open o.status ≡ false
      → (Methods.save_result hash r now s).1.rows ≡ s.rows
  save_result-closed r now s o keyed found closed = elim (save_result-cases hash r now s) [
    | inl same ↦ ap (λ (v : Store). v.rows) same
    | inr first ↦
        ap (λ (v : Store). v.rows) first ∙ store_result-closed r _ now s o keyed found closed
  ]

  waits :
      (status : Status)
      → status_in status (result_pending ∷ completed ∷ failed ∷ []) ≡ true
      → is_open status ≡ false
  waits status h = ground (arith, h)

  saved-IsKeyed :
      (r : WorkerResult) (now : ℕ) (s t : Store) (o : Operation) (fresh : Bool)
      → IsKeyed s.rows
      → Methods.save_result hash r now s ≡ (ok (o, fresh), t)
      → IsKeyed t.rows
  unfolding history after
  saved-IsKeyed r now s t o fresh keyed accepted =
      subst (λ (v : Store). IsKeyed v.rows) (ap (λ x. x.1) accepted)
        (history-IsKeyed hash (save_result r now ∷ []) s keyed)

  -- The first result wins: once a result of a build is accepted, no result of the build, the same or
  -- another, changes a row again, at any later time and after any calls of the store's methods but
  -- a `mark` with `preparing` or `running`; the archive that such a result writes is no row.
  pub save_result_first_wins :
      (r later : WorkerResult) (now then_now : ℕ) (s t : Store) (o : Operation) (fresh : Bool)
      (ms : List Method)
      → IsKeyed s.rows
      → Methods.save_result hash r now s ≡ (ok (o, fresh), t)
      → All (λ m. keeps_closed m ≡ true) ms
      → later.build_id ≡ r.build_id
      → (Methods.save_result hash later then_now (history hash ms t)).1.rows
        ≡ (history hash ms t).rows
  save_result_first_wins r later now then_now s t o fresh ms keyed accepted kept same =
      let first_result = settled hash r now s t o fresh keyed accepted in
      let (p, found, closed) =
        history-closed ms t r.build_id o kept first_result.row
          (waits o.status first_result.status) in
      save_result-closed later then_now (history hash ms t) p
        (history-IsKeyed hash ms t (saved-IsKeyed r now s t o fresh keyed accepted)) (rw same found)
        closed

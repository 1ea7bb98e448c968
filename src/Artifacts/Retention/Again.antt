-- ===== src/Artifacts/Retention/Again.antt =====
-- A reconciliation that is asked for again returns what it returned, and deletes nothing more.
use layerrail_deploy.Prelude.{
  ℕ, String, ◌≡◌, refl, eq_refl, true, false, ◌&&◌, not, Option, none, some, List, [], ◌∷◌, one_of,
  leb, any, length, ◌≤◌, arith, Option-cases, inl, inr, ap, ◌∙◌,
}
use layerrail_deploy.Effect.{ok}
use layerrail_deploy.Effect.Success.{pair_of, and_then-ok, guard-ok}
use layerrail_deploy.Json.{Fields, get}
use layerrail_deploy.Registry.Credentials.{sorted_set}
use layerrail_deploy.Artifacts.Store.{ObjectValue, IsStore}
use layerrail_deploy.Artifacts.Paths.{uuid}
use layerrail_deploy.Artifacts.Gateway.{Gateway, put_immutable, parse_json, is_text}
use layerrail_deploy.Artifacts.Gateway.Ordered.{IsCodec, is_ordered, is_ordered_items}
use layerrail_deploy.Artifacts.Gateway.Immutable.{Holds, put_immutable-Holds}
use layerrail_deploy.Artifacts.Gateway.Manifest.{parse_json-Holds}
use layerrail_deploy.Artifacts.Retention.{
  Retention, Moment, group_objects, sorted_groups, delete_groups, revisions_prefix, retention_key,
  texts, all_uuids, cutoff_of, store_result, reconciled_before, reconcile_new, reconcile_listed,
  reconcile_over, reconcile_sets, reconcile, result_value, request_value,
}

texts-ordered : (l : List String) → is_ordered_items (texts l) ≡ true
texts-ordered [] = refl
texts-ordered (s ∷ l) = texts-ordered l

module _ {S : Type 0} (g : Gateway S) (laws : IsStore g.objects) (codec : IsCodec g.platform) where
  module _ (reconciliation organization : String) (retained candidates : List String) where
    result_value-ordered :
        (cutoff : ℕ) (digest : String) (now : ℕ) (deleted : List String)
        → is_ordered (
            result_value g reconciliation organization retained candidates cutoff digest now
              deleted)
          ≡ true
    result_value-ordered cutoff digest now deleted =
        rw (texts-ordered retained, texts-ordered candidates, texts-ordered deleted) refl

    reconciled_before-false :
        (existing : ObjectValue) (digest : String) (m : Fields) (s t : S)
        → reconciled_before g existing digest s ≡ (ok (m, true), t)
        → ⊥
    unfolding reconciled_before
    reconciled_before-false existing digest m s t h =
        let (d, parsed, h₁) = and_then-ok (m, true) t (parse_json g existing) _ s h in
        let (same, h₂) = guard-ok (m, true) t (is_text digest (get "request_digest" d)) _ _ s h₁ in
        ground arith

    -- A new reconciliation leaves its result in the store.
    reconcile_new-Holds :
        (cutoff : ℕ) (digest : String) (now : ℕ) (m : Fields) (s t : S)
        → reconcile_new g reconciliation organization retained candidates cutoff digest now s
          ≡ (ok (m, true), t)
        → (deleted : List String) × (m
            ≡ result_value g reconciliation organization retained candidates cutoff digest now
                deleted)
          × Holds g g.evidence_bucket
              (retention_key organization reconciliation)
              (g.platform.dumps m)
              t
    unfolding reconcile_new reconcile_listed store_result
    reconcile_new-Holds cutoff digest now m s t h =
        let loop =
          delete_groups g retained cutoff
            (sorted_groups (
              group_objects (revisions_prefix organization) candidates
                (g.objects.list g.static_bucket (revisions_prefix organization) s) []))
            s in
        let (deleted, looped, h₁) = and_then-ok (m, true) t loop.0 _ loop.1 h in
        let result =
          result_value g reconciliation organization retained candidates cutoff digest now
            deleted in
        let put =
          put_immutable g g.evidence_bucket (retention_key organization reconciliation)
            (g.platform.dumps result) "application/json" loop.1 in
        let (fresh, made, h₂) = and_then-ok (m, true) t put.0 _ put.1 h₁ in
        let same : m ≡ result = ground arith in
        (
          deleted,
          same,
          rw (same, ← ap (λ x. x.1) h₂)
              (put_immutable-Holds g laws g.evidence_bucket
                (retention_key organization reconciliation) (g.platform.dumps result)
                "application/json" loop.1 put.1 fresh (pair_of put made)),
        )

    abbrev request_digest : ℕ → String
    request_digest cutoff =
        g.platform.digest (
          g.platform.dumps (request_value g reconciliation organization retained candidates cutoff))

    reconciled_before-Holds :
        (cutoff now : ℕ) (digest : String) (deleted : List String) (value : ObjectValue) (t : S)
        → parse_json g value
          ≡ ok (
              result_value g reconciliation organization retained candidates cutoff digest now
                deleted)
        → reconciled_before g value digest t ≡ (
          ok (
            result_value g reconciliation organization retained candidates cutoff digest now
                deleted,
            false,
          ),
          t,
        )
    unfolding reconciled_before get
    reconciled_before-Holds cutoff now digest deleted value t parsed =
        rw (parsed, eq_refl digest) refl

    reconcile_over-again :
        (cutoff now later : ℕ) (digest : String) (existing : Option ObjectValue) (m : Fields)
        (s t : S)
        → reconcile_over g existing reconciliation organization retained candidates cutoff digest
            now s
          ≡ (ok (m, true), t)
        → reconcile_over g
            (g.objects.get g.evidence_bucket (retention_key organization reconciliation) t)
            reconciliation
            organization
            retained
            candidates
            cutoff
            digest
            later
            t
          ≡ (ok (m, false), t)
    reconcile_over-again cutoff now later digest (some existing) m s t h =
        absurd (reconciled_before-false existing digest m s t h)
    reconcile_over-again cutoff now later digest none m s t h =
        let (deleted, same, holds) = reconcile_new-Holds cutoff digest now m s t h in
        elim (Option-cases
          (g.objects.get g.evidence_bucket (retention_key organization reconciliation) t)) [
            | inl missing ↦ absurd (ground (arith, missing, holds))
            | inr (value, found) ↦
                let ordered = result_value-ordered cutoff digest now deleted in
                let parsed =
                  parse_json-Holds g laws codec g.evidence_bucket
                    (retention_key organization reconciliation) m value t (rw same ordered) found
                    holds in
                rw (found, same)
                  (reconciled_before-Holds cutoff now digest deleted value t (rw same at parsed))
          ]

    reconcile_sets-again :
        (delete_before : Moment) (now later : ℕ) (m : Fields) (s t : S)
        → now ≤ later
        → reconcile_sets g reconciliation organization retained candidates delete_before now s
          ≡ (ok (m, true), t)
        → reconcile_sets g reconciliation organization retained candidates delete_before later t
          ≡ (ok (m, false), t)
    reconcile_sets-again delete_before now later m s t le h =
        let (sets, h₁) =
          guard-ok (m, true) t
            (leb (length retained) 1000
              && leb (length candidates) 1000
              && not (any (λ r. one_of r candidates) retained))
            _ _ s h in
        let (cutoff, zoned, h₂) = and_then-ok (m, true) t (cutoff_of delete_before) _ s h₁ in
        let (past, h₃) = guard-ok (m, true) t (leb cutoff now) _ _ s h₂ in
        let past_later : leb cutoff later ≡ true = ground arith in
        rw (sets, zoned, past_later)
          (reconcile_over-again cutoff now later (request_digest cutoff)
            (g.objects.get g.evidence_bucket (retention_key organization reconciliation) s) m s t
            h₃)

  reconcile-valid :
      (request : Retention) (now : ℕ) (reconciliation organization : String)
      (retained candidates : List String) (s : S)
      → uuid request.reconciliation_id ≡ ok reconciliation
      → uuid request.organization_id ≡ ok organization
      → all_uuids request.retain_revision_ids ≡ ok retained
      → all_uuids request.delete_candidate_revision_ids ≡ ok candidates
      → reconcile g request now s
        ≡ reconcile_sets g reconciliation organization
            (sorted_set retained)
            (sorted_set candidates)
            request.delete_before
            now
            s
  unfolding reconcile
  reconcile-valid request now reconciliation organization retained candidates s e₁ e₂ e₃ e₄ =
      rw (e₁, e₂, e₃, e₄) refl

  -- A reconciliation that has been carried out and is asked for again, at the same time or later,
  -- returns the result of the first time, as not created, and leaves the store as it is.
  pub reconcile-again :
      (request : Retention) (now later : ℕ) (m : Fields) (s t : S)
      → now ≤ later
      → reconcile g request now s ≡ (ok (m, true), t)
      → reconcile g request later t ≡ (ok (m, false), t)
  unfolding reconcile
  reconcile-again request now later m s t le h =
      let (reconciliation, e₁, h₁) =
        and_then-ok (m, true) t (uuid request.reconciliation_id) _ s h in
      let (organization, e₂, h₂) = and_then-ok (m, true) t (uuid request.organization_id) _ s h₁ in
      let (retained, e₃, h₃) =
        and_then-ok (m, true) t (all_uuids request.retain_revision_ids) _ s h₂ in
      let (candidates, e₄, h₄) =
        and_then-ok (m, true) t (all_uuids request.delete_candidate_revision_ids) _ s h₃ in
      reconcile-valid request later reconciliation organization retained candidates t e₁ e₂ e₃ e₄
      ∙ (reconcile_sets-again reconciliation organization (sorted_set retained)
          (sorted_set candidates) request.delete_before now later m s t le h₄)

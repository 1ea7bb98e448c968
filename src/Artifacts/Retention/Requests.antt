-- ===== src/Artifacts/Retention/Requests.antt =====
-- The request of a reconciliation: its sets, and a request with an invalid identity.
use text.Mathlib.TextEquality.{path_by_compare}
use layerrail_deploy.Prelude.{
  ℕ, String, ◌≡◌, refl, ◌==◌, ◌||◌, List, [], ◌∷◌, one_of, arith, inl, inr, ◌⊎◌,
}
use layerrail_deploy.Effect.{ok, Result-cases}
use layerrail_deploy.Effect.Keeps.{Keeps, Anything, read_rules}
use layerrail_deploy.Registry.Credentials.{sorted_set, insert_text}
use layerrail_deploy.Artifacts.Store.{ObjectValue}
use layerrail_deploy.Artifacts.Paths.{uuid}
use layerrail_deploy.Artifacts.Gateway.{Gateway}
use layerrail_deploy.Artifacts.Gateway.Published.{uuid-same}
use layerrail_deploy.Artifacts.Retention.{
  Retention, all_uuids, reconciled_before, reconcile_sets, reconcile,
}

one_of-insert_text :
    (r s : String) (l : List String) → one_of r (insert_text s l) ≡ (r == s || one_of r l)
one_of-insert_text r s [] = refl
one_of-insert_text r s (t ∷ l) = ground (arith, path_by_compare s t, one_of-insert_text r s l)

pub one_of-sorted_set : (r : String) (l : List String) → one_of r (sorted_set l) ≡ one_of r l
one_of-sorted_set r [] = refl
one_of-sorted_set r (s ∷ l) =
    ground (arith, one_of-insert_text r s (sorted_set l), one_of-sorted_set r l)

pub all_uuids-same : (l m : List String) → all_uuids l ≡ ok m → l ≡ m
unfolding all_uuids
all_uuids-same [] m h = ground arith
all_uuids-same (v ∷ l) m h = elim (Result-cases (uuid v)) [
  | inr (e, bad) ↦ ground (arith, bad)
  | inl (w, good) ↦ elim (Result-cases (all_uuids l)) [
    | inr (e, bad) ↦ ground (arith, good, bad)
    | inl (ws, rest) ↦ ground (arith, good, rest, uuid-same v w good, all_uuids-same l ws rest)
  ]
]

module _ {S : Type 0} (g : Gateway S) where
  -- A request with an invalid identity does nothing; any other works on its sets.
  pub reconcile-sets :
      (request : Retention) (now : ℕ) (s : S)
      → ((reconcile g request now s).1 ≡ s)
        ⊎ (uuid request.organization_id ≡ ok request.organization_id)
          × (reconcile g request now s
              ≡ reconcile_sets g request.reconciliation_id request.organization_id
                  (sorted_set request.retain_revision_ids)
                  (sorted_set request.delete_candidate_revision_ids)
                  request.delete_before
                  now
                  s)
  unfolding reconcile
  reconcile-sets request now s = elim (Result-cases (uuid request.reconciliation_id)) [
    | inr (e, bad) ↦ inl (rw bad refl)
    | inl (reconciliation, e₁) ↦ elim (Result-cases (uuid request.organization_id)) [
      | inr (e, bad) ↦ inl (rw (e₁, bad) refl)
      | inl (organization, e₂) ↦ elim (Result-cases (all_uuids request.retain_revision_ids)) [
        | inr (e, bad) ↦ inl (rw (e₁, e₂, bad) refl)
        | inl (retained, e₃) ↦
            elim (Result-cases (all_uuids request.delete_candidate_revision_ids)) [
              | inr (e, bad) ↦ inl (rw (e₁, e₂, e₃, bad) refl)
              | inl (candidates, e₄) ↦ inr (
                rw (← uuid-same request.organization_id organization e₂) at e₂,
                rw
                    (
                      e₁,
                      e₂,
                      e₃,
                      e₄,
                      uuid-same request.reconciliation_id reconciliation e₁,
                      uuid-same request.organization_id organization e₂,
                      all_uuids-same request.retain_revision_ids retained e₃,
                      all_uuids-same request.delete_candidate_revision_ids candidates e₄,
                    )
                    refl,
              )
            ]
      ]
    ]
  ]

  -- A reconciliation that was carried out before writes nothing.
  pub reconciled_before-Keeps :
      (P : S → Type 0) (existing : ObjectValue) (digest : String)
      → Keeps P Anything (reconciled_before g existing digest)
  unfolding reconciled_before
  reconciled_before-Keeps P existing digest = search read_rules

-- ===== src/Artifacts/Retention/Young.antt =====
-- A candidate that has an object which is not older than the cutoff is kept whole.
use layerrail_deploy.Prelude.{
  ℕ, String, ◌≡◌, refl, ap, ◌∙◌, ◌==◌, eq_iff, eq_refl, true, false, ◌&&◌, not, Option, none, some,
  List, [], ◌∷◌, any, one_of, leb, All, length, arith, Bool-cases, inl, inr, ◌⊕◌,
}
use layerrail_deploy.Effect.{ok}
use layerrail_deploy.Artifacts.Store.{ObjectInfo, ObjectValue, IsStore}
use layerrail_deploy.Artifacts.Paths.{uuid}
use layerrail_deploy.Artifacts.Retention.Outside.{revision_of-key, revision_prefix-starts_with}
use layerrail_deploy.Artifacts.Gateway.{Gateway, revision_prefix}
use layerrail_deploy.Artifacts.Retention.{
  Retention, aware, Groups, keys_of, group_objects, sorted_groups, latest, revisions_prefix,
  reconcile_new, reconcile_over, reconcile_sets, reconcile,
}
use layerrail_deploy.Artifacts.Retention.Untouched.{HoldsAs, deletes, delete_groups-Keeps}
use layerrail_deploy.Artifacts.Retention.Kept.{reconcile_listed-Keeps, reconcile-get}
use layerrail_deploy.Artifacts.Retention.Requests.{
  reconciled_before-Keeps, reconcile-sets, one_of-sorted_set,
}
use layerrail_deploy.Registry.Credentials.{sorted_set}
use layerrail_deploy.Artifacts.Retention.Grouped.{
  IsGrouped, is_young, is_stray, is_recent, same_group, any-sorted_groups, sorted-IsGrouped,
  group_objects-IsGrouped, group_objects-young,
}

module _ (r : String) (cutoff : ℕ) (k : String) where
  -- No group that is deleted names the key.
  abbrev pub Safe : Groups → Type 0
  Safe groups = All (λ x. (not (leb cutoff (latest x.1)) && one_of k (keys_of x.1)) ≡ false) groups

  none_young :
      (x : String × List ObjectInfo) (groups : Groups)
      → (x.0 == r) ≡ true
      → any (same_group x) groups ≡ false
      → any (is_stray r cutoff k) groups ≡ false
      → Safe groups
  none_young x [] e h stray = tt
  none_young x (y ∷ groups) e h stray = (
    ground (arith, eq_iff x.0 r, eq_iff y.0 r, eq_iff x.0 y.0),
    none_young x groups e (ground arith) (ground arith),
  )

  young_same :
      (x : String × List ObjectInfo) (groups : Groups)
      → (x.0 == r) ≡ true
      → any (is_young r cutoff k) groups ≡ true
      → any (same_group x) groups ≡ true
  young_same x [] e h = ground arith
  young_same x (y ∷ groups) e h =
      ground (arith, eq_iff x.0 r, eq_iff y.0 r, eq_iff x.0 y.0, young_same x groups e)

  pub grouped-Safe :
      (groups : Groups)
      → IsGrouped r cutoff k groups
      → any (is_young r cutoff k) groups ≡ true
      → Safe groups
  grouped-Safe [] h young = tt
  grouped-Safe (x ∷ groups) h young = elim (Bool-cases (x.0 == r)) [
    | inr e ↦ (
      ground (arith, e, h.stray),
      grouped-Safe groups (record { unique = h.unique.1; stray = ground (arith, h.stray) })
          (ground (arith, e)),
    )
    | inl e ↦ (
      ground (arith, e, young_same x groups e, h.unique.0),
      none_young x groups e h.unique.0 (ground (arith, h.stray)),
    )
  ]

  Safe-deletes :
      (b c : String) (retained : List String) (groups : Groups)
      → Safe groups
      → All (λ x. (deletes retained cutoff x && (b == c && one_of k (keys_of x.1))) ≡ false) groups
  Safe-deletes b c retained [] h = tt
  Safe-deletes b c retained (x ∷ groups) (h, hs) =
      (ground (arith, h), Safe-deletes b c retained groups hs)

module _ {S : Type 0} (g : Gateway S) (laws : IsStore g.objects)
    (separate : (g.static_bucket == g.evidence_bucket) ≡ false) where
  module _ (organization r rest : String) (cutoff : ℕ) (s : S) (vr : uuid r ≡ ok r)
      (recent : any
          (is_recent r cutoff (revisions_prefix organization))
          (g.objects.list g.static_bucket (revisions_prefix organization) s)
        ≡ true) where
    abbrev key : String
    key = revision_prefix organization r ⊕ rest

    listed_groups : List String → Groups
    listed_groups candidates =
        group_objects (revisions_prefix organization) candidates
          (g.objects.list g.static_bucket (revisions_prefix organization) s) []

    groups_Safe :
        (candidates : List String)
        → one_of r candidates ≡ true
        → Safe r cutoff key (sorted_groups (listed_groups candidates))
    unfolding listed_groups
    groups_Safe candidates candidate =
        let own =
          revision_of-key organization r rest vr
            (revision_prefix-starts_with organization r rest) in
        let grouped =
          group_objects-IsGrouped r cutoff key (revisions_prefix organization) candidates own
            (g.objects.list g.static_bucket (revisions_prefix organization) s) []
            (record { unique = tt; stray = refl }) in
        let young =
          group_objects-young r cutoff key (revisions_prefix organization) candidates own
            (g.objects.list g.static_bucket (revisions_prefix organization) s) [] candidate
            recent in
        grouped-Safe r cutoff key (sorted_groups (listed_groups candidates))
          (sorted-IsGrouped r cutoff key (listed_groups candidates) grouped)
          (any-sorted_groups r cutoff key (is_young r cutoff key) (listed_groups candidates)
            ∙ young)

    reconcile_over-young :
        (existing : Option ObjectValue) (reconciliation : String)
        (retained candidates : List String) (digest : String) (now : ℕ)
        → one_of r candidates ≡ true
        → g.objects.get g.static_bucket key
            (reconcile_over g existing reconciliation organization retained candidates cutoff digest
              now s).1
          ≡ g.objects.get g.static_bucket key s
    unfolding reconcile_new listed_groups
    reconcile_over-young none reconciliation retained candidates digest now candidate =
        ((reconcile_listed-Keeps g laws separate key organization reconciliation
            (g.objects.get g.static_bucket key s) retained candidates cutoff digest now
            (g.objects.list g.static_bucket (revisions_prefix organization) s)
            (delete_groups-Keeps g laws g.static_bucket key (g.objects.get g.static_bucket key s)
              retained cutoff (sorted_groups (listed_groups candidates))
              (Safe-deletes r cutoff key g.static_bucket g.static_bucket retained
                (sorted_groups (listed_groups candidates)) (groups_Safe candidates candidate)))).at
          s refl).0
    reconcile_over-young (some existing) reconciliation retained candidates digest now candidate =
        ((reconciled_before-Keeps g
            (HoldsAs g g.static_bucket key (g.objects.get g.static_bucket key s)) existing
            digest).at
          s refl).0

    reconcile_sets-young :
        (reconciliation : String) (retained candidates : List String) (now : ℕ)
        → one_of r candidates ≡ true
        → g.objects.get g.static_bucket key
            (reconcile_sets g reconciliation organization retained candidates
              (aware cutoff)
              now
              s).1
          ≡ g.objects.get g.static_bucket key s
    reconcile_sets-young reconciliation retained candidates now candidate =
        elim (Bool-cases (
          leb (length retained) 1000
          && leb (length candidates) 1000
          && not (any (λ q. one_of q candidates) retained))) [
            | inr e ↦ rw e refl
            | inl e ↦ elim (Bool-cases (leb cutoff now)) [
              | inr f ↦ rw (e, f) refl
              | inl f ↦
                  rw (e, f)
                    (reconcile_over-young _ reconciliation retained candidates _ now candidate)
            ]
          ]

  -- A reconciliation whose cutoff is not after some object of a revision keeps every object of
  -- that revision, also when the revision is a candidate.
  pub reconcile-young :
      (request : Retention) (now cutoff : ℕ) (r rest : String) (s : S)
      → request.delete_before ≡ aware cutoff
      → uuid r ≡ ok r
      → any
          (is_recent r cutoff (revisions_prefix request.organization_id))
          (g.objects.list g.static_bucket (revisions_prefix request.organization_id) s)
        ≡ true
      → g.objects.get g.static_bucket
          (revision_prefix request.organization_id r ⊕ rest)
          (reconcile g request now s).1
        ≡ g.objects.get g.static_bucket (revision_prefix request.organization_id r ⊕ rest) s
  reconcile-young request now cutoff r rest s e vr recent =
      elim (Bool-cases (one_of r request.delete_candidate_revision_ids)) [
        | inr other ↦ elim (reconcile-sets g request now s) [
          | inl same ↦
              ap (g.objects.get g.static_bucket (revision_prefix request.organization_id r ⊕ rest))
                same
          | inr (valid, sets) ↦
              reconcile-get g laws separate request now s request.organization_id r rest valid vr
                (rw (other, eq_refl request.organization_id) refl)
        ]
        | inl candidate ↦ elim (reconcile-sets g request now s) [
          | inl same ↦
              ap (g.objects.get g.static_bucket (revision_prefix request.organization_id r ⊕ rest))
                same
          | inr (valid, sets) ↦
              rw (sets, e)
                (reconcile_sets-young request.organization_id r rest cutoff s vr recent
                  request.reconciliation_id (sorted_set request.retain_revision_ids)
                  (sorted_set request.delete_candidate_revision_ids) now
                  (one_of-sorted_set r request.delete_candidate_revision_ids ∙ candidate))
        ]
      ]

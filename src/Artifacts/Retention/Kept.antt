-- ===== src/Artifacts/Retention/Kept.antt =====
-- What a reconciliation keeps: the sites of other organizations and revisions, and all evidence.
use layerrail_deploy.Prelude.{
  ℕ, String, ◌≡◌, refl, ◌==◌, eq_iff, true, false, ◌&&◌, Option, none, some, List, [], ◌∷◌, one_of,
  starts_with, All, arith, Option-cases, inl, inr, ◌⊕◌, ap, ◌∙◌,
}
use layerrail_deploy.Effect.{ok, gets}
use layerrail_deploy.Effect.Keeps.{
  Keeps, Keeps-bind, Keeps-bind_any, Keeps-gets, Anything, read_rules,
}
use layerrail_deploy.Json.{Fields}
use layerrail_deploy.Registry.Credentials.{sorted_set}
use layerrail_deploy.Artifacts.Store.{Bytes, ObjectInfo, ObjectValue, IsStore, body_of}
use layerrail_deploy.Artifacts.Paths.{uuid}
use layerrail_deploy.Artifacts.Gateway.{Gateway, put_immutable, revision_prefix}
use layerrail_deploy.Artifacts.Gateway.Immutable.{Holds, put_immutable-Keeps}
use layerrail_deploy.Artifacts.Retention.{
  Retention, Moment, Groups, keys_of, group_objects, sorted_groups, revision_of, delete_groups,
  revisions_prefix, reconciled_before, store_result, reconcile_new, reconcile_listed,
  reconcile_over, reconcile_sets, reconcile, result_value,
}
use layerrail_deploy.Artifacts.Retention.Untouched.{
  Spares, HoldsAs, deletes, group_objects-Spares, sorted_groups-Spares, delete_groups-Keeps,
}
use layerrail_deploy.Artifacts.Retention.Requests.{one_of-sorted_set, reconcile-sets}
use layerrail_deploy.Artifacts.Retention.Outside.{outside_lem}

module _ {S : Type 0} (g : Gateway S) (laws : IsStore g.objects)
    (separate : (g.static_bucket == g.evidence_bucket) ≡ false) where
  All-separate :
      (k : String) (retained : List String) (cutoff : ℕ) (groups : Groups)
      → All
          (λ x.
            (deletes retained cutoff x
              && (g.static_bucket == g.evidence_bucket && one_of k (keys_of x.1)))
            ≡ false)
          groups
  All-separate k retained cutoff [] = tt
  All-separate k retained cutoff (x ∷ groups) =
      (ground (arith, separate), All-separate k retained cutoff groups)

  All-spared :
      (b k : String) (retained : List String) (cutoff : ℕ) (groups : Groups)
      → Spares k groups
      → All (λ x. (deletes retained cutoff x && (b == b && one_of k (keys_of x.1))) ≡ false) groups
  All-spared b k retained cutoff [] h = tt
  All-spared b k retained cutoff (x ∷ groups) (h, hs) =
      (ground arith, All-spared b k retained cutoff groups hs)

  put_evidence-Keeps :
      (k l : String) (o : Option ObjectValue) (v : Bytes) (t : String)
      → Keeps (HoldsAs g g.static_bucket k o) Anything (put_immutable g g.evidence_bucket l v t)
  unfolding put_immutable
  put_evidence-Keeps k l o v t = record {
    at = λ s holds. elim (Option-cases (g.objects.get g.evidence_bucket l s)) [
      | inl missing ↦ ground (
        arith,
        missing,
        eq_iff g.evidence_bucket g.static_bucket,
        eq_iff g.static_bucket g.evidence_bucket,
        laws.get-put_other g.evidence_bucket l g.static_bucket k v t s,
      )
      | inr (existing, found) ↦ ground (arith, found, holds)
    ];
  }

  module _ (k organization reconciliation : String) (o : Option ObjectValue) where
    store_result-Keeps :
        (result : Fields)
        → Keeps
            (HoldsAs g g.static_bucket k o)
            Anything
            (store_result g reconciliation organization result)
    unfolding store_result
    store_result-Keeps result = search (read_rules, put_evidence-Keeps)

    -- If the deletions spare the object, so does all that follows the listing.
    pub reconcile_listed-Keeps :
        (retained candidates : List String) (cutoff : ℕ) (digest : String) (now : ℕ)
        (objects : List ObjectInfo)
        → Keeps (HoldsAs g g.static_bucket k o) Anything (
            delete_groups g retained cutoff
              (sorted_groups (group_objects (revisions_prefix organization) candidates objects [])))
        → Keeps (HoldsAs g g.static_bucket k o) Anything (
            reconcile_listed g reconciliation organization retained candidates cutoff digest now
              objects)
    unfolding reconcile_listed
    reconcile_listed-Keeps retained candidates cutoff digest now objects deletions =
        Keeps-bind_any (HoldsAs g g.static_bucket k o) Anything
          (delete_groups g retained cutoff
            (sorted_groups (group_objects (revisions_prefix organization) candidates objects [])))
          (λ deleted. store_result g reconciliation organization (
            result_value g reconciliation organization retained candidates cutoff digest now
              deleted))
          deletions
          (λ deleted. store_result-Keeps (
            result_value g reconciliation organization retained candidates cutoff digest now
              deleted))

  module _ (k organization : String) (candidates : List String)
      (outside : (starts_with k (revisions_prefix organization)
          && one_of (revision_of (revisions_prefix organization) k) candidates)
        ≡ false) where
    groups_Spared :
        (objects : List ObjectInfo)
        → All
            (λ (info : ObjectInfo). starts_with info.key (revisions_prefix organization) ≡ true)
            objects
        → Spares k
            (sorted_groups (group_objects (revisions_prefix organization) candidates objects []))
    groups_Spared objects listed =
        sorted_groups-Spares k (group_objects (revisions_prefix organization) candidates objects [])
          (group_objects-Spares k (revisions_prefix organization) candidates objects [] outside
            listed tt)

    module _ (o : Option ObjectValue) (reconciliation : String) (retained : List String)
        (cutoff : ℕ) (digest : String) (now : ℕ) where
      reconcile_over-Keeps :
          (existing : Option ObjectValue)
          → Keeps (HoldsAs g g.static_bucket k o) Anything (
              reconcile_over g existing reconciliation organization retained candidates cutoff
                digest now)
      unfolding reconcile_new reconciled_before
      reconcile_over-Keeps none =
          Keeps-bind (HoldsAs g g.static_bucket k o)
            (All
              (λ (info : ObjectInfo). starts_with info.key (revisions_prefix organization) ≡ true))
            Anything (gets (g.objects.list g.static_bucket (revisions_prefix organization)))
            (reconcile_listed g reconciliation organization retained candidates cutoff digest now)
            (Keeps-gets (HoldsAs g g.static_bucket k o)
              (All (λ (info : ObjectInfo).
                starts_with info.key (revisions_prefix organization) ≡ true))
              (g.objects.list g.static_bucket (revisions_prefix organization))
              (laws.list_prefix g.static_bucket (revisions_prefix organization)))
            (λ objects listed.
              reconcile_listed-Keeps k organization reconciliation o retained candidates cutoff
                digest now objects
                (delete_groups-Keeps g laws g.static_bucket k o retained cutoff
                  (sorted_groups
                    (group_objects (revisions_prefix organization) candidates objects []))
                  (All-spared g.static_bucket k retained cutoff
                    (sorted_groups
                      (group_objects (revisions_prefix organization) candidates objects []))
                    (groups_Spared objects listed))))
      reconcile_over-Keeps (some existing) = search read_rules

    reconcile_sets-Keeps :
        (o : Option ObjectValue) (reconciliation : String) (retained : List String)
        (delete_before : Moment) (now : ℕ)
        → Keeps
            (HoldsAs g g.static_bucket k o)
            Anything
            (reconcile_sets g reconciliation organization retained candidates delete_before now)
    reconcile_sets-Keeps o reconciliation retained delete_before now =
        search (read_rules, reconcile_over-Keeps) depth 12

  module _ (request : Retention) (now : ℕ) (s : S) where
    pub reconcile-get :
        (o r rest : String)
        → uuid o ≡ ok o
        → uuid r ≡ ok r
        → (o == request.organization_id && one_of r request.delete_candidate_revision_ids) ≡ false
        → g.objects.get g.static_bucket (revision_prefix o r ⊕ rest) (reconcile g request now s).1
          ≡ g.objects.get g.static_bucket (revision_prefix o r ⊕ rest) s
    reconcile-get o r rest vo vr h = elim (reconcile-sets g request now s) [
      | inl same ↦ ap (g.objects.get g.static_bucket (revision_prefix o r ⊕ rest)) same
      | inr (valid, sets) ↦
          rw sets
            ((reconcile_sets-Keeps (revision_prefix o r ⊕ rest) request.organization_id
                (sorted_set request.delete_candidate_revision_ids)
                (outside_lem request.organization_id o r rest
                  (sorted_set request.delete_candidate_revision_ids) valid vo vr
                  (rw (← one_of-sorted_set r request.delete_candidate_revision_ids) at h))
                (g.objects.get g.static_bucket (revision_prefix o r ⊕ rest) s)
                request.reconciliation_id (sorted_set request.retain_revision_ids)
                request.delete_before now).at
              s refl).0
    ]

  module _ (k : String) (v : Bytes) where
    delete_groups-Holds :
        (retained : List String) (cutoff : ℕ) (groups : Groups)
        → Keeps (Holds g g.evidence_bucket k v) Anything (delete_groups g retained cutoff groups)
    delete_groups-Holds retained cutoff groups = record {
      at = λ s h.
          let kept =
            (delete_groups-Keeps g laws g.evidence_bucket k (g.objects.get g.evidence_bucket k s)
                retained cutoff groups (All-separate k retained cutoff groups)).at
              s refl in
          (ap body_of kept.0 ∙ h, kept.1);
    }

    reconcile_over-Holds :
        (existing : Option ObjectValue) (reconciliation organization : String)
        (retained candidates : List String) (cutoff : ℕ) (digest : String) (now : ℕ)
        → Keeps (Holds g g.evidence_bucket k v) Anything (
            reconcile_over g existing reconciliation organization retained candidates cutoff digest
              now)
    unfolding reconcile_new reconcile_listed reconciled_before store_result
    reconcile_over-Holds none reconciliation organization retained candidates cutoff digest now =
        search (read_rules, delete_groups-Holds, put_immutable-Keeps g laws) depth 12
    reconcile_over-Holds (some existing) reconciliation organization retained candidates cutoff
          digest now =
        search read_rules

    pub reconcile-Holds :
        (request : Retention) (now : ℕ)
        → Keeps (Holds g g.evidence_bucket k v) Anything (reconcile g request now)
    unfolding reconcile
    reconcile-Holds request now = search (read_rules, reconcile_over-Holds) depth 20

-- ===== src/Artifacts/History.antt =====
-- The gateway over time: what any sequence of publications, evidence and reconciliations keeps.
use layerrail_deploy.Prelude.{
  ℕ, String, if◌then◌else◌, ◌≡◌, refl, sym, ◌==◌, Bool, true, false, not, ◌&&◌, List, [], ◌∷◌,
  one_of, All, arith, leb, chars, ends_with, is_some, ◌||◌, Option-cases, inl, inr, ◌⊕◌, ap, ◌∙◌,
}
use layerrail_deploy.Effect.{ok, err}
use layerrail_deploy.Effect.Success.{pair_of, and_then-ok, guard-ok}
use layerrail_deploy.Json.{Fields}
use layerrail_deploy.Artifacts.Store.{Bytes, ObjectValue, IsStore, body_of}
use layerrail_deploy.Artifacts.Paths.{fault, uuid, is_evidence_name, has_text, is_digest_text}
use layerrail_deploy.Artifacts.Archives.{StaticFile, extract}
use layerrail_deploy.Artifacts.Archives.Bounds.{extract-Within}
use layerrail_deploy.Artifacts.Media.{media_type}
use layerrail_deploy.Artifacts.Gateway.{
  Gateway, put_immutable, publish_static, read_static, static_manifest, put_evidence, evidence,
  revision_prefix, evidence_key,
}
use layerrail_deploy.Artifacts.Gateway.Ordered.{IsCodec}
use layerrail_deploy.Artifacts.Gateway.Immutable.{
  Holds, put_immutable-Holds, publish_static-Keeps, put_evidence-Keeps,
}
use layerrail_deploy.Artifacts.Gateway.Published.{IsValid, file_key}
use layerrail_deploy.Artifacts.Gateway.Manifest.{
  IsPublished, publish_static-IsPublished, publish_static-over, static_manifest-IsPublished,
  read_static-All,
}
use layerrail_deploy.Artifacts.Retention.{Retention, reconcile}
use layerrail_deploy.Artifacts.Retention.Kept.{reconcile-get, reconcile-Holds}

-- a call that writes, with its time
pub data Call : Type 0 where
  publication :
      (organization_id revision_id : String) → Bytes → (expected_digest : String) → ℕ → Call
  evidence_sent :
      (organization_id build_id name : String) → Bytes → (expected_digest : String) → Call
  reconciliation : Retention → ℕ → Call

module _ {S : Type 0} (g : Gateway S) where
  unfoldable pub after : Call → S → S
  after (publication organization_id revision_id archive expected_digest now) s =
      (publish_static g organization_id revision_id archive expected_digest now s).1
  after (evidence_sent organization_id build_id name contents expected_digest) s =
      (put_evidence g organization_id build_id name contents expected_digest s).1
  after (reconciliation request now) s = (reconcile g request now s).1

  unfoldable pub history : List Call → S → S
  history [] s = s
  history (c ∷ calls) s = history calls (after c s)

-- The call is no reconciliation that names the revision among its candidates.
abbrev pub spares : String → String → Call → Bool
spares o r (publication organization_id revision_id archive expected_digest now) = true
spares o r (evidence_sent organization_id build_id name contents expected_digest) = true
spares o r (reconciliation request now) =
    not (o == request.organization_id && one_of r request.delete_candidate_revision_ids)

module _ {S : Type 0} (g : Gateway S) (laws : IsStore g.objects)
    (separate : (g.static_bucket == g.evidence_bucket) ≡ false) where
  after-Holds :
      (k : String) (v : Bytes) (c : Call) (s : S)
      → Holds g g.evidence_bucket k v s
      → Holds g g.evidence_bucket k v (after g c s)
  unfolding after
  after-Holds k v (publication organization_id revision_id archive expected_digest now) s h =
      ((publish_static-Keeps g laws g.evidence_bucket k v organization_id revision_id archive
          expected_digest now).at
        s h).0
  after-Holds k v (evidence_sent organization_id build_id name contents expected_digest) s h =
      ((put_evidence-Keeps g laws g.evidence_bucket k v organization_id build_id name contents
          expected_digest).at
        s h).0
  after-Holds k v (reconciliation request now) s h =
      ((reconcile-Holds g laws separate k v request now).at s h).0

  history-Holds :
      (k : String) (v : Bytes) (calls : List Call) (s : S)
      → Holds g g.evidence_bucket k v s
      → Holds g g.evidence_bucket k v (history g calls s)
  unfolding history
  history-Holds k v [] s h = h
  history-Holds k v (c ∷ calls) s h = history-Holds k v calls (after g c s) (after-Holds k v c s h)

  module _ (o r : String) (vo : uuid o ≡ ok o) (vr : uuid r ≡ ok r) where
    after-Holds_static :
        (rest : String) (v : Bytes) (c : Call) (s : S)
        → spares o r c ≡ true
        → Holds g g.static_bucket (revision_prefix o r ⊕ rest) v s
        → Holds g g.static_bucket (revision_prefix o r ⊕ rest) v (after g c s)
    unfolding after
    after-Holds_static rest v (publication organization_id revision_id archive expected_digest now)
          s spared h =
        ((publish_static-Keeps g laws g.static_bucket (revision_prefix o r ⊕ rest) v organization_id
            revision_id archive expected_digest now).at
          s h).0
    after-Holds_static rest v (evidence_sent organization_id build_id name contents expected_digest)
          s spared h =
        ((put_evidence-Keeps g laws g.static_bucket (revision_prefix o r ⊕ rest) v organization_id
            build_id name contents expected_digest).at
          s h).0
    after-Holds_static rest v (reconciliation request now) s spared h =
        ap body_of (reconcile-get g laws separate request now s o r rest vo vr (ground arith)) ∙ h

    history-Holds_static :
        (rest : String) (v : Bytes) (calls : List Call) (s : S)
        → All (λ c. spares o r c ≡ true) calls
        → Holds g g.static_bucket (revision_prefix o r ⊕ rest) v s
        → Holds g g.static_bucket (revision_prefix o r ⊕ rest) v (history g calls s)
    unfolding history
    history-Holds_static rest v [] s spared h = h
    history-Holds_static rest v (c ∷ calls) s (one, ones) h =
        history-Holds_static rest v calls (after g c s) ones (after-Holds_static rest v c s one h)

    history-Holds-All :
        (files : List StaticFile) (calls : List Call) (s : S)
        → All (λ c. spares o r c ≡ true) calls
        → All (λ (f : StaticFile). Holds g g.static_bucket (file_key g o r f.path) f.body s) files
        → All
            (λ (f : StaticFile).
              Holds g g.static_bucket (file_key g o r f.path) f.body (history g calls s))
            files
    history-Holds-All [] calls s spared h = tt
    history-Holds-All (f ∷ files) calls s spared (h, hs) = (
      history-Holds_static ("files/" ⊕ f.path) f.body calls s spared h,
      history-Holds-All files calls s spared hs,
    )

  module _ (codec : IsCodec g.platform) (o r : String) where
    history-IsPublished :
        (archive : Bytes) (now : ℕ) (files : List StaticFile) (calls : List Call) (t : S)
        → All (λ c. spares o r c ≡ true) calls
        → IsPublished g laws codec o r archive now files t
        → IsPublished g laws codec o r archive now files (history g calls t)
    history-IsPublished archive now files calls t spared published = record {
      organization = published.organization;
      revision = published.revision;
      bodies =
          history-Holds-All o r published.organization published.revision files calls t spared
            published.bodies;
      manifest =
          history-Holds_static o r published.organization published.revision "manifest.json" _ calls
            t spared published.manifest;
    }

    -- Once a publication has created a revision, and after any sequence of calls in which no
    -- reconciliation of its organization has the revision among its candidates, a publication of a
    -- valid archive to it leaves the store as it is: with the digest of the first archive it returns
    -- the first manifest, as not created, and with any other it is a conflict. The two buckets are
    -- different ones.
    pub publish_static-again :
        (archive later : Bytes) (expected_digest later_digest : String) (now then_now : ℕ)
        (m : Fields) (files : List StaticFile) (calls : List Call) (s t : S)
        → publish_static g o r archive expected_digest now s ≡ (ok (m, true), t)
        → All (λ c. spares o r c ≡ true) calls
        → IsValid g later later_digest files
        → publish_static g o r later later_digest then_now (history g calls t) ≡ (
          if g.platform.digest archive == g.platform.digest later
              then ok (m, false)
              else err (fault "revision_artifact_conflict" 409),
          history g calls t,
        )
    publish_static-again archive later expected_digest later_digest now then_now m files calls s t h
          spared valid =
        let (first_files, _, published, same) =
          publish_static-IsPublished g laws codec o r archive expected_digest now m s t h in
        rw same (
          publish_static-over g laws codec o r archive later later_digest now then_now first_files
            files (history g calls t)
            (history-IsPublished archive now first_files calls t spared published) valid)

  -- Once a publication has created a revision, the files of its archive and its manifest are read
  -- back, each with the body, digest and headers that it had, after any sequence of publications,
  -- evidence and reconciliations in which no reconciliation of its organization has the revision
  -- among its candidates. The two buckets are different ones.
  pub history-publish_static :
      (codec : IsCodec g.platform) (o r : String) (archive : Bytes) (expected_digest : String)
      (now : ℕ) (m : Fields) (calls : List Call) (s t : S)
      → publish_static g o r archive expected_digest now s ≡ (ok (m, true), t)
      → All (λ c. spares o r c ≡ true) calls
      → (files : List StaticFile) × (extract g.platform.digest g.limits (g.platform.members archive)
          ≡ ok files)
        × All
            (λ (f : StaticFile).
              read_static g o r f.path (history g calls t) ≡ (ok f, history g calls t))
            files
        × (static_manifest g o r (history g calls t) ≡ (ok m, history g calls t))
  history-publish_static codec o r archive expected_digest now m calls s t h spared =
      let (files, valid, published, same) =
        publish_static-IsPublished g laws codec o r archive expected_digest now m s t h in
      let within =
        (extract-Within g.platform.digest g.limits (g.platform.members archive) files
          valid.extracted).0 in
      let later = history-IsPublished codec o r archive now files calls t spared published in
      (
        files,
        valid.extracted,
        read_static-All g laws codec o r files (history g calls t) published.organization
            published.revision within.safe later.bodies,
        static_manifest-IsPublished g laws codec o r archive now files (history g calls t) later
            ∙ ap (λ d. (ok d, history g calls t)) (sym same),
      )

  -- Evidence that `put_evidence` has accepted is read back with the same bytes after any sequence
  -- of calls, reconciliations included, if the two buckets are different ones.
  pub history-put_evidence :
      (o build_id name : String) (contents : Bytes) (expected_digest : String) (m : Fields)
      (created : Bool) (calls : List Call) (s t : S)
      → put_evidence g o build_id name contents expected_digest s ≡ (ok (m, created), t)
      → (value : ObjectValue) × (evidence g o build_id name (history g calls t)
          ≡ (ok value, history g calls t))
        × (value.body ≡ contents)
  unfolding put_evidence evidence
  history-put_evidence o build_id name contents expected_digest m created calls s t h =
      let (o', vo, h₁) = and_then-ok (m, created) t (uuid o) _ s h in
      let (b', vb, h₂) = and_then-ok (m, created) t (uuid build_id) _ s h₁ in
      let (named, h₃) = guard-ok (m, created) t (is_evidence_name name) _ _ s h₂ in
      let (_, h₄) =
        guard-ok (m, created) t (has_text contents && leb (chars contents) g.limits.evidence_bytes)
          _ _ s h₃ in
      let (_, h₅) =
        guard-ok (m, created) t
          (not (ends_with name ".json") || is_some (g.platform.loads contents)) _ _ s h₄ in
      let (_, h₆) =
        guard-ok (m, created) t
          (is_digest_text expected_digest && g.platform.digest contents == expected_digest) _ _ s
          h₅ in
      let put =
        put_immutable g g.evidence_bucket (evidence_key o' b' name) contents (media_type name) s in
      let (fresh, made, h₇) = and_then-ok (m, created) t put.0 _ put.1 h₆ in
      let holds = history-Holds (evidence_key o' b' name) contents calls t (
        rw (← ap (λ x. x.1) h₇) (
          put_immutable-Holds g laws g.evidence_bucket (evidence_key o' b' name) contents
            (media_type name) s put.1 fresh (pair_of put made))) in
      elim (Option-cases
        (g.objects.get g.evidence_bucket (evidence_key o' b' name) (history g calls t))) [
          | inl missing ↦ absurd (ground (arith, missing, holds))
          | inr (value, found) ↦
              (value, rw (vo, vb, named, found) refl, ground (arith, found, holds))
        ]

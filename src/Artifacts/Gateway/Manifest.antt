-- ===== src/Artifacts/Gateway/Manifest.antt =====
-- The manifest of a published site decides what later publications of the revision return.
use layerrail_deploy.Prelude.{
  ℕ, String, ◌≡◌, refl, ◌==◌, ◌⊕◌, Bool, true, false, some, List, [], ◌∷◌, All, arith, Option-cases,
  Bool-cases, inl, inr, ap, sym, ◌∙◌, if◌then◌else◌,
}
use layerrail_deploy.Effect.{ok, err}
use layerrail_deploy.Effect.Success.{pair_of, and_then-ok, guard-ok}
use layerrail_deploy.Json.{Fields, get}
use layerrail_deploy.Artifacts.Store.{Bytes, ObjectValue, IsStore}
use layerrail_deploy.Artifacts.Paths.{fault, uuid}
use layerrail_deploy.Artifacts.Archives.{StaticFile}
use layerrail_deploy.Artifacts.Archives.Bounds.{IsSafe}
use layerrail_deploy.Artifacts.Gateway.{
  Gateway, put_immutable, put_files, publish_new, published_before, publish_static, parse_json,
  read_static, static_manifest, manifest_of, revision_prefix, is_text, digest_within,
}
use layerrail_deploy.Artifacts.Gateway.Ordered.{IsCodec, is_ordered, manifest_of-ordered}
use layerrail_deploy.Artifacts.Gateway.Immutable.{
  Holds, put_immutable-Holds, put_immutable-Keeps, put_files-Holds,
}
use layerrail_deploy.Artifacts.Gateway.Published.{
  IsValid, manifest_key, file_key, publish_static-valid, publish_static-ok, read_static-Holds,
}

module _ {S : Type 0} (g : Gateway S) (laws : IsStore g.objects) (codec : IsCodec g.platform) where
  -- A dict that was stored is read back.
  pub parse_json-Holds :
      (b k : String) (d : Fields) (value : ObjectValue) (s : S)
      → is_ordered d ≡ true
      → g.objects.get b k s ≡ some value
      → Holds g b k (g.platform.dumps d) s
      → parse_json g value ≡ ok d
  unfolding parse_json
  parse_json-Holds b k d value s ordered found holds =
      let same : value.body ≡ g.platform.dumps d = ground (arith, found, holds) in
      rw (same, codec.loads-dumps d ordered) refl

  All-Holds :
      (b : String) (key : String → String) (c l : String) (v : Bytes) (content_type : String)
      (s t : S) (created : Bool) (files : List StaticFile)
      → put_immutable g c l v content_type s ≡ (ok created, t)
      → All (λ (f : StaticFile). Holds g b (key f.path) f.body s) files
      → All (λ (f : StaticFile). Holds g b (key f.path) f.body t) files
  All-Holds b key c l v content_type s t created [] put h = tt
  All-Holds b key c l v content_type s t created (f ∷ files) put (h, hs) = (
    rw (← ap (λ x. x.1) put)
        ((put_immutable-Keeps g laws b (key f.path) f.body c l v content_type).at s h).0,
    All-Holds b key c l v content_type s t created files put hs,
  )

  -- A new publication stores every file and the manifest.
  publish_new-Holds :
      (prefix : String) (files : List StaticFile) (manifest m : Fields) (created : Bool) (s t : S)
      → publish_new g prefix files manifest s ≡ (ok (m, created), t)
      → All
          (λ (f : StaticFile). Holds g g.static_bucket (prefix ⊕ "files/" ⊕ f.path) f.body t)
          files
        × Holds g g.static_bucket (prefix ⊕ "manifest.json") (g.platform.dumps manifest) t
        × (m ≡ manifest)
        × (created ≡ true)
  unfolding publish_new
  publish_new-Holds prefix files manifest m created s t h =
      let put = put_files g prefix files s in
      let (u, stored, h₁) = and_then-ok (m, created) t put.0 _ put.1 h in
      let last =
        put_immutable g g.static_bucket (prefix ⊕ "manifest.json") (g.platform.dumps manifest)
          "application/json" put.1 in
      let (fresh, made, h₂) = and_then-ok (m, created) t last.0 _ last.1 h₁ in
      let whole = pair_of last made ∙ ap (λ x. (ok fresh, x.1)) h₂ in
      (
        All-Holds g.static_bucket (λ p. prefix ⊕ "files/" ⊕ p) g.static_bucket
            (prefix ⊕ "manifest.json") (g.platform.dumps manifest) "application/json" put.1 t fresh
            files whole (put_files-Holds g laws prefix files s put.1 (pair_of put stored)),
        put_immutable-Holds g laws g.static_bucket (prefix ⊕ "manifest.json")
            (g.platform.dumps manifest) "application/json" put.1 t fresh whole,
        ground arith,
        ground arith,
      )

  published_before-false :
      (existing : ObjectValue) (digest : String) (m : Fields) (created : Bool) (s t : S)
      → published_before g existing digest s ≡ (ok (m, created), t)
      → created ≡ false
  unfolding published_before
  published_before-false existing digest m created s t h =
      let (d, parsed, h₁) = and_then-ok (m, created) t (parse_json g existing) _ s h in
      let (found, within, h₂) =
        and_then-ok (m, created) t (digest_within (get "archive" d)) _ s h₁ in
      let (same, h₃) = guard-ok (m, created) t (is_text digest found) _ _ s h₂ in ground arith

  module _ (organization_id revision_id : String) where
    -- What the store holds of a revision that was published with these files.
    pub record IsPublished (archive : Bytes) (now : ℕ) (files : List StaticFile) (t : S)
        : Type 0 where
      pub organization : uuid organization_id ≡ ok organization_id
      pub revision : uuid revision_id ≡ ok revision_id
      pub bodies :
          All
            (λ (f : StaticFile).
              Holds g g.static_bucket (file_key g organization_id revision_id f.path) f.body t)
            files
      pub manifest :
          Holds g g.static_bucket
            (manifest_key g organization_id revision_id)
            (g.platform.dumps (manifest_of g organization_id revision_id now archive files))
            t

    pub publish_static-IsPublished :
        (archive : Bytes) (expected_digest : String) (now : ℕ) (m : Fields) (s t : S)
        → publish_static g organization_id revision_id archive expected_digest now s
          ≡ (ok (m, true), t)
        → (files : List StaticFile) × IsValid g archive expected_digest files
          × IsPublished archive now files t
          × (m ≡ manifest_of g organization_id revision_id now archive files)
    publish_static-IsPublished archive expected_digest now m s t h =
        let (files, org, rev, valid) =
          publish_static-ok g organization_id revision_id archive expected_digest now s t (m, true)
            h in
        let whole =
          sym (
            publish_static-valid g organization_id revision_id archive expected_digest now files s
              org rev valid)
          ∙ h in
        elim (Option-cases
          (g.objects.get g.static_bucket (manifest_key g organization_id revision_id) s)) [
            | inr (existing, found) ↦ absurd (
                ground (
                  arith,
                  published_before-false existing (g.platform.digest archive) m true s t
                      (rw found at whole),
                ))
            | inl missing ↦
                let (bodies, manifest, same, _) =
                  publish_new-Holds (revision_prefix organization_id revision_id) files
                    (manifest_of g organization_id revision_id now archive files) m true s t
                    (rw missing at whole) in
                (
                  files,
                  valid,
                  record {
                    organization = org;
                    revision = rev;
                    bodies = bodies;
                    manifest = manifest;
                  },
                  same,
                )
          ]

    stored_manifest :
        (archive : Bytes) (now : ℕ) (files : List StaticFile) (t : S)
        → IsPublished archive now files t
        → (value : ObjectValue) × (g.objects.get g.static_bucket
              (manifest_key g organization_id revision_id)
              t
            ≡ some value)
          × (parse_json g value ≡ ok (manifest_of g organization_id revision_id now archive files))
    stored_manifest archive now files t published =
        elim (Option-cases
          (g.objects.get g.static_bucket (manifest_key g organization_id revision_id) t)) [
            | inl missing ↦ absurd (ground (arith, missing, published.manifest))
            | inr (value, found) ↦ (
              value,
              found,
              parse_json-Holds g.static_bucket (manifest_key g organization_id revision_id)
                  (manifest_of g organization_id revision_id now archive files) value t
                  (manifest_of-ordered g organization_id revision_id now archive files) found
                  published.manifest,
            )
          ]

    pub static_manifest-IsPublished :
        (archive : Bytes) (now : ℕ) (files : List StaticFile) (t : S)
        → IsPublished archive now files t
        → static_manifest g organization_id revision_id t
          ≡ (ok (manifest_of g organization_id revision_id now archive files), t)
    unfolding static_manifest
    static_manifest-IsPublished archive now files t published =
        let (value, found, parsed) = stored_manifest archive now files t published in
        rw (published.organization, published.revision, found, parsed) refl

    pub read_static-All :
        (files : List StaticFile) (t : S)
        → uuid organization_id ≡ ok organization_id
        → uuid revision_id ≡ ok revision_id
        → All (IsSafe g.platform.digest g.limits) files
        → All
            (λ (f : StaticFile).
              Holds g g.static_bucket (file_key g organization_id revision_id f.path) f.body t)
            files
        → All
            (λ (f : StaticFile). read_static g organization_id revision_id f.path t ≡ (ok f, t))
            files
    read_static-All [] t org rev safe h = tt
    read_static-All (f ∷ files) t org rev (safe, safes) (h, hs) = (
      read_static-Holds g organization_id revision_id f.path f.body t org rev safe.1 h
          ∙ ap (λ x. (ok x, t)) (sym safe.3),
      read_static-All files t org rev safes hs,
    )

    published_before-IsPublished :
        (archive : Bytes) (now : ℕ) (files : List StaticFile) (digest : String)
        (value : ObjectValue) (t : S)
        → parse_json g value ≡ ok (manifest_of g organization_id revision_id now archive files)
        → published_before g value digest t ≡ (
          if g.platform.digest archive == digest
              then ok (manifest_of g organization_id revision_id now archive files, false)
              else err (fault "revision_artifact_conflict" 409),
          t,
        )
    unfolding published_before get
    published_before-IsPublished archive now files digest value t parsed =
        rw parsed (elim (Bool-cases (g.platform.digest archive == digest)) [
          | inl e ↦ rw e refl
          | inr e ↦ rw e refl
        ])

    -- a publication of a valid archive to a revision that is published
    pub publish_static-over :
        (archive later : Bytes) (later_digest : String) (now then_now : ℕ)
        (first_files files : List StaticFile) (t : S)
        → IsPublished archive now first_files t
        → IsValid g later later_digest files
        → publish_static g organization_id revision_id later later_digest then_now t ≡ (
          if g.platform.digest archive == g.platform.digest later
              then ok (manifest_of g organization_id revision_id now archive first_files, false)
              else err (fault "revision_artifact_conflict" 409),
          t,
        )
    publish_static-over archive later later_digest now then_now first_files files t published
          valid =
        let (value, found, parsed) = stored_manifest archive now first_files t published in
        publish_static-valid g organization_id revision_id later later_digest then_now files t
          published.organization published.revision valid
        ∙ rw found (
            published_before-IsPublished archive now first_files (g.platform.digest later) value t
              parsed)

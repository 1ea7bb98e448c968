-- ===== src/Artifacts/Gateway/Published.antt =====
-- What a published site is: every file is read back, and its manifest decides later publications.
use layerrail_deploy.Prelude.{
  ℕ, String, ◌≡◌, refl, ◌==◌, ◌⊕◌, Bool, true, false, ◌&&◌, List, leb, chars, arith, Option-cases,
  inl, inr,
}
use layerrail_deploy.Effect.{ok}
use layerrail_deploy.Effect.Success.{and_then-ok, guard-ok}
use layerrail_deploy.Json.{Fields}
use layerrail_deploy.Artifacts.Store.{Bytes}
use layerrail_deploy.Artifacts.Paths.{uuid, path, is_digest_text, has_text}
use layerrail_deploy.Artifacts.Archives.{StaticFile, static_file, extract}
use layerrail_deploy.Artifacts.Gateway.{
  Gateway, publish_over, publish_static, read_static, manifest_of, revision_prefix,
}
use layerrail_deploy.Artifacts.Gateway.Immutable.{Holds}

pub uuid-same : (v w : String) → uuid v ≡ ok w → v ≡ w
unfolding uuid
uuid-same v w h = ground arith

module _ {S : Type 0} (g : Gateway S) where
  -- What `publish_static` asks of an archive, whose files these are.
  pub record IsValid (archive : Bytes) (expected_digest : String) (files : List StaticFile)
      : Type 0 where
    pub matched :
        (is_digest_text expected_digest && g.platform.digest archive == expected_digest) ≡ true
    pub sized : (has_text archive && leb (chars archive) g.limits.archive_bytes) ≡ true
    pub extracted : extract g.platform.digest g.limits (g.platform.members archive) ≡ ok files

  abbrev pub manifest_key : String → String → String
  manifest_key organization_id revision_id =
      revision_prefix organization_id revision_id ⊕ "manifest.json"

  abbrev pub file_key : String → String → String → String
  file_key organization_id revision_id p =
      revision_prefix organization_id revision_id ⊕ "files/" ⊕ p

  module _ (organization_id revision_id : String) where
    -- A publication of a valid archive comes to the store.
    pub publish_static-valid :
        (archive : Bytes) (expected_digest : String) (now : ℕ) (files : List StaticFile) (s : S)
        → uuid organization_id ≡ ok organization_id
        → uuid revision_id ≡ ok revision_id
        → IsValid archive expected_digest files
        → publish_static g organization_id revision_id archive expected_digest now s
          ≡ publish_over g
              (g.objects.get g.static_bucket (manifest_key organization_id revision_id) s)
              (revision_prefix organization_id revision_id)
              files
              (manifest_of g organization_id revision_id now archive files)
              (g.platform.digest archive)
              s
    unfolding publish_static
    publish_static-valid archive expected_digest now files s org rev valid =
        rw (org, rev, valid.matched, valid.sized, valid.extracted) refl

    -- One that returns was of a valid archive.
    pub publish_static-ok :
        (archive : Bytes) (expected_digest : String) (now : ℕ) (s t : S) (r : Fields × Bool)
        → publish_static g organization_id revision_id archive expected_digest now s ≡ (ok r, t)
        → (files : List StaticFile) × (uuid organization_id ≡ ok organization_id)
          × (uuid revision_id ≡ ok revision_id)
          × IsValid archive expected_digest files
    unfolding publish_static
    publish_static-ok archive expected_digest now s t r h =
        let (o, org, h₁) = and_then-ok r t (uuid organization_id) _ s h in
        let (v, rev, h₂) = and_then-ok r t (uuid revision_id) _ s h₁ in
        let (matched, h₃) =
          guard-ok r t
            (is_digest_text expected_digest && g.platform.digest archive == expected_digest) _ _ s
            h₂ in
        let (sized, h₄) =
          guard-ok r t (has_text archive && leb (chars archive) g.limits.archive_bytes) _ _ s h₃ in
        let (files, extracted, h₅) =
          and_then-ok r t (extract g.platform.digest g.limits (g.platform.members archive)) _ s
            h₄ in
        (
          files,
          rw (← uuid-same organization_id o org) at org,
          rw (← uuid-same revision_id v rev) at rev,
          record { matched = matched; sized = sized; extracted = extracted },
        )

    pub read_static-Holds :
        (p : String) (v : Bytes) (s : S)
        → uuid organization_id ≡ ok organization_id
        → uuid revision_id ≡ ok revision_id
        → path p false ≡ ok p
        → Holds g g.static_bucket (file_key organization_id revision_id p) v s
        → read_static g organization_id revision_id p s
          ≡ (ok (static_file g.platform.digest p v), s)
    unfolding read_static
    read_static-Holds p v s org rev relative holds =
        rw (org, rev, relative)
          (elim (Option-cases
            (g.objects.get g.static_bucket (file_key organization_id revision_id p) s)) [
              | inl missing ↦ ground (arith, missing, holds)
              | inr (value, found) ↦ ground (arith, found, holds)
            ])

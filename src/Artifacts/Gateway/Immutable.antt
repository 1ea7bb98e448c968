-- ===== src/Artifacts/Gateway/Immutable.antt =====
-- What the store holds is not overwritten: neither a file nor evidence nor a manifest.
use layerrail_deploy.Prelude.{
  ℕ, String, ◌≡◌, eq_iff, ◌⊕◌, Bool, Option, none, some, List, [], ◌∷◌, All, arith, Option-cases,
  inl, inr, ap,
}
use layerrail_deploy.Effect.{ok}
use layerrail_deploy.Effect.Keeps.{Keeps, Keeps-bind_any, Anything, read_rules}
use layerrail_deploy.Effect.Success.{pair_of, and_then-ok}
use layerrail_deploy.Json.{Fields}
use layerrail_deploy.Artifacts.Store.{Bytes, ObjectValue, IsStore, body_of}
use layerrail_deploy.Artifacts.Archives.{StaticFile}
use layerrail_deploy.Artifacts.Gateway.{
  Gateway, put_immutable, put_files, publish_new, published_before, publish_over, publish_static,
  put_evidence,
}

-- An object is there, with these bytes.
abbrev pub Holds : {S : Type 0} → Gateway S → String → String → Bytes → S → Type 0
Holds g b k v s = body_of (g.objects.get b k s) ≡ some v

module _ {S : Type 0} (g : Gateway S) (laws : IsStore g.objects) where
  -- `_put_immutable` has returned: the bytes are there.
  pub put_immutable-Holds :
      (b k : String) (v : Bytes) (content_type : String) (s t : S) (created : Bool)
      → put_immutable g b k v content_type s ≡ (ok created, t)
      → Holds g b k v t
  unfolding put_immutable
  put_immutable-Holds b k v content_type s t created h = elim (Option-cases (g.objects.get b k s)) [
    | inl missing ↦ ground (arith, missing, laws.get-put b k v content_type s)
    | inr (existing, found) ↦ ground (arith, found, eq_iff existing.body v)
  ]

  module _ (b k : String) (v : Bytes) where
    pub put_immutable-Keeps :
        (c l : String) (contents : Bytes) (content_type : String)
        → Keeps (Holds g b k v) Anything (put_immutable g c l contents content_type)
    unfolding put_immutable
    put_immutable-Keeps c l contents content_type = record {
      at = λ s holds. elim (Option-cases (g.objects.get c l s)) [
        | inl missing ↦ ground (
          arith,
          missing,
          eq_iff c b,
          eq_iff l k,
          laws.get-put_other c l b k contents content_type s,
        )
        | inr (existing, found) ↦ ground (arith, found, holds)
      ];
    }

    put_files-Keeps :
        (prefix : String) (files : List StaticFile)
        → Keeps (Holds g b k v) Anything (put_files g prefix files)
    unfolding put_files
    put_files-Keeps prefix [] = search read_rules
    put_files-Keeps prefix (file ∷ files) =
        Keeps-bind_any (Holds g b k v) Anything
          (put_immutable g g.static_bucket (prefix ⊕ "files/" ⊕ file.path) file.body
            file.media_type)
          (λ created. put_files g prefix files)
          (put_immutable-Keeps g.static_bucket (prefix ⊕ "files/" ⊕ file.path) file.body
            file.media_type)
          (λ created. put_files-Keeps prefix files)

    publish_over-Keeps :
        (existing : Option ObjectValue) (prefix : String) (files : List StaticFile)
        (manifest : Fields) (digest : String)
        → Keeps (Holds g b k v) Anything (publish_over g existing prefix files manifest digest)
    unfolding publish_new published_before
    publish_over-Keeps none prefix files manifest digest =
        search (read_rules, put_immutable-Keeps, put_files-Keeps)
    publish_over-Keeps (some existing) prefix files manifest digest = search read_rules

    pub publish_static-Keeps :
        (organization_id revision_id : String) (archive : Bytes) (expected_digest : String)
        (now : ℕ)
        → Keeps
            (Holds g b k v)
            Anything
            (publish_static g organization_id revision_id archive expected_digest now)
    unfolding publish_static
    publish_static-Keeps organization_id revision_id archive expected_digest now =
        search (read_rules, publish_over-Keeps) depth 16

    pub put_evidence-Keeps :
        (organization_id build_id name : String) (contents : Bytes) (expected_digest : String)
        → Keeps
            (Holds g b k v)
            Anything
            (put_evidence g organization_id build_id name contents expected_digest)
    unfolding put_evidence
    put_evidence-Keeps organization_id build_id name contents expected_digest =
        search (read_rules, put_immutable-Keeps) depth 16

  pub put_files-Holds :
      (prefix : String) (files : List StaticFile) (s t : S)
      → put_files g prefix files s ≡ (ok tt, t)
      → All
          (λ (f : StaticFile). Holds g g.static_bucket (prefix ⊕ "files/" ⊕ f.path) f.body t)
          files
  unfolding put_files
  put_files-Holds prefix [] s t h = tt
  put_files-Holds prefix (file ∷ files) s t h =
      let put =
        put_immutable g g.static_bucket (prefix ⊕ "files/" ⊕ file.path) file.body file.media_type
          s in
      let (created, made, rest) = and_then-ok tt t put.0 _ put.1 h in
      let here =
        put_immutable-Holds g.static_bucket (prefix ⊕ "files/" ⊕ file.path) file.body
          file.media_type s put.1 created (pair_of put made) in
      let later =
        (put_files-Keeps g.static_bucket (prefix ⊕ "files/" ⊕ file.path) file.body prefix files).at
          put.1 here in
      (rw (← ap (λ x. x.1) rest) later.0, put_files-Holds prefix files put.1 t rest)

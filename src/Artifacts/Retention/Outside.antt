-- ===== src/Artifacts/Retention/Outside.antt =====
-- Which objects of the sites lie outside a reconciliation.
use Prim.Native.String.{[], ◌∷◌}
use text.Mathlib.TextLemmas.{append_assoc, append-nil}
use layerrail_deploy.Prelude.{
  String, ◌≡◌, refl, sym, ap, ◌∙◌, ◌==◌, eq_refl, ◌⊕◌, true, false, ◌&&◌, List, one_of, starts_with,
  Bool-cases, inl, inr,
}
use layerrail_deploy.Effect.{ok}
use layerrail_deploy.Artifacts.Paths.{uuid}
use layerrail_deploy.Artifacts.Keys.{
  slash_text, starts_with-append, drop_chars-append, partition_on-slash, starts_with-slash,
  uuid-not_slash,
}
use layerrail_deploy.Artifacts.Gateway.{revision_prefix}
use layerrail_deploy.Artifacts.Retention.{revision_of, revisions_prefix}

-- The key of an object of a revision, regrouped.
key_lem :
    (o r rest : String) → revision_prefix o r ⊕ rest ≡ revisions_prefix o ⊕ (r ⊕ slash_text rest)
key_lem o r rest = simp append_assoc

prefix_lem :
    (o x : String) → revisions_prefix o ⊕ x ≡ "organizations/" ⊕ (o ⊕ slash_text ("revisions/" ⊕ x))
prefix_lem o x =
    let regrouped : revisions_prefix o ⊕ x ≡ "organizations/" ⊕ (o ⊕ ("/revisions/" ⊕ x)) =
      simp append_assoc in
    regrouped ∙ ap (λ t. "organizations/" ⊕ (o ⊕ t)) (append_assoc "/" "revisions/" x)

own_organization :
    (organization o r rest : String)
    → uuid organization ≡ ok organization
    → uuid o ≡ ok o
    → starts_with (revision_prefix o r ⊕ rest) (revisions_prefix organization) ≡ true
    → o ≡ organization
own_organization organization o r rest valid vo e =
    let regrouped = key_lem o r rest ∙ prefix_lem o (r ⊕ slash_text rest) in
    starts_with-slash o organization ("revisions/" ⊕ (r ⊕ slash_text rest)) "revisions/"
      (uuid-not_slash o vo) (uuid-not_slash organization valid)
      (sym (
          starts_with-append "organizations/"
            (o ⊕ slash_text ("revisions/" ⊕ (r ⊕ slash_text rest)))
            (organization ⊕ slash_text "revisions/"))
        ∙ rw regrouped at e)

pub revision_of-key :
    (o r rest : String)
    → uuid r ≡ ok r
    → starts_with (revision_prefix o r ⊕ rest) (revisions_prefix o) ≡ true
    → revision_of (revisions_prefix o) (revision_prefix o r ⊕ rest) ≡ r
revision_of-key o r rest valid e = rw e (
    rw
      (
        key_lem o r rest,
        drop_chars-append (revisions_prefix o) (r ⊕ slash_text rest),
        partition_on-slash r rest (uuid-not_slash r valid),
      )
      refl)

starts_with_nil : (s : String) → starts_with s "" ≡ true
starts_with_nil [] = refl
starts_with_nil (c ∷ s) = refl

pub revision_prefix-starts_with :
    (o r rest : String) → starts_with (revision_prefix o r ⊕ rest) (revisions_prefix o) ≡ true
revision_prefix-starts_with o r rest = rw (key_lem o r rest) (
    ap (starts_with (revisions_prefix o ⊕ (r ⊕ slash_text rest)))
      (sym (append-nil (revisions_prefix o)))
    ∙ starts_with-append (revisions_prefix o) (r ⊕ slash_text rest) ""
    ∙ starts_with_nil (r ⊕ slash_text rest))

-- An object of another organization, or of a revision that is no candidate, lies outside.
pub outside_lem :
    (organization o r rest : String) (candidates : List String)
    → uuid organization ≡ ok organization
    → uuid o ≡ ok o
    → uuid r ≡ ok r
    → (o == organization && one_of r candidates) ≡ false
    → (starts_with (revision_prefix o r ⊕ rest) (revisions_prefix organization)
        && one_of
            (revision_of (revisions_prefix organization) (revision_prefix o r ⊕ rest))
            candidates)
      ≡ false
outside_lem organization o r rest candidates valid vo vr h =
    elim (Bool-cases (starts_with (revision_prefix o r ⊕ rest) (revisions_prefix organization))) [
      | inr e ↦ rw e refl
      | inl e ↦
          let same = own_organization organization o r rest valid vo e in
          let own = rw (← same) at e in
          let h₁ = rw (← same, eq_refl o) at h in
          rw (← same, revision_of-key o r rest vr own, own) h₁
    ]

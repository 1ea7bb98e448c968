-- ===== src/Artifacts/Keys.antt =====
-- The keys of the buckets: which organization and which revision a key names.
use Prim.Native.Char.{Char, code}
use Prim.Native.String.{String, [], ◌∷◌}
use mathlib.Core.List.{List}
use text.Mathlib.TextEquality.{Char-path}
use text.Mathlib.TextLemmas.{cons-append, nil-append}
use layerrail_deploy.Prelude.{
  ◌≡◌, refl, ap, ◌∙◌, Bool, true, not, ◌&&◌, some, nat_eq, chars, starts_with, drop_chars,
  partition_on, ◌⊕◌, arith,
}
use layerrail_deploy.Effect.{ok}
use layerrail_deploy.Registry.Names.{Shape, hex, version, variant, exactly, follows}
use layerrail_deploy.Artifacts.Paths.{uuid, canonical_uuid, all_chars}

abbrev pub not_slash : Char → Bool
not_slash c = not (nat_eq (code c) b'/')

abbrev pub slash_text : String → String
slash_text s = "/" ⊕ s

slash_lem : (s : String) → slash_text s ≡ "/" ∷ s
slash_lem s = cons-append "/" [] s ∙ ap (λ t. "/" ∷ t) (nil-append s)

pub starts_with-append : (s x y : String) → starts_with (s ⊕ x) (s ⊕ y) ≡ starts_with x y
starts_with-append [] x y = rw (nil-append x, nil-append y) refl
starts_with-append (c ∷ s) x y =
    rw (cons-append c s x, cons-append c s y) (ground (arith, starts_with-append s x y))

pub drop_chars-append : (s x : String) → drop_chars (chars s) (s ⊕ x) ≡ x
drop_chars-append [] x = nil-append x
drop_chars-append (c ∷ s) x = rw (cons-append c s x) (drop_chars-append s x)

pub partition_on-slash :
    (a x : String)
    → all_chars not_slash a ≡ true
    → partition_on b'/' (a ⊕ slash_text x) ≡ some (a, x)
partition_on-slash [] x h = rw (nil-append (slash_text x), slash_lem x) refl
partition_on-slash (c ∷ a) x h =
    rw (cons-append c a (slash_text x)) (ground (arith, partition_on-slash a x))

-- A text that goes on with a slash is a prefix of another only if they agree up to the slash.
pub starts_with-slash :
    (a b x y : String)
    → all_chars not_slash a ≡ true
    → all_chars not_slash b ≡ true
    → starts_with (a ⊕ slash_text x) (b ⊕ slash_text y) ≡ true
    → a ≡ b
starts_with-slash [] [] x y h k e = refl
starts_with-slash [] (d ∷ b) x y h k e =
    let e₁ = rw (nil-append (slash_text x), slash_lem x, cons-append d b (slash_text y)) at e in
    ground arith
starts_with-slash (c ∷ a) [] x y h k e =
    let e₁ = rw (nil-append (slash_text y), slash_lem y, cons-append c a (slash_text x)) at e in
    ground arith
starts_with-slash (c ∷ a) (d ∷ b) x y h k e =
    let e₁ = rw (cons-append c a (slash_text x), cons-append d b (slash_text y)) at e in
    ground (arith, Char-path c d, starts_with-slash a b x y)

abbrev no_slash_in : List Shape → Bool
no_slash_in List.[] = true
no_slash_in (List.◌∷◌ hex l) = no_slash_in l
no_slash_in (List.◌∷◌ version l) = no_slash_in l
no_slash_in (List.◌∷◌ variant l) = no_slash_in l
no_slash_in (List.◌∷◌ (exactly n) l) = not (nat_eq n b'/') && no_slash_in l

follows-not_slash :
    (l : List Shape) (s : String)
    → no_slash_in l ≡ true
    → follows l s ≡ true
    → all_chars not_slash s ≡ true
follows-not_slash List.[] [] h k = refl
follows-not_slash List.[] (c ∷ s) h k = ground arith
follows-not_slash (List.◌∷◌ p l) [] h k = refl
follows-not_slash (List.◌∷◌ hex l) (c ∷ s) h k = ground (arith, follows-not_slash l s h)
follows-not_slash (List.◌∷◌ version l) (c ∷ s) h k = ground (arith, follows-not_slash l s h)
follows-not_slash (List.◌∷◌ variant l) (c ∷ s) h k = ground (arith, follows-not_slash l s h)
follows-not_slash (List.◌∷◌ (exactly n) l) (c ∷ s) h k = ground (arith, follows-not_slash l s)

pub uuid-not_slash : (v : String) → uuid v ≡ ok v → all_chars not_slash v ≡ true
unfolding uuid
uuid-not_slash v h = follows-not_slash canonical_uuid v refl (ground arith)

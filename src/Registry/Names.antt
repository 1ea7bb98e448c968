-- ===== src/Registry/Names.antt =====
-- store.py: the repositories that a credential may name.
use Prim.Native.Char.{Char, code}
use layerrail_deploy.Prelude.{
  ℕ, String, Bool, true, false, not, ◌&&◌, ◌||◌, List, [], ◌∷◌, leb, nat_eq, starts_with, ends_with,
  contains,
}

-- the classes of `_EXACT_REPOSITORY`
pub data Shape : Type 0 where
  hex version variant : Shape
  exactly : ℕ → Shape

abbrev pub between : ℕ → ℕ → Char → Bool
between low high c = leb low (code c) && leb (code c) high

abbrev pub has_shape : Shape → Char → Bool
has_shape hex c = between b'0' b'9' c || between b'a' b'f' c
has_shape version c = between b'1' b'8' c
has_shape variant c = between b'8' b'9' c || between b'a' b'b' c
has_shape (exactly k) c = nat_eq (code c) k

abbrev pub follows : List Shape → String → Bool
follows [] String.[] = true
follows (p ∷ ps) (String.◌∷◌ c s) = has_shape p c && follows ps s
follows _ _ = false

abbrev pub four : List Shape → List Shape
four l = hex ∷ hex ∷ hex ∷ hex ∷ l

abbrev pub dash : List Shape → List Shape
dash l = exactly b'-' ∷ l

abbrev pub uuid : List Shape → List Shape
uuid l = four (
    four (
      dash (
        four (
          dash (
            version
            ∷ hex
            ∷ hex
            ∷ hex
            ∷ dash (variant ∷ hex ∷ hex ∷ hex ∷ dash (four (four (four l)))))))))

abbrev pub exact_repository : List Shape
exact_repository =
    exactly b'l'
    ∷ exactly b'r'
    ∷ exactly b'a'
    ∷ exactly b'i'
    ∷ exactly b'l'
    ∷ exactly b'/'
    ∷ uuid (exactly b'/' ∷ uuid [])

-- `organization_prefix` of `_validate`
abbrev pub is_organization_prefix : String → Bool
is_organization_prefix prefix =
    starts_with prefix "lrail/" && ends_with prefix "/" && not (contains ".." prefix)

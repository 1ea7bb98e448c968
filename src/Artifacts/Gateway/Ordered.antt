-- ===== src/Artifacts/Gateway/Ordered.antt =====
-- The dicts that the gateway stores have their keys in order, so that they are read back as they
-- were written.
use Prim.Native.String.{compare as compare_text}
use Prim.Native.Nat.{Ordering}
use layerrail_deploy.Prelude.{ℕ, String, ◌≡◌, refl, Bool, true, false, ◌&&◌, some, List, [], ◌∷◌}
use layerrail_deploy.Json.{
  Json, null, bool, num, text, array, object, Items, nil, cons, Fields, end, field,
}
use layerrail_deploy.Artifacts.Store.{Bytes}
use layerrail_deploy.Artifacts.Archives.{StaticFile}
use layerrail_deploy.Artifacts.Gateway.{Platform, Gateway, file_values, manifest_of}

abbrev before : String → Fields → Bool
before k end = true
before k (field j v d) = elim (compare_text k j) [ Ordering.lt ↦ true | _ ↦ false ]

abbrev mutual
  is_ordered_json : Json → Bool
  is_ordered_json null = true
  is_ordered_json (bool b) = true
  is_ordered_json (num n) = true
  is_ordered_json (text s) = true
  is_ordered_json (array l) = is_ordered_items l
  is_ordered_json (object d) = is_ordered d

  pub is_ordered_items : Items → Bool
  is_ordered_items nil = true
  is_ordered_items (cons v l) = is_ordered_json v && is_ordered_items l

  pub is_ordered : Fields → Bool
  is_ordered end = true
  is_ordered (field k v d) = before k d && is_ordered_json v && is_ordered d

-- `json.loads` of what `_canonical_json` wrote
pub record IsCodec (platform : Platform) : Type 0 where
  pub loads-dumps :
      (d : Fields) → is_ordered d ≡ true → platform.loads (platform.dumps d) ≡ some (object d)

file_values-ordered : (files : List StaticFile) → is_ordered_items (file_values files) ≡ true
file_values-ordered [] = refl
file_values-ordered (file ∷ files) = file_values-ordered files

pub manifest_of-ordered :
    {S : Type 0} (g : Gateway S) (organization_id revision_id : String) (now : ℕ) (archive : Bytes)
    (files : List StaticFile)
    → is_ordered (manifest_of g organization_id revision_id now archive files) ≡ true
manifest_of-ordered g organization_id revision_id now archive files =
    rw (file_values-ordered files) refl

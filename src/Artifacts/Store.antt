-- ===== src/Artifacts/Store.antt =====
-- storage.py: the object store as an interface, the protocol `ObjectStore` with what the gateway
-- relies on. `S` is the state of the store, as MinIO keeps it.
use layerrail_deploy.Prelude.{
  ℕ, String, true, false, ◌&&◌, Option, none, some, List, ◌≡◌, ◌==◌, if◌then◌else◌, one_of,
  starts_with, All,
}

-- a byte string, as the text of its bytes
abbrev pub Bytes : Type 0
Bytes = String

pub record ObjectInfo : Type 0 where
  pub key : String
  pub size : ℕ
  pub last_modified : ℕ
  pub content_type : String

pub record ObjectValue : Type 0 where
  pub body : Bytes
  pub info : ObjectInfo

pub record ObjectStore (S : Type 0) : Type 0 where
  pub get : (bucket key : String) → S → Option ObjectValue
  -- the body and the content type; the metadata of an object is never read
  pub put : (bucket key : String) → Bytes → String → S → S
  pub list : (bucket prefix : String) → S → List ObjectInfo
  pub delete : (bucket : String) → List String → S → S

abbrev pub body_of : Option ObjectValue → Option Bytes
body_of none = none
body_of (some value) = some value.body

-- An object that was put is read back, no other object changes, a deletion takes away the objects
-- that it names and no other, and a listing holds objects of its prefix.
pub record IsStore {S : Type 0} (objects : ObjectStore S) : Type 0 where
  pub get-put :
      (b k : String) (body : Bytes) (t : String) (s : S)
      → body_of (objects.get b k (objects.put b k body t s)) ≡ some body
  pub get-put_other :
      (b k c l : String) (body : Bytes) (t : String) (s : S)
      → (b == c && k == l) ≡ false
      → objects.get c l (objects.put b k body t s) ≡ objects.get c l s
  pub get-delete :
      (b c l : String) (keys : List String) (s : S)
      → objects.get c l (objects.delete b keys s)
        ≡ (if b == c && one_of l keys then none else objects.get c l s)
  pub list_prefix :
      (b prefix : String) (s : S)
      → All (λ info. starts_with info.key prefix ≡ true) (objects.list b prefix s)

-- ===== src/Json.antt =====
-- JSON values, as `json.loads` returns them, and the `dict` operations that the services use.
pub mod Laws
use layerrail_deploy.Prelude.{ℕ, String, Bool, ◌==◌, Option, none, some, if◌then◌else◌}

-- Numbers are those that the services store: counts and times, never negative.
mutual
  pub data Json : Type 0 where
    null : Json
    bool : Bool → Json
    num : ℕ → Json
    text : String → Json
    array : Items → Json
    object : Fields → Json

  pub data Items : Type 0 where
    nil : Items
    cons : Json → Items → Items

  pub data Fields : Type 0 where
    end : Fields
    field : String → Json → Fields → Fields

-- `d.get(key)`
unfoldable pub get : String → Fields → Option Json
get k end = none
get k (field j v d) = if j == k then some v else get k d

-- `d[key] = value`
unfoldable pub put : String → Json → Fields → Fields
put k v end = field k v end
put k v (field j w d) = if j == k then field j v d else field j w (put k v d)

-- `d | e`
unfoldable pub union : Fields → Fields → Fields
unfolding put
union d end = d
union d (field k v e) = union (put k v d) e

-- `{key: value for key, value in d.items() if key != k}`
unfoldable pub remove : String → Fields → Fields
remove k end = end
remove k (field j v d) = let rest = remove k d in if j == k then rest else field j v rest

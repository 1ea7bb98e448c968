-- ===== src/Json/Laws.antt =====
-- The laws of `dict` that the proofs use.
use layerrail_deploy.Prelude.{
  String, ◌≡◌, refl, ◌==◌, eq_iff, Option, none, some, arith, if◌then◌else◌,
}
use layerrail_deploy.Json.{Json, Fields, end, field, get, put, union, remove}

pub get-put :
    (k j : String) (v : Json) (d : Fields)
    → get j (put k v d) ≡ (if k == j then some v else get j d)
unfolding get put
get-put k j v end = refl
get-put k j v (field i w d) = ground (arith, eq_iff k j, eq_iff i k, eq_iff i j, get-put k j v d)

pub get-remove :
    (k j : String) (d : Fields) → get j (remove k d) ≡ (if k == j then none else get j d)
unfolding get remove
get-remove k j end = ground arith
get-remove k j (field i w d) = ground (arith, eq_iff k j, eq_iff i k, eq_iff i j, get-remove k j d)

abbrev pub or_else : Option Json → Option Json → Option Json
or_else none o = o
or_else (some v) o = some v

-- the last entry of `e` with the key counts, as `d | e` writes them in order
abbrev pub get_last : String → Fields → Option Json
get_last k end = none
get_last k (field j v d) = or_else (get_last k d) (if j == k then some v else none)

pub get-union : (k : String) (d e : Fields) → get k (union d e) ≡ or_else (get_last k e) (get k d)
unfolding union
get-union k d end = refl
get-union k d (field j v e) = ground (arith, get-union k (put j v d) e, get-put j k v d)

-- ===== src/Artifacts/Memory.antt =====
-- tests/test_artifact_gateway.py, `MemoryStore`: an object store that has the laws. Its dict has
-- the bucket and the key of each object.
use layerrail_deploy.Prelude.{
  ℕ, String, ◌≡◌, refl, ap, ◌∙◌, ◌==◌, eq_iff, eq_refl, Bool, true, ◌&&◌, Option, none, some, List,
  [], ◌∷◌, if◌then◌else◌, one_of, starts_with, All, chars, first, upsert, discard, first-upsert,
  first-upsert_other, first-discard, first-discard_other, arith, Bool-cases, inl, inr,
}
use layerrail_deploy.Artifacts.Store.{Bytes, ObjectInfo, ObjectValue, ObjectStore, IsStore}

pub record Entry : Type 0 where
  pub bucket : String
  pub value : ObjectValue

pub record Memory : Type 0 where
  pub now : ℕ
  pub values : List Entry

abbrev is_at : String → String → Entry → Bool
is_at b k e = e.bucket == b && e.value.info.key == k

abbrev value_of : Option Entry → Option ObjectValue
value_of none = none
value_of (some e) = some e.value

abbrev get : String → String → Memory → Option ObjectValue
get b k m = value_of (first (is_at b k) m.values)

abbrev new_entry : String → String → Bytes → String → ℕ → Entry
new_entry b k contents t now = record {
  bucket = b;
  value = record {
    body = contents;
    info = record { key = k; size = chars contents; last_modified = now; content_type = t };
  };
}

abbrev put : String → String → Bytes → String → Memory → Memory
put b k contents t m = record m {
  values = upsert (is_at b k) (new_entry b k contents t m.now) m.values;
}

unfoldable pub list_values : String → String → List Entry → List ObjectInfo
list_values b prefix [] = []
list_values b prefix (e ∷ values) =
    let rest = list_values b prefix values in
    if e.bucket == b && starts_with e.value.info.key prefix then e.value.info ∷ rest else rest

unfoldable pub delete_values : String → List String → List Entry → List Entry
delete_values b [] values = values
delete_values b (k ∷ keys) values = delete_values b keys (discard (is_at b k) values)

abbrev pub memory : ObjectStore Memory
memory = record {
  get = get;
  put = put;
  list = λ b prefix m. list_values b prefix m.values;
  delete = λ b keys m. record m { values = delete_values b keys m.values };
}

list_values-prefix :
    (b prefix : String) (values : List Entry)
    → All (λ (info : ObjectInfo). starts_with info.key prefix ≡ true) (list_values b prefix values)
unfolding list_values
list_values-prefix b prefix [] = tt
list_values-prefix b prefix (e ∷ values) =
    elim (Bool-cases (e.bucket == b && starts_with e.value.info.key prefix)) [
      | inl h ↦ rw h (ground (arith, h), list_values-prefix b prefix values)
      | inr h ↦ rw h (list_values-prefix b prefix values)
    ]

first-delete_values :
    (b c l : String) (keys : List String) (values : List Entry)
    → value_of (first (is_at c l) (delete_values b keys values))
      ≡ (if b == c && one_of l keys then none else value_of (first (is_at c l) values))
unfolding delete_values
first-delete_values b c l [] values = ground arith
first-delete_values b c l (k ∷ keys) values = elim (Bool-cases (b == c && k == l)) [
  | inl e ↦
      let same : is_at b k ≡ is_at c l =
        rw ((eq_iff b c).0 (ground arith), (eq_iff k l).0 (ground arith)) refl in
      first-delete_values b c l keys (discard (is_at b k) values)
      ∙ rw (same, first-discard (is_at c l) values) (ground (arith, eq_iff k l, eq_iff l k))
  | inr e ↦
      first-delete_values b c l keys (discard (is_at b k) values)
      ∙ rw
          (first-discard_other (is_at b k) (is_at c l) values
            (λ (x : Entry) h. ground (arith, e, eq_iff x.bucket b, eq_iff x.value.info.key k)))
          (ground (arith, e, eq_iff k l, eq_iff l k))
]

pub memory-IsStore : IsStore memory
memory-IsStore = record {
  get-put = λ b k contents t m.
      rw
        (first-upsert (is_at b k) (new_entry b k contents t m.now) m.values
          (rw (eq_refl b, eq_refl k) refl))
        refl;
  get-put_other = λ b k c l contents t m apart. ap value_of (
      first-upsert_other (is_at b k) (is_at c l) (new_entry b k contents t m.now) m.values
        (λ (e : Entry) h. ground (arith, eq_iff e.bucket b, eq_iff e.value.info.key k)) apart);
  get-delete = λ b c l keys m. first-delete_values b c l keys m.values;
  list_prefix = λ b prefix m. list_values-prefix b prefix m.values;
}

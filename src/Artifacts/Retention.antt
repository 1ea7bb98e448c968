-- ===== src/Artifacts/Retention.antt =====
-- artifacts.py: `Artifacts.reconcile`, which deletes the old revisions of an organization.
pub mod Untouched
pub mod Requests
pub mod Kept
pub mod Again
pub mod Grouped
pub mod Young
pub mod Outside
use Prim.Native.String.{compare as compare_text}
use Prim.Native.Nat.{Ordering}
use layerrail_deploy.Prelude.{
  ℕ, String, ◌==◌, ◌⊕◌, Bool, true, false, not, ◌&&◌, ◌||◌, Option, none, some, List, [], ◌∷◌, ◌++◌,
  map, ltb, leb, if◌then◌else◌, length, any, one_of, chars, starts_with, drop_chars, partition_on,
}
use layerrail_deploy.Effect.{
  Result, ok, err, Exec, pure, raise, lift, gets, modify, guard, ◌>>=◌, ◌>>◌,
}
use layerrail_deploy.Json.{
  Json, num, text, array, object, Items, nil, cons, Fields, end, field, get,
}
use layerrail_deploy.Registry.Credentials.{sorted_set}
use layerrail_deploy.Artifacts.Store.{Bytes, ObjectInfo, ObjectValue}
use layerrail_deploy.Artifacts.Paths.{Fault, fault, uuid}
use layerrail_deploy.Artifacts.Gateway.{
  Gateway, Action, digest_of, stored, put_immutable, parse_json, is_text,
}

-- `delete_before`, with or without a time zone
pub data Moment : Type 0 where
  naive aware : ℕ → Moment

pub record Retention : Type 0 where
  pub reconciliation_id : String
  pub organization_id : String
  pub retain_revision_ids : List String
  pub delete_candidate_revision_ids : List String
  pub delete_before : Moment

-- `[self._uuid(value) for value in …]`
unfoldable pub all_uuids : List String → Result Fault (List String)
all_uuids [] = ok []
all_uuids (value ∷ values) = elim (uuid value) [
  | err e ↦ err e
  | ok v ↦ elim (all_uuids values) [ err e ↦ err e | ok vs ↦ ok (v ∷ vs) ]
]

abbrev pub cutoff_of : Moment → Result Fault ℕ
cutoff_of (naive at) = err (fault "retention_cutoff_invalid" 422)
cutoff_of (aware at) = ok at

-- `value.key.removeprefix(prefix)` and `remainder.split("/", 1)[0]`
abbrev removeprefix : String → String → String
removeprefix prefix key = if starts_with key prefix then drop_chars (chars prefix) key else key

abbrev pub first_part : String → Option (String × String) → String
first_part s none = s
first_part s (some (a, b)) = a

abbrev pub before_slash : String → String
before_slash s = first_part s (partition_on b'/' s)

abbrev pub revision_of : String → String → String
revision_of prefix key = before_slash (removeprefix prefix key)

abbrev pub Groups : Type 0
Groups = List (String × List ObjectInfo)

-- `grouped.setdefault(revision_id, []).append(value)`
unfoldable pub append_group : String → ObjectInfo → Groups → Groups
append_group r value [] = (r, value ∷ []) ∷ []
append_group r value ((q, values) ∷ groups) =
    if q == r then (q, values ++ value ∷ []) ∷ groups else (q, values) ∷ append_group r value groups

unfoldable pub group_objects : String → List String → List ObjectInfo → Groups → Groups
group_objects prefix candidates [] groups = groups
group_objects prefix candidates (value ∷ values) groups = group_objects prefix candidates values (
    if one_of (revision_of prefix value.key) candidates
    then append_group (revision_of prefix value.key) value groups
    else groups)

-- `sorted(grouped.items())`, whose keys are distinct
abbrev pub insert_group : (String × List ObjectInfo) → Groups → Groups
insert_group (r, values) [] = (r, values) ∷ []
insert_group (r, values) ((q, others) ∷ groups) =
    let rest = insert_group (r, values) groups in
    elim (compare_text r q) [
      | Ordering.gt ↦ (q, others) ∷ rest
      | _ ↦ (r, values) ∷ (q, others) ∷ groups
    ]

unfoldable pub sorted_groups : Groups → Groups
sorted_groups [] = []
sorted_groups (x ∷ groups) = insert_group x (sorted_groups groups)

-- `max(value.last_modified for value in values)`
abbrev pub latest : List ObjectInfo → ℕ
latest [] = 0
latest (value ∷ values) =
    if ltb (latest values) value.last_modified then value.last_modified else latest values

abbrev pub keys_of : List ObjectInfo → List String
keys_of values = map (λ (value : ObjectInfo). value.key) values

abbrev pub texts : List String → Items
texts [] = nil
texts (s ∷ l) = cons (text s) (texts l)

abbrev pub revisions_prefix : String → String
revisions_prefix organization_id = "organizations/" ⊕ organization_id ⊕ "/revisions/"

abbrev pub retention_key : String → String → String
retention_key organization_id reconciliation_id =
    "organizations/" ⊕ organization_id ⊕ "/retention/" ⊕ reconciliation_id ⊕ ".json"

module _ {S : Type 0} (g : Gateway S) where
  -- `request_value`, with `delete_before` as it is written
  abbrev pub request_value : String → String → List String → List String → ℕ → Fields
  request_value reconciliation_id organization_id retained candidates cutoff =
      field "delete_before" (text (g.platform.stamp cutoff)) (
        field "delete_candidate_revision_ids" (array (texts candidates)) (
          field "organization_id" (text organization_id) (
            field "reconciliation_id" (text reconciliation_id)
              (field "retain_revision_ids" (array (texts retained)) end))))

  -- `request_value | {…}`, with its keys in order
  abbrev pub result_value :
      String → String → List String → List String → ℕ → String → ℕ → List String → Fields
  result_value reconciliation_id organization_id retained candidates cutoff digest now deleted =
      field "delete_before" (text (g.platform.stamp cutoff)) (
        field "delete_candidate_revision_ids" (array (texts candidates)) (
          field "deleted_revision_ids" (array (texts deleted)) (
            field "organization_id" (text organization_id) (
              field "reconciled_at" (text (g.platform.stamp now)) (
                field "reconciliation_id" (text reconciliation_id) (
                  field "request_digest" (text digest) (
                    field "retain_revision_ids" (array (texts retained))
                      (field "schema_version" (num 1) end))))))))

  -- the loop over the groups, which returns the revisions that it deleted
  unfoldable pub delete_groups : List String → ℕ → Groups → Action g (List String)
  delete_groups retained cutoff [] = pure []
  delete_groups retained cutoff ((r, values) ∷ groups) =
      let rest = delete_groups retained cutoff groups in
      if one_of r retained || leb cutoff (latest values) then rest else do
        modify (g.objects.delete g.static_bucket (keys_of values))
        deleted ← rest
        pure (r ∷ deleted)

  unfoldable pub reconciled_before : ObjectValue → String → Action g (Fields × Bool)
  reconciled_before existing digest = do
    result ← lift (parse_json g existing)
    guard (is_text digest (get "request_digest" result))
        (fault "retention_reconciliation_conflict" 409)
    pure (result, false)

  -- what follows the deletions
  unfoldable pub store_result : String → String → Fields → Action g (Fields × Bool)
  store_result reconciliation organization result = do
    put_immutable g g.evidence_bucket (retention_key organization reconciliation)
        (g.platform.dumps result) "application/json"
    pure (result, true)

  -- what follows the listing of the organization's objects
  unfoldable pub reconcile_listed :
      String
      → String
      → List String
      → List String
      → ℕ
      → String
      → ℕ
      → List ObjectInfo
      → Action g (Fields × Bool)
  reconcile_listed reconciliation organization retained candidates cutoff digest now objects = do
    deleted ←
        delete_groups retained cutoff
          (sorted_groups (group_objects (revisions_prefix organization) candidates objects []))
    store_result reconciliation organization
        (result_value reconciliation organization retained candidates cutoff digest now deleted)

  unfoldable pub reconcile_new :
      String → String → List String → List String → ℕ → String → ℕ → Action g (Fields × Bool)
  reconcile_new reconciliation organization retained candidates cutoff digest now = do
    objects ← gets (g.objects.list g.static_bucket (revisions_prefix organization))
    reconcile_listed reconciliation organization retained candidates cutoff digest now objects

  abbrev pub reconcile_over :
      Option ObjectValue
      → String
      → String
      → List String
      → List String
      → ℕ
      → String
      → ℕ
      → Action g (Fields × Bool)
  reconcile_over (some existing) reconciliation organization retained candidates cutoff digest now =
      reconciled_before existing digest
  reconcile_over none reconciliation organization retained candidates cutoff digest now =
      reconcile_new reconciliation organization retained candidates cutoff digest now

  abbrev pub reconcile_sets :
      String → String → List String → List String → Moment → ℕ → Action g (Fields × Bool)
  reconcile_sets reconciliation organization retained candidates delete_before now = do
    guard
        (leb (length retained) 1000
          && leb (length candidates) 1000
          && not (any (λ r. one_of r candidates) retained))
        (fault "retention_set_invalid" 422)
    cutoff ← lift (cutoff_of delete_before)
    guard (leb cutoff now) (fault "retention_cutoff_invalid" 422)
    let digest =
        digest_of g
          (g.platform.dumps (request_value reconciliation organization retained candidates cutoff))
    existing ← stored g g.evidence_bucket (retention_key organization reconciliation)
    reconcile_over existing reconciliation organization retained candidates cutoff digest now

  unfoldable pub reconcile : Retention → ℕ → Action g (Fields × Bool)
  reconcile request now = do
    reconciliation ← lift (uuid request.reconciliation_id)
    organization ← lift (uuid request.organization_id)
    retained ← lift (all_uuids request.retain_revision_ids)
    candidates ← lift (all_uuids request.delete_candidate_revision_ids)
    reconcile_sets reconciliation organization (sorted_set retained) (sorted_set candidates)
        request.delete_before now

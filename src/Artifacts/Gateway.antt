-- ===== src/Artifacts/Gateway.antt =====
-- artifacts.py: `Artifacts`, all but `reconcile` and `_extract`. A method runs under the lock from
-- its first look at the store to its last write, so it is one action on the store.
pub mod Immutable
pub mod Published
pub mod Manifest
pub mod Ordered
use layerrail_deploy.Prelude.{
  ℕ, String, ◌==◌, ◌⊕◌, Bool, true, false, not, ◌&&◌, ◌||◌, Option, none, some, List, [], ◌∷◌, leb,
  chars, ends_with, is_some, if◌then◌else◌,
}
use layerrail_deploy.Effect.{
  Result, ok, err, Exec, pure, raise, lift, gets, modify, guard, require, ◌>>=◌, ◌>>◌,
}
use layerrail_deploy.Json.{
  Json, num, text, array, object, Items, nil, cons, Fields, end, field, get,
}
use layerrail_deploy.Artifacts.Store.{Bytes, ObjectInfo, ObjectValue, ObjectStore}
use layerrail_deploy.Artifacts.Paths.{
  Fault, fault, attribute_error, uuid, path, is_digest_text, is_evidence_name, has_text,
}
use layerrail_deploy.Artifacts.Media.{media_type, cache_control}
use layerrail_deploy.Artifacts.Archives.{ArtifactLimits, StaticFile, Member, static_file, extract}

-- The standard library: "sha256:" and the digest of bytes, `json.dumps` with sorted keys,
-- `json.loads` (`none` for a text that is no JSON), the members of a tar archive, and a time as the
-- services write it.
pub record Platform : Type 0 where
  pub digest : Bytes → String
  pub dumps : Fields → Bytes
  pub loads : Bytes → Option Json
  pub members : Bytes → Option (List Member)
  pub stamp : ℕ → String

-- `Artifacts.__init__`
pub record Gateway (S : Type 0) : Type 0 where
  pub objects : ObjectStore S
  pub platform : Platform
  pub limits : ArtifactLimits
  pub static_bucket : String
  pub evidence_bucket : String

abbrev pub revision_prefix : String → String → String
revision_prefix organization_id revision_id =
    "organizations/" ⊕ organization_id ⊕ "/revisions/" ⊕ revision_id ⊕ "/"

abbrev pub evidence_key : String → String → String → String
evidence_key organization_id build_id name =
    "organizations/" ⊕ organization_id ⊕ "/builds/" ⊕ build_id ⊕ "/" ⊕ name

-- The dicts are written with their keys in order, as `_canonical_json` writes them.
abbrev pub file_value : StaticFile → Fields
file_value file = field "cache_control" (text file.cache_control) (
    field "digest" (text file.digest) (
      field "media_type" (text file.media_type)
        (field "path" (text file.path) (field "size" (num (chars file.body)) end))))

abbrev pub file_values : List StaticFile → Items
file_values [] = nil
file_values (file ∷ files) = cons (object (file_value file)) (file_values files)

abbrev pub archive_value : String → ℕ → Fields
archive_value digest size =
    field "digest" (text digest)
      (field "media_type" (text "application/x-tar") (field "size" (num size) end))

abbrev pub evidence_value : String → String → String → String → ℕ → Fields
evidence_value organization_id build_id name digest size = field "build_id" (text build_id) (
    field "digest" (text digest) (
      field "name" (text name) (
        field "organization_id" (text organization_id)
          (field "schema_version" (num 1) (field "size" (num size) end)))))

-- `manifest.get("archive", {}).get("digest")`
abbrev pub digest_within : Option Json → Result Fault (Option Json)
digest_within none = ok none
digest_within (some (object d)) = ok (get "digest" d)
digest_within (some v) = err attribute_error

abbrev pub is_text : String → Option Json → Bool
is_text s none = false
is_text s (some (text t)) = t == s
is_text s (some v) = false

abbrev pub as_dict : Option Json → Result Fault Fields
as_dict none = err (fault "artifact_state_invalid" 500)
as_dict (some (object d)) = ok d
as_dict (some v) = err (fault "artifact_state_invalid" 500)

module _ {S : Type 0} (g : Gateway S) where
  abbrev pub Action : Type 0 → Type 0
  Action A = Exec Fault S A

  abbrev pub digest_of : Bytes → String
  digest_of bytes = g.platform.digest bytes

  abbrev pub stored : String → String → Action (Option ObjectValue)
  stored bucket key = gets (g.objects.get bucket key)

  abbrev pub put_over : Option ObjectValue → String → String → Bytes → String → Action Bool
  put_over none bucket key contents content_type = do
    modify (g.objects.put bucket key contents content_type)
    pure true
  put_over (some existing) bucket key contents content_type = do
    guard (existing.body == contents) (fault "artifact_immutable_conflict" 409)
    pure false

  unfoldable pub put_immutable : String → String → Bytes → String → Action Bool
  put_immutable bucket key contents content_type = do
    existing ← stored bucket key
    put_over existing bucket key contents content_type

  unfoldable pub parse_json : ObjectValue → Result Fault Fields
  parse_json value = as_dict (g.platform.loads value.body)

  abbrev pub manifest_of : String → String → ℕ → Bytes → List StaticFile → Fields
  manifest_of organization_id revision_id now archive files =
      field "archive" (object (archive_value (digest_of archive) (chars archive))) (
        field "created_at" (text (g.platform.stamp now)) (
          field "files" (array (file_values files)) (
            field "organization_id" (text organization_id)
              (field "revision_id" (text revision_id) (field "schema_version" (num 1) end)))))

  unfoldable pub put_files : String → List StaticFile → Action Unit
  put_files prefix [] = pure tt
  put_files prefix (file ∷ files) =
      put_immutable g.static_bucket (prefix ⊕ "files/" ⊕ file.path) file.body file.media_type
      >> put_files prefix files

  unfoldable pub publish_new : String → List StaticFile → Fields → Action (Fields × Bool)
  publish_new prefix files manifest = do
    put_files prefix files
    put_immutable g.static_bucket (prefix ⊕ "manifest.json") (g.platform.dumps manifest)
        "application/json"
    pure (manifest, true)

  unfoldable pub published_before : ObjectValue → String → Action (Fields × Bool)
  published_before existing digest = do
    manifest ← lift (parse_json existing)
    found ← lift (digest_within (get "archive" manifest))
    guard (is_text digest found) (fault "revision_artifact_conflict" 409)
    pure (manifest, false)

  abbrev pub publish_over :
      Option ObjectValue → String → List StaticFile → Fields → String → Action (Fields × Bool)
  publish_over none prefix files manifest digest = publish_new prefix files manifest
  publish_over (some existing) prefix files manifest digest = published_before existing digest

  unfoldable pub publish_static : String → String → Bytes → String → ℕ → Action (Fields × Bool)
  publish_static organization_id revision_id archive expected_digest now = do
    organization ← lift (uuid organization_id)
    revision ← lift (uuid revision_id)
    guard (is_digest_text expected_digest && digest_of archive == expected_digest)
        (fault "artifact_digest_mismatch" 422)
    guard (has_text archive && leb (chars archive) g.limits.archive_bytes)
        (fault "archive_size_invalid" 413)
    files ← lift (extract g.platform.digest g.limits (g.platform.members archive))
    existing ← stored g.static_bucket (revision_prefix organization revision ⊕ "manifest.json")
    publish_over existing (revision_prefix organization revision) files
        (manifest_of organization revision now archive files) (digest_of archive)

  unfoldable pub static_manifest : String → String → Action Fields
  static_manifest organization_id revision_id = do
    organization ← lift (uuid organization_id)
    revision ← lift (uuid revision_id)
    found ← stored g.static_bucket (revision_prefix organization revision ⊕ "manifest.json")
    value ← require found (fault "artifact_not_found" 404)
    lift (parse_json value)

  unfoldable pub read_static : String → String → String → Action StaticFile
  read_static organization_id revision_id name = do
    organization ← lift (uuid organization_id)
    revision ← lift (uuid revision_id)
    p ← lift (path name false)
    found ← stored g.static_bucket (revision_prefix organization revision ⊕ "files/" ⊕ p)
    value ← require found (fault "artifact_not_found" 404)
    pure (static_file g.platform.digest p value.body)

  unfoldable pub put_evidence : String → String → String → Bytes → String → Action (Fields × Bool)
  put_evidence organization_id build_id name contents expected_digest = do
    organization ← lift (uuid organization_id)
    build ← lift (uuid build_id)
    guard (is_evidence_name name) (fault "evidence_name_invalid" 422)
    guard (has_text contents && leb (chars contents) g.limits.evidence_bytes)
        (fault "evidence_size_invalid" 413)
    guard (not (ends_with name ".json") || is_some (g.platform.loads contents))
        (fault "evidence_json_invalid" 422)
    guard (is_digest_text expected_digest && digest_of contents == expected_digest)
        (fault "artifact_digest_mismatch" 422)
    created ←
        put_immutable g.evidence_bucket (evidence_key organization build name) contents
          (media_type name)
    pure (evidence_value organization build name (digest_of contents) (chars contents), created)

  unfoldable pub evidence : String → String → String → Action ObjectValue
  evidence organization_id build_id name = do
    organization ← lift (uuid organization_id)
    build ← lift (uuid build_id)
    guard (is_evidence_name name) (fault "evidence_name_invalid" 422)
    found ← stored g.evidence_bucket (evidence_key organization build name)
    require found (fault "artifact_not_found" 404)

-- ===== src/Artifacts/Runs.antt =====
-- The gateway over a store in memory: a site, its evidence and a reconciliation.
use layerrail_deploy.Prelude.{
  ℕ, String, ◌≡◌, refl, ◌==◌, ◌⊕◌, true, false, Option, none, some, List, [], ◌∷◌, if◌then◌else◌,
  All, any, chars, arith, contains,
}
use layerrail_deploy.Effect.{ok, err}
use layerrail_deploy.Json.{Fields}
use layerrail_deploy.Artifacts.Store.{Bytes, ObjectValue}
use layerrail_deploy.Artifacts.Memory.{Memory, memory, memory-IsStore, list_values, delete_values}
use layerrail_deploy.Artifacts.Codec.{dumps, loads, loads-dumps}
use layerrail_deploy.Artifacts.Paths.{fault, uuid, path, strip_dots, is_relative}
use layerrail_deploy.Artifacts.Archives.{
  ArtifactLimits, StaticFile, Member, regular, directory, read_file, read_all, sorted_files,
  extract, static_file, has_path,
}
use layerrail_deploy.Artifacts.Archives.Sorted.{total_size}
use layerrail_deploy.Artifacts.Archives.Bounds.{Within, extract-Within}
use layerrail_deploy.Artifacts.Gateway.{
  Platform, Gateway, put_immutable, put_files, publish_new, publish_static, static_manifest,
  read_static, put_evidence, evidence, manifest_of, evidence_value, revision_prefix,
}
use layerrail_deploy.Artifacts.Gateway.Ordered.{IsCodec}
use layerrail_deploy.Artifacts.Gateway.Published.{IsValid}
use layerrail_deploy.Artifacts.Retention.{
  Retention, aware, reconcile, all_uuids, append_group, group_objects, sorted_groups, delete_groups,
  store_result, reconcile_listed, reconcile_new, revisions_prefix, result_value,
}
use layerrail_deploy.Artifacts.Retention.Again.{reconcile-again}
use layerrail_deploy.Artifacts.Retention.Grouped.{is_recent}
use layerrail_deploy.Artifacts.Retention.Young.{reconcile-young}
use layerrail_deploy.Artifacts.History.{
  publish_static-again, Call, publication, evidence_sent, reconciliation, history,
  history-publish_static, history-put_evidence,
}

abbrev organization_id : String
organization_id = "00000000-0000-4000-8000-000000000001"

abbrev revision_id : String
revision_id = "00000000-0000-4000-8000-000000000002"

abbrev other_id : String
other_id = "00000000-0000-4000-8000-000000000003"

abbrev hash : Bytes → String
hash contents =
    "sha256:000000000000000000000000000000000000000000000000000000000000000"
    ⊕ (if contains "two" contents then "1" else "0")

abbrev index : Bytes → Member
index contents = record {
  name = "./index.html";
  kind = regular;
  size = chars contents;
  source = some contents;
}

abbrev assets : Member
assets = record { name = "assets/"; kind = directory; size = 0; source = none }

abbrev read_members : Bytes → Option (List Member)
read_members contents =
    if contents == "not a tar" then none else some (assets ∷ index contents ∷ [])

abbrev platform : Platform
platform = record {
  digest = hash;
  dumps = dumps;
  loads = loads;
  members = read_members;
  stamp = λ now. "2026-01-01T00:00:00Z";
}

platform-IsCodec : IsCodec platform
platform-IsCodec = record { loads-dumps = λ d ordered. loads-dumps d }

abbrev limits : ArtifactLimits
limits = record {
  archive_bytes = 100;
  expanded_bytes = 100;
  file_bytes = 50;
  file_count = 3;
  evidence_bytes = 20;
}

abbrev gateway : Gateway Memory
gateway = record {
  objects = memory;
  platform = platform;
  limits = limits;
  static_bucket = "static";
  evidence_bucket = "evidence";
}

abbrev empty : Memory
empty = record { now = 10; values = [] }

abbrev site : List StaticFile
site = static_file hash "index.html" "one" ∷ []

extracted : extract hash limits (read_members "one") ≡ ok site
unfolding extract read_all read_file path strip_dots is_relative sorted_files
extracted = refl

extract-Within_example :
    Within hash limits site (total_size site) × (any (has_path "index.html") site ≡ true)
extract-Within_example = extract-Within hash limits (read_members "one") site extracted

abbrev manifest : Fields
manifest = manifest_of gateway organization_id revision_id 5 "one" site

abbrev published : Memory
published = (publish_static gateway organization_id revision_id "one" (hash "one") 5 empty).1

-- the publication of a site
published_lem :
    publish_static gateway organization_id revision_id "one" (hash "one") 5 empty
    ≡ (ok (manifest, true), published)
unfolding publish_static publish_new put_files put_immutable uuid extract read_all read_file path
    strip_dots is_relative sorted_files
published_lem = refl

two : List StaticFile
two = static_file hash "index.html" "two" ∷ []

two-IsValid : IsValid gateway "two" (hash "two") two
unfolding two extract read_all read_file path strip_dots is_relative sorted_files
two-IsValid = record { matched = refl; sized = refl; extracted = refl }

abbrev evidence_manifest : Fields
evidence_manifest = evidence_value organization_id other_id "build.log" (hash "done") 4

abbrev request : Retention
request = record {
  reconciliation_id = other_id;
  organization_id = organization_id;
  retain_revision_ids = [];
  delete_candidate_revision_ids = other_id ∷ [];
  delete_before = aware 20;
}

abbrev calls : List Call
calls =
    evidence_sent organization_id other_id "build.log" "again" (hash "again")
    ∷ reconciliation request 30
    ∷ publication organization_id revision_id "two" (hash "two") 40
    ∷ []

abbrev later : Memory
later = history gateway calls published

publish_static-again_example :
    publish_static gateway organization_id revision_id "two" (hash "two") 50 later
    ≡ (err (fault "revision_artifact_conflict" 409), later)
publish_static-again_example =
    publish_static-again gateway memory-IsStore refl platform-IsCodec organization_id revision_id
      "one" "two" (hash "one") (hash "two") 5 50 manifest two calls empty published published_lem
      (refl, (refl, (refl, tt))) two-IsValid

history-publish_static_example :
    (files : List StaticFile) × (extract hash limits (read_members "one") ≡ ok files)
    × All
        (λ (f : StaticFile).
          read_static gateway organization_id revision_id f.path later ≡ (ok f, later))
        files
    × (static_manifest gateway organization_id revision_id later ≡ (ok manifest, later))
history-publish_static_example =
    history-publish_static gateway memory-IsStore refl platform-IsCodec organization_id revision_id
      "one" (hash "one") 5 manifest calls empty published published_lem (refl, (refl, (refl, tt)))

abbrev with_evidence : Memory
with_evidence =
    (put_evidence gateway organization_id other_id "build.log" "done" (hash "done") empty).1

evidence_sent_lem :
    put_evidence gateway organization_id other_id "build.log" "done" (hash "done") empty
    ≡ (ok (evidence_manifest, true), with_evidence)
unfolding put_evidence put_immutable uuid
evidence_sent_lem = refl

history-put_evidence_example :
    (value : ObjectValue) × (evidence gateway organization_id other_id "build.log"
        (history gateway calls with_evidence)
      ≡ (ok value, history gateway calls with_evidence))
    × (value.body ≡ "done")
history-put_evidence_example =
    history-put_evidence gateway memory-IsStore refl organization_id other_id "build.log" "done"
      (hash "done") evidence_manifest true calls empty with_evidence evidence_sent_lem

-- a reconciliation in which the published revision is a candidate, which is too old or not
abbrev cleanup : ℕ → Retention
cleanup cutoff = record request {
  delete_candidate_revision_ids = revision_id ∷ [];
  delete_before = aware cutoff;
}

abbrev cleaned : Memory
cleaned = (reconcile gateway (cleanup 20) 30 published).1

abbrev cleanup_result : Fields
cleanup_result =
    result_value gateway other_id organization_id [] (revision_id ∷ []) 20 (hash "") 30
      (revision_id ∷ [])

cleaned_lem : reconcile gateway (cleanup 20) 30 published ≡ (ok (cleanup_result, true), cleaned)
unfolding reconcile reconcile_new reconcile_listed store_result delete_groups sorted_groups
    group_objects append_group all_uuids uuid put_immutable publish_static publish_new put_files
    extract read_all read_file path strip_dots is_relative sorted_files list_values dumps
    delete_values
cleaned_lem = refl

reconcile-again_example :
    reconcile gateway (cleanup 20) 50 cleaned ≡ (ok (cleanup_result, false), cleaned)
reconcile-again_example =
    reconcile-again gateway memory-IsStore platform-IsCodec (cleanup 20) 30 50 cleanup_result
      published cleaned (omega arith) cleaned_lem

-- its only file and its manifest are gone
cleaned_values :
    read_static gateway organization_id revision_id "index.html" cleaned
    ≡ (err (fault "artifact_not_found" 404), cleaned)
unfolding reconcile reconcile_new reconcile_listed store_result delete_groups sorted_groups
    group_objects append_group all_uuids uuid put_immutable publish_static publish_new put_files
    extract read_all read_file path strip_dots is_relative sorted_files list_values dumps
    delete_values read_static
cleaned_values = refl

is_listed :
    any
      (is_recent revision_id 10 (revisions_prefix organization_id))
      (memory.list "static" (revisions_prefix organization_id) published)
    ≡ true
unfolding publish_static publish_new put_files put_immutable uuid extract read_all read_file path
    strip_dots is_relative sorted_files list_values
is_listed = refl

revision_id-valid : uuid revision_id ≡ ok revision_id
unfolding uuid
revision_id-valid = refl

reconcile-young_example :
    memory.get "static"
      (revision_prefix organization_id revision_id ⊕ "files/index.html")
      (reconcile gateway (cleanup 10) 30 published).1
    ≡ memory.get "static"
        (revision_prefix organization_id revision_id ⊕ "files/index.html")
        published
reconcile-young_example =
    reconcile-young gateway memory-IsStore refl (cleanup 10) 30 10 revision_id "files/index.html"
      published refl revision_id-valid is_listed

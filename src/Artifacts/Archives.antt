-- ===== src/Artifacts/Archives.antt =====
-- artifacts.py, `_extract`: the files of a site's archive. What `tarfile` reads from the archive
-- is given as its members, each with the bytes that `extractfile` and `read` return for it.
pub mod Sorted
pub mod Bounds
use Prim.Native.String.{compare as compare_text}
use Prim.Native.Nat.{Ordering}
use layerrail_deploy.Prelude.{
  ℕ, suc, ◌+◌, String, ◌==◌, Bool, true, false, not, ◌&&◌, Option, none, some, List, [], ◌∷◌, ◌++◌,
  leb, nat_eq, chars, length, any,
}
use layerrail_deploy.Effect.{
  Result, ok, err, Exec, pure, lift, gets, modify, guard, require, ◌>>=◌, ◌>>◌,
}
use layerrail_deploy.Artifacts.Store.{Bytes}
use layerrail_deploy.Artifacts.Paths.{Fault, fault, path}
use layerrail_deploy.Artifacts.Media.{media_type, cache_control}

pub record ArtifactLimits : Type 0 where
  pub archive_bytes : ℕ
  pub expanded_bytes : ℕ
  pub file_bytes : ℕ
  pub file_count : ℕ
  pub evidence_bytes : ℕ

pub record StaticFile : Type 0 where
  pub path : String
  pub body : Bytes
  pub digest : String
  pub media_type : String
  pub cache_control : String

-- `member.isdir()`, `member.isfile()` or neither
pub data Kind : Type 0 where
  directory regular special : Kind

pub record Member : Type 0 where
  pub name : String
  pub kind : Kind
  pub size : ℕ
  pub source : Option Bytes

-- `files` and `expanded`; the set `paths` holds the paths of `files`.
pub record Progress : Type 0 where
  pub files : List StaticFile
  pub expanded : ℕ

abbrev pub is_regular : Kind → Bool
is_regular directory = false
is_regular regular = true
is_regular special = false

abbrev pub has_path : String → StaticFile → Bool
has_path p file = file.path == p

-- `sorted(files, key=lambda file: file.path)`
abbrev pub insert_file : StaticFile → List StaticFile → List StaticFile
insert_file f [] = f ∷ []
insert_file f (g ∷ files) =
    let rest = insert_file f files in
    elim (compare_text f.path g.path) [ Ordering.gt ↦ g ∷ rest | _ ↦ f ∷ g ∷ files ]

unfoldable pub sorted_files : List StaticFile → List StaticFile
sorted_files [] = []
sorted_files (f ∷ files) = insert_file f (sorted_files files)

abbrev pub with_index : Result Fault Unit → Progress → Result Fault (List StaticFile)
with_index (err e) s = err e
with_index (ok u) s = elim (any (has_path "index.html") s.files) [
  | true ↦ ok (sorted_files s.files)
  | false ↦ err (fault "archive_index_missing" 422)
]

abbrev pub nothing_read : Progress
nothing_read = record { files = []; expanded = 0 }

module _ (digest : Bytes → String) where
  abbrev pub static_file : String → Bytes → StaticFile
  static_file p contents = record {
    path = p;
    body = contents;
    digest = digest contents;
    media_type = media_type p;
    cache_control = cache_control p;
  }

abbrev pub added : StaticFile → ℕ → Progress → Progress
added f n s = record { files = s.files ++ f ∷ []; expanded = s.expanded + n }

module _ (digest : Bytes → String) (limits : ArtifactLimits) where
  unfoldable pub read_file : Member → Exec Fault Progress Unit
  read_file m = do
    p ← lift (path m.name false)
    guard (is_regular m.kind) (fault "archive_entry_type_invalid" 422)
    s ← gets (λ s. s)
    guard (not (any (has_path p) s.files)) (fault "archive_path_duplicate" 422)
    guard (leb m.size limits.file_bytes) (fault "archive_file_size_invalid" 413)
    guard
        (leb (suc (length s.files)) limits.file_count
          && leb (s.expanded + m.size) limits.expanded_bytes)
        (fault "archive_expansion_invalid" 413)
    contents ← require m.source (fault "archive_invalid" 422)
    guard (nat_eq (chars contents) m.size) (fault "archive_size_mismatch" 422)
    modify (added (static_file digest p contents) m.size)

  abbrev pub read_kind : Kind → Member → Exec Fault Progress Unit
  read_kind directory m = lift (path m.name true) >> pure tt
  read_kind regular m = read_file m
  read_kind special m = read_file m

  unfoldable pub read_all : List Member → Exec Fault Progress Unit
  read_all [] = pure tt
  read_all (m ∷ members) = read_kind m.kind m >> read_all members

  -- `none` stands for `tarfile.TarError`.
  unfoldable pub extract : Option (List Member) → Result Fault (List StaticFile)
  extract none = err (fault "archive_invalid" 422)
  extract (some members) =
      with_index (read_all members nothing_read).0 (read_all members nothing_read).1

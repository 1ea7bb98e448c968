-- ===== src/Artifacts/Paths.antt =====
-- artifacts.py: the identities, names and paths that the gateway accepts.
pub mod Accepted
use Prim.Native.Char.{Char, code}
use Prim.Native.String.{String, [], ◌∷◌, len}
use mathlib.Core.List.{List}
use layerrail_deploy.Prelude.{
  ℕ, zero, suc, ◌+◌, Bool, true, false, not, ◌&&◌, ◌||◌, Option, none, some, ltb, leb, nat_eq,
  if◌then◌else◌, chars, starts_with, ends_with, contains, one_of, split_on, partition_on,
  drop_chars, ◌⊕◌, ◌==◌,
}
use layerrail_deploy.Effect.{Result, ok, err}
use layerrail_deploy.Registry.Names.{Shape, hex, exactly, follows, four, dash, between}

-- `ArtifactFault` with its code and status, or another exception
pub data Fault : Type 0 where
  fault : String → ℕ → Fault
  attribute_error : Fault

-- `str(UUID(value)) == value`: what `UUID` reads and writes back unchanged.
abbrev pub canonical_uuid : List Shape
canonical_uuid =
    four (four (dash (four (dash (four (dash (four (dash (four (four (four List.[])))))))))))

unfoldable pub uuid : String → Result Fault String
uuid value =
    if follows canonical_uuid value then ok value else err (fault "artifact_identity_invalid" 422)

-- `_DIGEST.fullmatch`
abbrev pub all_chars : (Char → Bool) → String → Bool
all_chars p [] = true
all_chars p (c ∷ s) = p c && all_chars p s

abbrev pub is_hex : Char → Bool
is_hex c = between b'0' b'9' c || between b'a' b'f' c

abbrev pub is_digest_text : String → Bool
is_digest_text s =
    starts_with s "sha256:" && all_chars is_hex (drop_chars 7 s) && nat_eq (chars s) 71

-- `_EVIDENCE_NAME.fullmatch`: no character of the stem is a dot.
abbrev is_stem_char : Char → Bool
is_stem_char c =
    between b'a' b'z' c || between b'0' b'9' c || nat_eq (code c) b'_' || nat_eq (code c) b'-'

abbrev is_stem : String → Bool
is_stem [] = false
is_stem (c ∷ s) = between b'a' b'z' c && all_chars is_stem_char s && leb (chars s) 47

abbrev is_split_name : Option (String × String) → Bool
is_split_name none = false
is_split_name (some (stem, extension)) =
    is_stem stem && one_of extension (List.◌∷◌ "json" (List.◌∷◌ "txt" (List.◌∷◌ "log" List.[])))

abbrev pub is_evidence_name : String → Bool
is_evidence_name name = is_split_name (partition_on b'.' name)

-- the characters that `_path` refuses first
abbrev pub is_plain : Char → Bool
is_plain c = not (nat_eq (code c) b'\\') && not (ltb (code c) 32) && not (nat_eq (code c) 127)

-- `while value.startswith("./"): value = value[2:]`
unfoldable pub strip_dots : String → String
strip_dots [] = []
strip_dots (c ∷ []) = c ∷ []
strip_dots (c ∷ d ∷ s) =
    let rest = strip_dots s in
    if nat_eq (code c) b'.' && nat_eq (code d) b'/' then rest else c ∷ d ∷ s

-- `value.rstrip("/")`
abbrev rstrip_slash : String → String
rstrip_slash [] = []
rstrip_slash (c ∷ s) =
    let rest = rstrip_slash s in
    if nat_eq (code c) b'/' && nat_eq (chars rest) 0 then [] else c ∷ rest

-- `str(PurePosixPath(value))`
abbrev join_slash : List String → String
join_slash List.[] = []
join_slash (List.◌∷◌ s List.[]) = s
join_slash (List.◌∷◌ s (List.◌∷◌ t l)) = s ⊕ "/" ⊕ join_slash (List.◌∷◌ t l)

abbrev posix_root : String → String
posix_root value =
    if starts_with value "//" && not (starts_with value "///")
    then "//"
    else if starts_with value "/"
    then "/"
    else ""

abbrev kept_parts : List String → List String
kept_parts List.[] = List.[]
kept_parts (List.◌∷◌ part parts) =
    if part == "" || part == "." then kept_parts parts else List.◌∷◌ part (kept_parts parts)

abbrev or_dot : String → String
or_dot [] = "."
or_dot (c ∷ s) = c ∷ s

abbrev pub posix_path : String → String
posix_path value = or_dot (posix_root value ⊕ join_slash (kept_parts (split_on b'/' value)))

-- `any(part in {"", ".", ".."} for part in value.split("/"))`
abbrev pub is_step : String → Bool
is_step part = part == "" || part == "." || part == ".."

abbrev pub any_step : List String → Bool
any_step List.[] = false
any_step (List.◌∷◌ part parts) = is_step part || any_step parts

-- `not value` is false
abbrev pub has_text : String → Bool
has_text [] = false
has_text (c ∷ s) = true

unfoldable pub is_relative : String → Bool
is_relative value =
    has_text value
    && not (starts_with value "/")
    && not (ends_with value "/")
    && not (any_step (split_on b'/' value))
    && posix_path value == value
    && leb (len value) 512

abbrev pub trimmed : Bool → String → String
trimmed directory value = if directory then rstrip_slash (strip_dots value) else strip_dots value

unfoldable pub path : String → Bool → Result Fault String
path value directory =
    if has_text value && all_chars is_plain value
    then if is_relative (trimmed directory value)
      then ok (trimmed directory value)
      else err (fault "artifact_path_invalid" 422)
    else err (fault "artifact_path_invalid" 422)

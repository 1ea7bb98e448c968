-- ===== src/Provider/Checks.antt =====
-- processor.py: the conditions that `Processor` puts on the values of an event, and the exceptions
-- that it turns into others.
use Prim.Native.Char.{code}
use layerrail_deploy.Prelude.{
  String, ◌==◌, Bool, true, false, not, ◌&&◌, ◌||◌, Option, none, some, leb, nat_eq, if◌then◌else◌,
  starts_with, chars, drop_chars,
}
use layerrail_deploy.Effect.{Result, ok, err}
use layerrail_deploy.Json.{Json, null, bool, num, text, array, nil, object, Fields, end, get}
use layerrail_deploy.Provider.State.{
  Trouble, event_conflict, invalid_route, permanent_error, transient_error,
  control_plane_unavailable, runtime_unavailable, runtime_conflict, readiness_failed, internal,
}

-- `[0-9a-f]` throughout
abbrev pub all_hex : String → Bool
all_hex String.[] = true
all_hex (String.◌∷◌ c s) =
    (leb b'0' (code c) && leb (code c) b'9' || leb b'a' (code c) && leb (code c) b'f') && all_hex s

-- `re.fullmatch(r"sha256:[0-9a-f]{64}", digest)`
abbrev pub is_digest : String → Bool
is_digest s = starts_with s "sha256:" && nat_eq (chars s) 71 && all_hex (drop_chars 7 s)

abbrev pub holds_text : Option Json → String → Bool
holds_text (some (text s)) t = s == t
holds_text v t = false

abbrev pub holds_false : Option Json → Bool
holds_false (some (bool b)) = not b
holds_false v = false

-- what `_fail` reports
pub record Refusal : Type 0 where
  pub code : String
  pub message : String

abbrev pub refuse : String → String → Result Refusal Fields
refuse code message = err (record { code = code; message = message })

abbrev pub source_of : Option Json → Option Fields
source_of (some (object d)) = some d
source_of v = none

-- The conditions of `_deployment` that end in `_fail`, in their order: the source, or a refusal.
abbrev pub screened : String → Fields → Option Fields → Result Refusal Fields
screened allowed payload none =
    refuse "git_build_unavailable" "Git builds require the isolated build provider"
screened allowed payload (some source) =
    if not (holds_text (get "type" source) "oci")
    then refuse "git_build_unavailable" "Git builds require the isolated build provider"
    else if not (holds_text (get "reference" source) allowed)
    then refuse "oci_image_not_allowed" "Local provider accepts only the repository sample image"
    else if not (holds_false (get "configuration_present" payload))
    then refuse "runtime_configuration_unavailable"
        "Local provider configuration injection is not available"
    else if not (holds_text (get "workload_type" payload) "web")
    then refuse "workload_type_unsupported" "Local provider supports web samples only"
    else ok source

abbrev pub digest_of : Option Json → Result Trouble String
digest_of (some (text s)) =
    if is_digest s then ok s else err (permanent_error "OCI artifact digest is invalid")
digest_of v = err (permanent_error "OCI artifact digest is invalid")

abbrev pub path_of : Option Json → Result Trouble String
path_of none = ok "/health"
path_of (some (text s)) =
    if starts_with s "/" then ok s else err (permanent_error "Readiness path is invalid")
path_of (some v) = err (permanent_error "Readiness path is invalid")

-- `data.get("runtime_policy", {}).get("readiness_path", "/health")`
abbrev pub readiness_path : Option Json → Result Trouble String
readiness_path none = ok "/health"
readiness_path (some (object policy)) = path_of (get "readiness_path" policy)
readiness_path (some v) = err internal

-- `callback_response["result"]["revision_id"]`, and `if not revision_id`
abbrev pub inner_item : String → Option Json → Option Json
inner_item key (some (object d)) = get key d
inner_item key v = none

abbrev pub is_falsy : Json → Bool
is_falsy null = true
is_falsy (bool b) = not b
is_falsy (num n) = nat_eq n 0
is_falsy (text s) = s == ""
is_falsy (array nil) = true
is_falsy (object end) = true
is_falsy v = false

-- the classes of exceptions that the `except` clauses name
abbrev pub is_readiness : Trouble → Bool
is_readiness readiness_failed = true
is_readiness e = false

abbrev pub is_conflict : Trouble → Bool
is_conflict runtime_conflict = true
is_conflict e = false

abbrev pub is_unavailable : Trouble → Bool
is_unavailable runtime_unavailable = true
is_unavailable e = false

abbrev pub alias_trouble : Trouble → Trouble
alias_trouble (invalid_route m) = transient_error "Alias target is not ready locally"
alias_trouble e = e

abbrev pub transient_of : Trouble → Trouble
transient_of control_plane_unavailable = transient_error "Control plane callback unavailable"
transient_of runtime_unavailable = transient_error "Local Docker runtime unavailable"
transient_of e = e

abbrev pub permanent_of : Trouble → Trouble
permanent_of (event_conflict m) = permanent_error "Command conflicts with its receipt"
permanent_of e = e

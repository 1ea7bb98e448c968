-- ===== src/Registry/Tokens.antt =====
-- tokens.py: `TokenIssuer.issue`, which turns a credential into a token for some scopes.
use Prim.Native.Char.{Char, code}
use layerrail_deploy.Prelude.{
  ℕ, ◌+◌, String, ◌==◌, Bool, true, false, not, ◌&&◌, ◌||◌, Option, none, some, List, [], ◌∷◌, leb,
  nat_eq, if◌then◌else◌, starts_with, ends_with, one_of, split_on, partition_on, min,
}
use layerrail_deploy.Effect.{Result, ok, err}
use layerrail_deploy.Registry.Names.{between}
use layerrail_deploy.Registry.Credentials.{Denial, scope_denied, Credential, sorted_set, is_empty}

-- an entry of a token's `access`
pub record Access : Type 0 where
  pub name : String
  pub actions : List String

-- The payload of a token but for its issuer, audience and random `jti`.
pub record Token : Type 0 where
  pub subject : String
  pub expires : ℕ
  pub issued : ℕ
  pub access : List Access

abbrev pub is_plain : Char → Bool
is_plain c = between b'a' b'z' c || between b'0' b'9' c

abbrev pub is_joint : Char → Bool
is_joint c = nat_eq (code c) b'.' || nat_eq (code c) b'_' || nat_eq (code c) b'-'

-- `[a-z0-9]+(?:[._-][a-z0-9]+)*`, read after a plain character or not
abbrev pub is_joined : Bool → String → Bool
is_joined plain String.[] = plain
is_joined plain (String.◌∷◌ c s) =
    is_plain c && is_joined true s || is_joint c && plain && is_joined false s

abbrev pub all_components : List String → Bool
all_components [] = true
all_components (s ∷ l) = is_joined false s && all_components l

abbrev pub has_several : List String → Bool
has_several (s ∷ t ∷ l) = true
has_several l = false

-- `_REPOSITORY.fullmatch`
unfoldable pub is_repository : String → Bool
is_repository s = has_several (split_on b'/' s) && all_components (split_on b'/' s)

-- `repository_allowed` of `_authorize_scope`
abbrev pub is_allowed : String → Credential → Bool
is_allowed repository credential =
    if ends_with credential.repository_prefix "/"
    then starts_with repository credential.repository_prefix
    else repository == credential.repository_prefix

-- `filter(None, …)`
abbrev pub nonempty : List String → List String
nonempty [] = []
nonempty (s ∷ l) = if s == "" then nonempty l else s ∷ nonempty l

abbrev pub granted : List String → List String → Bool
granted [] allowed = true
granted (s ∷ l) allowed = one_of s allowed && granted l allowed

-- `scope.split(":", 2)` into three parts
abbrev pub split_rest : String → Option (String × String) → Option (String × String × String)
split_rest a none = none
split_rest a (some (b, c)) = some (a, b, c)

abbrev pub split_first : Option (String × String) → Option (String × String × String)
split_first none = none
split_first (some (a, rest)) = split_rest a (partition_on b':' rest)

abbrev pub split_scope : String → Option (String × String × String)
split_scope scope = split_first (partition_on b':' scope)

-- `_authorize_scope` of a scope with three parts
abbrev pub authorize_parts : Credential → String → List String → Result Denial Access
authorize_parts credential repository actions =
    if is_repository repository
      && is_allowed repository credential
      && not (is_empty actions)
      && granted actions credential.actions
    then ok (record { name = repository; actions = actions })
    else err (scope_denied "registry scope is denied")

abbrev pub authorize_split : Credential → Option (String × String × String) → Result Denial Access
authorize_split credential none = err (scope_denied "registry scope is invalid")
authorize_split credential (some (type, repository, actions)) =
    if type == "repository"
    then authorize_parts credential repository (sorted_set (nonempty (split_on b',' actions)))
    else err (scope_denied "registry scope is invalid")

unfoldable pub authorize_scope : Credential → String → Result Denial Access
authorize_scope credential scope = authorize_split credential (split_scope scope)

abbrev pub and_rest :
    Result Denial Access → Result Denial (List Access) → Result Denial (List Access)
and_rest (ok a) (ok l) = ok (a ∷ l)
and_rest (ok a) (err e) = err e
and_rest (err e) l = err e

unfoldable pub authorize_scopes : Credential → List String → Result Denial (List Access)
authorize_scopes credential [] = ok []
authorize_scopes credential (scope ∷ scopes) =
    and_rest (authorize_scope credential scope) (authorize_scopes credential scopes)

abbrev pub token_of : Credential → ℕ → ℕ → Result Denial (List Access) → Result Denial Token
token_of credential now expires (err e) = err e
token_of credential now expires (ok access) =
    ok (record { subject = credential.username; expires = expires; issued = now; access = access })

-- `service` and `ttl_seconds` are the issuer's settings.
unfoldable pub issue :
    (service : String)
    → (ttl_seconds : ℕ) → Credential
    → String
    → List String
    → ℕ
    → Result Denial Token
issue service ttl_seconds credential requested scopes now =
    if not (requested == service)
    then err (scope_denied "registry service is invalid")
    else if leb (min (now + ttl_seconds) credential.expires_at) now
    then err (scope_denied "registry credential expired")
    else token_of credential now (min (now + ttl_seconds) credential.expires_at)
        (authorize_scopes credential scopes)

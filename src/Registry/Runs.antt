-- ===== src/Registry/Runs.antt =====
-- The registry's theorems at concrete inputs.
use layerrail_deploy.Prelude.{
  ◌≤◌, ◌<◌, ◌≡◌, refl, String, ◌==◌, not, ◌&&◌, none, some, List, [], ◌∷◌, leb, if◌then◌else◌, All,
}
use layerrail_deploy.Effect.{ok}
use layerrail_deploy.Registry.Credentials.{
  CredentialRow, Registration, credential_of, validate, register, register_row, new_row, normalized,
  authenticate,
}
use layerrail_deploy.Registry.Lifetime
use layerrail_deploy.Registry.Lifetime.{history, Revoked-forever, register_authenticate}
use layerrail_deploy.Registry.Scopes.{Within, issue-Within}
use layerrail_deploy.Registry.Tokens.{
  Token, is_repository, authorize_scope, authorize_scopes, issue,
}

abbrev digest : String → String → String
digest password salt = password

abbrev password : String
password = "0123456789abcdef0123456789abcdef"

abbrev request : Registration
request = record {
  credential_id = "c1";
  username = "lr_build";
  repository_prefix = "lrail/org/";
  actions = "push" ∷ "pull" ∷ "push" ∷ [];
  expires_at = 2000;
}

abbrev row : CredentialRow
row = new_row digest (normalized digest request) password "salt"

normalized_actions : (normalized digest request).actions ≡ "pull" ∷ "push" ∷ []
normalized_actions = refl

registers : register digest request password "salt" 1000 [] ≡ (ok (credential_of row), row ∷ [])
unfolding register validate register_row
registers = refl

abbrev other_calls : List Lifetime.Call
other_calls =
    Lifetime.registration (record request { credential_id = "c2" }) password "other" 1100
    ∷ Lifetime.registration (record request { credential_id = "c3"; username = "lr_next" }) password
        "other" 1200
    ∷ Lifetime.revocation "c3" 1300
    ∷ []

register_authenticate_example :
    (authenticate digest "lr_build" "wrong" 1500 (history digest other_calls (row ∷ []))).0
    ≡ ok (
        if not (leb 2000 1500) && digest "wrong" "salt" == digest password "salt"
        then some (credential_of row)
        else none)
register_authenticate_example =
    register_authenticate digest request password "salt" "wrong" 1000 1500 [] (row ∷ [])
      (credential_of row) other_calls refl registers (refl, (refl, (refl, tt)))

abbrev later_calls : List Lifetime.Call
later_calls =
    Lifetime.registration request password "other" 1600 ∷ Lifetime.revocation "c1" 1700 ∷ []

Revoked-forever_example :
    (authenticate digest "lr_build" password 1800
      (history digest later_calls (record row { revoked_at = some 1500 } ∷ []))).0
    ≡ ok none
Revoked-forever_example =
    Revoked-forever digest "lr_build" later_calls password 1800
      (record row { revoked_at = some 1500 } ∷ []) refl

abbrev token : Token
token = record {
  subject = "lr_build";
  expires = 1300;
  issued = 1000;
  access = record { name = "lrail/org/web"; actions = "pull" ∷ [] } ∷ [];
}

issues :
    issue "registry" 300
      (credential_of row)
      "registry"
      ("repository:lrail/org/web:pull,pull" ∷ [])
      1000
    ≡ ok token
unfolding issue authorize_scopes authorize_scope is_repository
issues = refl

issue-Within_example :
    (1000 < token.expires)
    × (token.expires ≤ 2000)
    × (token.expires ≤ 1300)
    × (token.subject ≡ "lr_build")
    × All (Within (credential_of row)) token.access
issue-Within_example =
    issue-Within "registry" 300 (credential_of row) "registry"
      ("repository:lrail/org/web:pull,pull" ∷ []) 1000 token issues

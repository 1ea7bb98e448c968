-- ===== src/Registry/Credentials.antt =====
-- store.py: `CredentialStore`. `digest` stands for scrypt with the store's parameters, of a
-- password and a salt; the salt of a new row is an argument, and so is the clock.
use Prim.Native.String.{compare as compare_text}
use Prim.Native.Nat.{Ordering}
use layerrail_deploy.Prelude.{
  ℕ, ◌+◌, String, ◌==◌, Bool, true, false, not, ◌&&◌, ◌||◌, Option, none, some, List, [], ◌∷◌, ltb,
  leb, nat_eq, if◌then◌else◌, is_some, chars, starts_with, one_of, first, change,
}
use layerrail_deploy.Registry.Names.{follows, exact_repository, is_organization_prefix}
use layerrail_deploy.Effect.{Exec, pure, raise, gets, modify, guard, ◌>>=◌, ◌>>◌}

pub data Denial : Type 0 where
  invalid : String → Denial
  credential_conflict : String → Denial
  scope_denied : String → Denial
  lost : Denial

pub record Credential : Type 0 where
  pub credential_id : String
  pub username : String
  pub repository_prefix : String
  pub actions : List String
  pub expires_at : ℕ

-- a row of `credentials`
pub record CredentialRow : Type 0 where
  pub credential_id : String
  pub username : String
  pub password_salt : String
  pub password_digest : String
  pub repository_prefix : String
  pub actions : List String
  pub expires_at : ℕ
  pub revoked_at : Option ℕ

abbrev pub Credentials : Type 0
Credentials = List CredentialRow

abbrev pub Registry : Type 0 → Type 0
Registry A = Exec Denial Credentials A

-- `_credential`
abbrev pub credential_of : CredentialRow → Credential
credential_of row = record {
  credential_id = row.credential_id;
  username = row.username;
  repository_prefix = row.repository_prefix;
  actions = row.actions;
  expires_at = row.expires_at;
}

-- `sorted(set(actions))`
abbrev pub insert_text : String → List String → List String
insert_text s [] = s ∷ []
insert_text s (t ∷ l) =
    let rest = insert_text s l in
    elim (compare_text s t) [
      | Ordering.lt ↦ s ∷ t ∷ l
      | Ordering.eq ↦ t ∷ l
      | Ordering.gt ↦ t ∷ rest
    ]

abbrev pub sorted_set : List String → List String
sorted_set [] = []
sorted_set (s ∷ l) = insert_text s (sorted_set l)

-- equality of tuples of texts
abbrev pub same_texts : List String → List String → Bool
same_texts [] [] = true
same_texts (s ∷ l) (t ∷ m) = s == t && same_texts l m
same_texts l m = false

abbrev pub is_action : String → Bool
is_action action = one_of action ("pull" ∷ "push" ∷ [])

abbrev pub is_empty : List String → Bool
is_empty [] = true
is_empty (s ∷ l) = false

abbrev pub all_actions : List String → Bool
all_actions [] = true
all_actions (s ∷ l) = is_action s && all_actions l

-- the arguments of `register` but for the password
pub record Registration : Type 0 where
  pub credential_id : String
  pub username : String
  pub repository_prefix : String
  pub actions : List String
  pub expires_at : ℕ

-- `_validate`, on the normalized actions
unfoldable pub validate : Registration → String → ℕ → Registry Unit
validate request password now = do
  guard (starts_with request.username "lr_" && leb (chars request.username) 80)
      (invalid "registry username is invalid")
  guard (leb 32 (chars password) && leb (chars password) 256)
      (invalid "registry password is invalid")
  guard
      ((is_organization_prefix request.repository_prefix
          || follows exact_repository request.repository_prefix)
        && leb (chars request.repository_prefix) 240)
      (invalid "registry repository prefix is invalid")
  guard (not (is_empty request.actions) && all_actions request.actions)
      (invalid "registry actions are invalid")
  guard (ltb now request.expires_at && leb request.expires_at (now + 3600))
      (invalid "registry credential expiry is invalid")

abbrev pub has_id : String → CredentialRow → Bool
has_id credential_id row = row.credential_id == credential_id

abbrev pub has_username : String → CredentialRow → Bool
has_username username row = row.username == username

-- the WHERE of the row that `register` looks up
abbrev pub matches : Registration → CredentialRow → Bool
matches request row = has_id request.credential_id row || has_username request.username row

module _ (digest : String → String → String) where
  -- `_verify_password`: no password of text makes scrypt raise.
  abbrev pub verify_password : String → CredentialRow → Bool
  verify_password password row = digest password row.password_salt == row.password_digest

  abbrev pub agrees : Registration → String → CredentialRow → Bool
  agrees request password row =
      row.credential_id == request.credential_id
      && row.username == request.username
      && row.repository_prefix == request.repository_prefix
      && same_texts row.actions request.actions
      && nat_eq row.expires_at request.expires_at
      && verify_password password row

  abbrev pub new_row : Registration → String → String → CredentialRow
  new_row request password salt = record {
    credential_id = request.credential_id;
    username = request.username;
    password_salt = salt;
    password_digest = digest password salt;
    repository_prefix = request.repository_prefix;
    actions = request.actions;
    expires_at = request.expires_at;
    revoked_at = none;
  }

  abbrev pub read_back : Option CredentialRow → Registry Credential
  read_back none = raise lost
  read_back (some row) = pure (credential_of row)

  -- `register` once the row has been looked up
  unfoldable pub register_row :
      Registration → String → String → Option CredentialRow → Registry Credential
  register_row request password salt (some row) = do
    guard (agrees request password row) (credential_conflict "credential registration conflicts")
    pure (credential_of row)
  register_row request password salt none = do
    modify (λ rows. new_row request password salt ∷ rows)
    row ← gets (first (has_id request.credential_id))
    read_back row

  abbrev pub normalized : Registration → Registration
  normalized request = record request { actions = sorted_set request.actions }

  unfoldable pub register : Registration → String → String → ℕ → Registry Credential
  register request password salt now = do
    validate (normalized request) password now
    row ← gets (first (matches request))
    register_row (normalized request) password salt row

  abbrev pub usable : String → ℕ → CredentialRow → Bool
  usable password now row =
      not (is_some row.revoked_at) && not (leb row.expires_at now) && verify_password password row

  abbrev pub authenticated : String → ℕ → Option CredentialRow → Option Credential
  authenticated password now none = none
  authenticated password now (some row) =
      if usable password now row then some (credential_of row) else none

  unfoldable pub authenticate : String → String → ℕ → Registry (Option Credential)
  authenticate username password now =
      gets (λ rows. authenticated password now (first (has_username username) rows))

-- `COALESCE(revoked_at, now)`
abbrev pub revoked_by : ℕ → Option ℕ → Option ℕ
revoked_by now none = some now
revoked_by now (some t) = some t

abbrev pub revoked_row : ℕ → CredentialRow → CredentialRow
revoked_row now row = record row { revoked_at = revoked_by now row.revoked_at }

-- `revoke` returns whether a row was updated.
unfoldable pub revoke : String → ℕ → Registry Bool
revoke credential_id now = do
  found ← gets (first (has_id credential_id))
  modify (change (has_id credential_id) (revoked_row now))
  pure (is_some found)

-- ===== src/Registry/Scopes.antt =====
-- tokens.py: what a token may grant.
use layerrail_deploy.Prelude.{
  ℕ, ◌+◌, ◌≤◌, ◌<◌, ◌≡◌, String, ◌==◌, true, false, Option, none, some, List, [], ◌∷◌, leb, min,
  All, arith, Bool-cases, inl, inr,
}
use layerrail_deploy.Effect.{Result, ok, err, Result-cases}
use layerrail_deploy.Registry.Credentials.{Denial, Credential, is_empty}
use layerrail_deploy.Registry.Tokens.{
  Access, Token, is_repository, is_allowed, granted, split_scope, authorize_parts, authorize_split,
  authorize_scope, and_rest, authorize_scopes, token_of, issue,
}

-- what an entry of a token may grant to a credential
pub record Within (credential : Credential) (access : Access) : Type 0 where
  pub known : is_repository access.name ≡ true
  pub allowed : is_allowed access.name credential ≡ true
  pub some_action : is_empty access.actions ≡ false
  pub actions : granted access.actions credential.actions ≡ true

authorize_parts-Within :
    (credential : Credential) (repository : String) (actions : List String) (access : Access)
    → authorize_parts credential repository actions ≡ ok access
    → Within credential access
authorize_parts-Within credential repository actions access h = record {
  known = ground arith;
  allowed = ground arith;
  some_action = ground arith;
  actions = ground arith;
}

-- What is granted, if anything is, keeps within the credential.
abbrev AccessOk : Credential → Result Denial Access → Type 0
AccessOk credential (ok access) = Within credential access
AccessOk credential (err e) = Unit

abbrev AllOk : Credential → Result Denial (List Access) → Type 0
AllOk credential (ok access) = All (Within credential) access
AllOk credential (err e) = Unit

authorize_parts-AccessOk :
    (credential : Credential) (repository : String) (actions : List String)
    → AccessOk credential (authorize_parts credential repository actions)
authorize_parts-AccessOk credential repository actions =
    elim (Result-cases (authorize_parts credential repository actions)) [
      | inl (access, e) ↦ rw e (authorize_parts-Within credential repository actions access e)
      | inr (d, e) ↦ rw e tt
    ]

authorize_split-AccessOk :
    (credential : Credential) (split : Option (String × String × String))
    → AccessOk credential (authorize_split credential split)
authorize_split-AccessOk credential none = tt
authorize_split-AccessOk credential (some (type, repository, actions)) =
    elim (Bool-cases (type == "repository")) [
      | inl same ↦ rw same (authorize_parts-AccessOk credential repository _)
      | inr other ↦ rw other tt
    ]

and_rest-AllOk :
    (credential : Credential) (x : Result Denial Access) (y : Result Denial (List Access))
    → AccessOk credential x
    → AllOk credential y
    → AllOk credential (and_rest x y)
and_rest-AllOk credential (ok a) (ok l) h k = (h, k)
and_rest-AllOk credential (ok a) (err e) h k = tt
and_rest-AllOk credential (err e) y h k = tt

authorize_scopes-AllOk :
    (credential : Credential) (scopes : List String)
    → AllOk credential (authorize_scopes credential scopes)
unfolding authorize_scopes authorize_scope
authorize_scopes-AllOk credential [] = tt
authorize_scopes-AllOk credential (scope ∷ scopes) =
    and_rest-AllOk credential (authorize_scope credential scope)
      (authorize_scopes credential scopes) (authorize_split-AccessOk credential (split_scope scope))
      (authorize_scopes-AllOk credential scopes)

abbrev TokenOk : Credential → Result Denial Token → Type 0
TokenOk credential (ok token) = All (Within credential) token.access
TokenOk credential (err e) = Unit

token_of-TokenOk :
    (credential : Credential) (now expires : ℕ) (access : Result Denial (List Access))
    → AllOk credential access
    → TokenOk credential (token_of credential now expires access)
token_of-TokenOk credential now expires (ok access) h = h
token_of-TokenOk credential now expires (err e) h = tt

module _ (service : String) (ttl_seconds : ℕ) (credential : Credential) (requested : String)
    (scopes : List String) (now : ℕ) where
  issue-TokenOk : TokenOk credential (issue service ttl_seconds credential requested scopes now)
  unfolding issue
  issue-TokenOk = elim (Bool-cases (requested == service)) [
    | inl same ↦ elim (Bool-cases (leb (min (now + ttl_seconds) credential.expires_at) now)) [
      | inl late ↦ rw (same, late) tt
      | inr live ↦
          rw (same, live)
            (token_of-TokenOk credential now (min (now + ttl_seconds) credential.expires_at)
              (authorize_scopes credential scopes) (authorize_scopes-AllOk credential scopes))
    ]
    | inr other ↦ rw other tt
  ]

  -- A token expires after it is issued, no later than its credential and its time to live, names
  -- the credential's user, and grants only repositories and actions of the credential.
  pub issue-Within :
      (token : Token)
      → issue service ttl_seconds credential requested scopes now ≡ ok token
      → (now < token.expires)
        × (token.expires ≤ credential.expires_at)
        × (token.expires ≤ now + ttl_seconds)
        × (token.subject ≡ credential.username)
        × All (Within credential) token.access
  unfolding issue
  issue-Within token h =
      let cases = Result-cases (authorize_scopes credential scopes) in
      (
        ground (arith, cases),
        ground (arith, cases),
        ground (arith, cases),
        ground (arith, cases),
        rw h at issue-TokenOk,
      )

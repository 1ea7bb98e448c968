-- ===== src/Registry/Lifetime.antt =====
-- store.py: from the registration of a credential to its revocation.
use layerrail_deploy.Prelude.{
  ℕ, ◌≡◌, refl, String, ◌==◌, eq_iff, eq_refl, Bool, true, false, not, ◌&&◌, Option, none, some,
  List, [], ◌∷◌, leb, All, Bool-cases, if◌then◌else◌, is_some, first, change, arith, Option-cases,
  inl, inr,
}
use layerrail_deploy.Effect.{Result, ok, err, and_then, gets, ◌>>=◌}
use layerrail_deploy.Effect.Success.{and_then-ok}
use layerrail_deploy.Registry.Credentials.{
  Denial, Credential, CredentialRow, Credentials, Registration, Registry, credential_of, validate,
  has_id, has_username, matches, new_row, normalized, register_row, register, authenticate,
  revoked_row, revoke,
}

abbrev pub locked : Option CredentialRow → Bool
locked none = false
locked (some row) = is_some row.revoked_at

-- The row of a user is there, and it is revoked.
abbrev pub Revoked : String → Credentials → Type 0
Revoked username rows = locked (first (has_username username) rows) ≡ true

validate-same :
    (request : Registration) (password : String) (now : ℕ) (rows : Credentials)
    → (validate request password now rows).1 ≡ rows
unfolding validate
validate-same request password now rows = ground arith

-- a call that writes
pub data Call : Type 0 where
  registration : Registration → (password salt : String) → ℕ → Call
  revocation : String → ℕ → Call

module _ (digest : String → String → String) where
  unfoldable pub after : Call → Credentials → Credentials
  after (registration request password salt now) rows =
      (register digest request password salt now rows).1
  after (revocation credential_id now) rows = (revoke credential_id now rows).1

  unfoldable pub history : List Call → Credentials → Credentials
  history [] rows = rows
  history (c ∷ calls) rows = history calls (after c rows)

  module _ (username : String) where
    first-matches :
        (request : Registration) (rows : Credentials)
        → first (matches request) rows ≡ none
        → first (has_username request.username) rows ≡ none
    first-matches request [] h = refl
    first-matches request (row ∷ rows) h = ground (arith, first-matches request rows)

    change-Revoked :
        (credential_id : String) (now : ℕ) (rows : Credentials)
        → Revoked username rows
        → Revoked username (change (has_id credential_id) (revoked_row now) rows)
    change-Revoked credential_id now [] h = h
    change-Revoked credential_id now (row ∷ rows) h =
        ground (arith, change-Revoked credential_id now rows)

    register-Revoked :
        (request : Registration) (password salt : String) (rows : Credentials)
        → Revoked username rows
        → Revoked username
            (register_row digest
              (normalized digest request)
              password
              salt
              (first (matches request) rows)
              rows).1
    unfolding register_row
    register-Revoked request password salt rows h =
        elim (Option-cases (first (matches request) rows)) [
          | inl missing ↦ rw missing (
              ground (
                arith,
                eq_refl request.credential_id,
                eq_iff request.username username,
                first-matches request rows missing,
              ))
          | inr (row, found) ↦ rw found (ground arith)
        ]

    then-Revoked :
        (r : Result Denial Unit) (f : Unit → Registry Credential) (rows : Credentials)
        → Revoked username (f tt rows).1
        → Revoked username rows
        → Revoked username (and_then r f rows).1
    then-Revoked (ok u) f rows h k = h
    then-Revoked (err e) f rows h k = k

    after-Revoked :
        (c : Call) (rows : Credentials) → Revoked username rows → Revoked username (after c rows)
    unfolding after register revoke
    after-Revoked (registration request password salt now) rows h =
        let same = validate-same (normalized digest request) password now rows in
        then-Revoked (validate (normalized digest request) password now rows).0
          (λ u. do
            row ← gets (first (matches request))
            register_row digest (normalized digest request) password salt row)
          (validate (normalized digest request) password now rows).1
          (rw same (register-Revoked request password salt rows h)) (rw same h)
    after-Revoked (revocation credential_id now) rows h = change-Revoked credential_id now rows h

    -- A user whose row is revoked stays locked out, whatever is registered or revoked later.
    pub Revoked-forever :
        (calls : List Call) (password : String) (now : ℕ) (rows : Credentials)
        → Revoked username rows
        → (authenticate digest username password now (history calls rows)).0 ≡ ok none
    unfolding authenticate history
    Revoked-forever [] password now rows h = ground (arith, h)
    Revoked-forever (c ∷ calls) password now rows h =
        Revoked-forever calls password now (after c rows) (after-Revoked c rows h)

  registered :
      (request : Registration) (password salt : String) (now : ℕ) (rows t : Credentials)
      (c : Credential)
      → first (matches request) rows ≡ none
      → register digest request password salt now rows ≡ (ok c, t)
      → (t ≡ new_row digest (normalized digest request) password salt ∷ rows)
        × (c ≡ credential_of (new_row digest (normalized digest request) password salt))
  unfolding register register_row
  registered request password salt now rows t c fresh h =
      let (u, valid, h₁) =
        and_then-ok c t (validate (normalized digest request) password now rows).0 _ _ h in
      let same = validate-same (normalized digest request) password now rows in
      let h₂ = rw same at h₁ in
      let h₃ = rw fresh at h₂ in
      (
        ground (arith, h₃, eq_refl request.credential_id),
        ground (arith, h₃, eq_refl request.credential_id),
      )

  -- The call is no revocation of the credential.
  abbrev pub spares : String → Call → Bool
  spares credential_id (registration request password salt now) = true
  spares credential_id (revocation other now) = not (other == credential_id)

  change-kept :
      (username other : String) (now : ℕ) (rows : Credentials) (row : CredentialRow)
      → first (has_username username) rows ≡ some row
      → (other == row.credential_id) ≡ false
      → first (has_username username) (change (has_id other) (revoked_row now) rows) ≡ some row
  change-kept username other now [] row h apart = h
  change-kept username other now (r ∷ rows) row h apart =
      elim (Bool-cases (has_username username r)) [
        | inl own ↦
            ground
              (arith, own, h, apart, eq_iff r.credential_id other, eq_iff other row.credential_id)
        | inr foreign ↦ ground (
          arith,
          foreign,
          change-kept username other now rows row (ground (arith, h, foreign)) apart,
        )
      ]

  register_row-kept :
      (username : String) (request : Registration) (password salt : String) (rows : Credentials)
      (row : CredentialRow)
      → first (has_username username) rows ≡ some row
      → first
          (has_username username)
          (register_row digest request password salt (first (matches request) rows) rows).1
        ≡ some row
  unfolding register_row
  register_row-kept username request password salt rows row h =
      elim (Option-cases (first (matches request) rows)) [
        | inl missing ↦ rw missing (
            ground (
              arith,
              h,
              eq_refl request.credential_id,
              eq_iff request.username username,
              first-matches username request rows missing,
            ))
        | inr (found_row, found) ↦ rw found (ground (arith, h))
      ]

  then-kept :
      (username : String) (row : CredentialRow) (r : Result Denial Unit)
      (f : Unit → Registry Credential) (rows : Credentials)
      → first (has_username username) (f tt rows).1 ≡ some row
      → first (has_username username) rows ≡ some row
      → first (has_username username) (and_then r f rows).1 ≡ some row
  then-kept username row (ok u) f rows h k = h
  then-kept username row (err e) f rows h k = k

  after-kept :
      (username : String) (row : CredentialRow) (c : Call) (rows : Credentials)
      → spares row.credential_id c ≡ true
      → first (has_username username) rows ≡ some row
      → first (has_username username) (after c rows) ≡ some row
  unfolding after register revoke
  after-kept username row (registration request password salt now) rows spared h =
      let same = validate-same (normalized digest request) password now rows in
      then-kept username row (validate (normalized digest request) password now rows).0
        (λ u. do
          found ← gets (first (matches request))
          register_row digest (normalized digest request) password salt found)
        (validate (normalized digest request) password now rows).1
        (rw same (register_row-kept username (normalized digest request) password salt rows row h))
        (rw same h)
  after-kept username row (revocation other now) rows spared h =
      change-kept username other now rows row h (ground (arith, spared))

  history-kept :
      (username : String) (row : CredentialRow) (calls : List Call) (rows : Credentials)
      → All (λ c. spares row.credential_id c ≡ true) calls
      → first (has_username username) rows ≡ some row
      → first (has_username username) (history calls rows) ≡ some row
  unfolding history
  history-kept username row [] rows spared h = h
  history-kept username row (c ∷ calls) rows (one, ones) h =
      history-kept username row calls (after c rows) ones (after-kept username row c rows one h)

  -- A credential whose identity and user are new is, once registered, accepted until it expires
  -- for the passwords that have the digest of its own, and for no other password, and an expired
  -- one is refused, after any registrations, and revocations of other credentials.
  pub register_authenticate :
      (request : Registration) (password salt other : String) (now later : ℕ) (rows t : Credentials)
      (c : Credential) (calls : List Call)
      → first (matches request) rows ≡ none
      → register digest request password salt now rows ≡ (ok c, t)
      → All (λ d. spares request.credential_id d ≡ true) calls
      → (authenticate digest request.username other later (history calls t)).0
        ≡ ok (
            if not (leb request.expires_at later) && digest other salt == digest password salt
            then some c
            else none)
  unfolding authenticate
  register_authenticate request password salt other now later rows t c calls fresh h spared =
      let (stored, known) = registered request password salt now rows t c fresh h in
      let row = new_row digest (normalized digest request) password salt in
      let there =
        history-kept request.username row calls t spared
          (rw (stored, eq_refl request.username) refl) in
      rw (there, known) refl

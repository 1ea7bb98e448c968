-- ===== src/Effect.antt =====
-- Python methods that mutate an object and may raise: the state comes back beside the exception,
-- since what was written before a `raise` stays written.
pub mod Keeps
pub mod Success
use layerrail_deploy.Prelude.{Bool, true, false, Option, none, some, ◌≡◌, refl, ◌⊎◌, inl, inr}

pub data Result {ℓ} (E A : Type ℓ) : Type ℓ where
  ok : A → Result E A
  err : E → Result E A

abbrev pub Exec {ℓ} : Type ℓ → Type ℓ → Type ℓ → Type ℓ
Exec E S A = S → Result E A × S

module _ {ℓ} {E S A : Type ℓ} where
  abbrev pub pure : A → Exec E S A
  pure a s = (ok a, s)

  abbrev pub raise : E → Exec E S A
  raise e s = (err e, s)

  abbrev pub lift : Result E A → Exec E S A
  lift r s = (r, s)

  -- `if value is None: raise e`
  abbrev pub require : Option A → E → Exec E S A
  require none e = raise e
  require (some a) e = pure a

  abbrev pub gets : (S → A) → Exec E S A
  gets f s = (ok (f s), s)

module _ {ℓ} {E S : Type ℓ} where
  abbrev pub modify : (S → S) → Exec E S Unit
  modify f s = (ok tt, f s)

  -- `if not test: raise e`
  abbrev pub guard : Bool → E → Exec E S Unit
  guard true e s = (ok tt, s)
  guard false e s = (err e, s)

module _ {ℓ} {E S A B : Type ℓ} where
  abbrev pub and_then : Result E A → (A → Exec E S B) → Exec E S B
  and_then (ok a) f s = f a s
  and_then (err e) f s = (err e, s)

  infixl 5 ◌>>=◌ ◌>>◌
  abbrev pub ◌>>=◌ : Exec E S A → (A → Exec E S B) → Exec E S B
  ◌>>=◌ m f s = and_then (m s).0 f (m s).1

  abbrev pub ◌>>◌ : Exec E S A → Exec E S B → Exec E S B
  m >> n = m >>= λ _. n

module _ {ℓ} {E S A : Type ℓ} where
  abbrev pub handle : Result E A → (E → Exec E S A) → Exec E S A
  handle (ok a) h s = (ok a, s)
  handle (err e) h s = h e s

  -- `try: m` with one handler that looks at the exception, and may raise again
  abbrev pub try_except : Exec E S A → (E → Exec E S A) → Exec E S A
  try_except m h s = handle (m s).0 h (m s).1

abbrev pub succeeded {ℓ} : {E A : Type ℓ} → Result E A → Bool
succeeded (ok a) = true
succeeded (err e) = false

pub Result-cases {ℓ} :
    {E A : Type ℓ} (r : Result E A) → ((a : A) × (r ≡ ok a)) ⊎ ((e : E) × (r ≡ err e))
Result-cases (ok a) = inl (a, refl)
Result-cases (err e) = inr (e, refl)

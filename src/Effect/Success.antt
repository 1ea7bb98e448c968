-- ===== src/Effect/Success.antt =====
-- What an action that has returned has gone through: each of its steps returned.
use layerrail_deploy.Prelude.{◌≡◌, refl, Bool, true, false, Option, none, some, arith}
use layerrail_deploy.Effect.{Result, ok, err, Exec, guard, require, and_then}

module _ {E S B : Type 0} (b : B) (t : S) where
  pub and_then-ok :
      {A : Type 0} (r : Result E A) (f : A → Exec E S B) (s : S)
      → and_then r f s ≡ (ok b, t)
      → (a : A) × (r ≡ ok a) × (f a s ≡ (ok b, t))
  and_then-ok (ok a) f s h = (a, refl, h)
  and_then-ok (err e) f s h = ground arith

  pub guard-ok :
      (test : Bool) (e : E) (f : Unit → Exec E S B) (s : S)
      → and_then (guard test e s).0 f (guard test e s).1 ≡ (ok b, t)
      → (test ≡ true) × (f tt s ≡ (ok b, t))
  guard-ok true e f s h = (refl, h)
  guard-ok false e f s h = ground arith

  pub require-ok :
      {A : Type 0} (o : Option A) (e : E) (f : A → Exec E S B) (s : S)
      → and_then (require o e s).0 f (require o e s).1 ≡ (ok b, t)
      → (a : A) × (o ≡ some a) × (f a s ≡ (ok b, t))
  require-ok (some a) e f s h = (a, refl, h)
  require-ok none e f s h = ground arith

-- An action's two results, once the first is known.
pub pair_of : {E S A : Type 0} {a : A} (x : Result E A × S) → x.0 ≡ ok a → x ≡ (ok a, x.1)
pair_of (r, s) h = rw h refl

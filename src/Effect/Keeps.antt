-- ===== src/Effect/Keeps.antt =====
-- Proof rules for actions: what holds of the state is kept, whether the action returns or raises,
-- and what it returns satisfies a condition.
use layerrail_deploy.Prelude.{◌≡◌, refl, Bool, true, false, Option, none, some, if◌then◌else◌}
use layerrail_deploy.Effect.{
  Result, ok, err, Exec, pure, raise, guard, lift, gets, require, and_then, ◌>>=◌, handle,
  try_except,
}

module _ {E A : Type 0} where
  abbrev pub Returns : (A → Type 0) → Result E A → Type 0
  Returns Q (ok a) = Q a
  Returns Q (err e) = Unit

-- no condition on the value
abbrev pub Anything : {A : Type 0} → A → Type 0
Anything a = Unit

module _ {E S : Type 0} (P : S → Type 0) {A : Type 0} where
  pub record Keeps (Q : A → Type 0) (m : Exec E S A) : Type 0 where
    pub at : (s : S) → P s → P (m s).1 × Returns Q (m s).0

  pub Keeps-pure : (Q : A → Type 0) (a : A) → Q a → Keeps Q (pure a)
  Keeps-pure Q a q = record { at = λ s p. (p, q) }

  pub Keeps-raise : (Q : A → Type 0) (e : E) → Keeps Q (raise e)
  Keeps-raise Q e = record { at = λ s p. (p, tt) }

  pub Keeps-if :
      (Q : A → Type 0) (b : Bool) (m n : Exec E S A)
      → (b ≡ true → Keeps Q m)
      → (b ≡ false → Keeps Q n)
      → Keeps Q (if b then m else n)
  Keeps-if Q true m n km kn = km refl
  Keeps-if Q false m n km kn = kn refl

  Keeps-handle :
      (Q : A → Type 0) (r : Result E A) (h : E → Exec E S A)
      → ((e : E) → Keeps Q (h e))
      → (s : S) → P s
      → Returns Q r
      → P (handle r h s).1 × Returns Q (handle r h s).0
  Keeps-handle Q (ok a) h kh s p q = (p, q)
  Keeps-handle Q (err e) h kh s p q = (kh e).at s p

  pub Keeps-try :
      (Q : A → Type 0) (m : Exec E S A) (h : E → Exec E S A)
      → Keeps Q m
      → ((e : E) → Keeps Q (h e))
      → Keeps Q (try_except m h)
  Keeps-try Q m h km kh = record {
    at = λ s p. let k = km.at s p in Keeps-handle Q (m s).0 h kh (m s).1 k.0 k.1;
  }

  -- a stronger condition on the value serves too
  pub Keeps-weaken :
      (Q R : A → Type 0) (m : Exec E S A) → ((a : A) → Q a → R a) → Keeps Q m → Keeps R m
  Keeps-weaken Q R m weaker km = record {
    at = λ s p. let k = km.at s p in (k.0, returns (m s).0 k.1);
  }
    where
      returns : (r : Result E A) → Returns Q r → Returns R r
      returns (ok a) q = weaker a q
      returns (err e) q = tt

module _ {E S : Type 0} (P : S → Type 0) {A B : Type 0} where
  Keeps-then :
      (Q : A → Type 0) (R : B → Type 0) (r : Result E A) (f : A → Exec E S B)
      → ((a : A) → Q a → Keeps P R (f a))
      → (s : S) → P s
      → Returns Q r
      → P (and_then r f s).1 × Returns R (and_then r f s).0
  Keeps-then Q R (ok a) f kf s p q = (kf a q).at s p
  Keeps-then Q R (err e) f kf s p q = (p, tt)

  pub Keeps-bind :
      (Q : A → Type 0) (R : B → Type 0) (m : Exec E S A) (f : A → Exec E S B)
      → Keeps P Q m
      → ((a : A) → Q a → Keeps P R (f a))
      → Keeps P R (m >>= f)
  Keeps-bind Q R m f km kf = record {
    at = λ s p. let k = km.at s p in Keeps-then Q R (m s).0 f kf (m s).1 k.0 k.1;
  }

  -- the rule for values of which nothing is asked
  pub Keeps-bind_any :
      (R : B → Type 0) (m : Exec E S A) (f : A → Exec E S B)
      → Keeps P Anything m
      → ((a : A) → Keeps P R (f a))
      → Keeps P R (m >>= f)
  Keeps-bind_any R m f km kf = Keeps-bind Anything R m f km (λ a q. kf a)

-- A guard that passes has its test true.
pub Keeps-guard :
    {E S : Type 0} (P : S → Type 0) (b : Bool) (e : E) → Keeps P (λ t. b ≡ true) (guard b e)
Keeps-guard P true e = record { at = λ s p. (p, refl) }
Keeps-guard P false e = record { at = λ s p. (p, tt) }

pub Keeps-guard_any :
    {E S : Type 0} (P : S → Type 0) (b : Bool) (e : E) → Keeps P Anything (guard b e)
Keeps-guard_any P true e = record { at = λ s p. (p, tt) }
Keeps-guard_any P false e = record { at = λ s p. (p, tt) }

module _ {E S : Type 0} (P : S → Type 0) {A : Type 0} where
  pub Keeps-pure_any : (a : A) → Keeps {E = E} P Anything (pure a)
  Keeps-pure_any a = Keeps-pure P Anything a tt

  pub Keeps-raise_any : (e : E) → Keeps P {A = A} Anything (raise e)
  Keeps-raise_any e = Keeps-raise P Anything e

  pub Keeps-lift_any : (r : Result E A) → Keeps P Anything (lift r)
  Keeps-lift_any (ok a) = Keeps-pure_any a
  Keeps-lift_any (err e) = Keeps-raise_any e

  -- What is known of a result stays known.
  pub Keeps-lift : (r : Result E A) → Keeps P (λ a. r ≡ ok a) (lift r)
  Keeps-lift (ok a) = Keeps-pure P (λ b. ok a ≡ ok b) a refl
  Keeps-lift (err e) = Keeps-raise P (λ b. err e ≡ ok b) e

  pub Keeps-gets : (Q : A → Type 0) (f : S → A) → ((s : S) → Q (f s)) → Keeps {E = E} P Q (gets f)
  Keeps-gets Q f h = record { at = λ s p. (p, h s) }

  pub Keeps-gets_any : (f : S → A) → Keeps {E = E} P Anything (gets f)
  Keeps-gets_any f = record { at = λ s p. (p, tt) }

  pub Keeps-require_any : (o : Option A) (e : E) → Keeps P Anything (require o e)
  Keeps-require_any none e = Keeps-raise_any e
  Keeps-require_any (some a) e = Keeps-pure_any a

pub ruleset plain_rules =
    (Keeps-pure_any, Keeps-raise_any, Keeps-if, Keeps-try, Keeps-bind_any, Keeps-guard_any)

-- with the reads of a state and the results of pure calls
pub ruleset read_rules = (plain_rules, Keeps-lift_any, Keeps-gets_any, Keeps-require_any)

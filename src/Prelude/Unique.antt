-- ===== src/Prelude/Unique.antt =====
-- Columns that are unique: when a row is added, and against the row that a SELECT finds.
use mathlib.Core.Path.{◌≡◌, refl, sym, ap, ◌∙◌}
use mathlib.Core.Logic.{inl, inr}
use mathlib.Core.Bool.{Bool, true, false, ◌&&◌, ◌||◌, not}
use mathlib.Core.Option.{some}
use mathlib.Core.List.{List, [], ◌∷◌, ◌++◌}
use native.Mathlib.Omega.{arith}
use layerrail_deploy.Prelude.Tests.{Bool-cases}
use layerrail_deploy.Prelude.Lists.{any}
use layerrail_deploy.Prelude.Tables.{first, UniqueBy}

module _ {A : Type 0} where
  pub any-narrower :
      (p q : A → Bool) (xs : List A)
      → ((x : A) → q x ≡ true → p x ≡ true)
      → any p xs ≡ false
      → any q xs ≡ false
  any-narrower p q [] narrower h = refl
  any-narrower p q (x ∷ xs) narrower h = ground (arith, narrower x, any-narrower p q xs narrower)

  pub UniqueBy-narrower :
      (same r : A → A → Bool) (xs : List A)
      → ((x y : A) → r x y ≡ true → same x y ≡ true)
      → UniqueBy same xs
      → UniqueBy r xs
  UniqueBy-narrower same r [] narrower h = tt
  UniqueBy-narrower same r (x ∷ xs) narrower (h, hs) =
      (any-narrower (same x) (r x) xs (narrower x) h, UniqueBy-narrower same r xs narrower hs)

  pub any-snoc : (p : A → Bool) (xs : List A) (a : A) → any p (xs ++ a ∷ []) ≡ (any p xs || p a)
  any-snoc p [] a = ground arith
  any-snoc p (x ∷ xs) a = ground (arith, any-snoc p xs a)

  pub UniqueBy-snoc :
      (same : A → A → Bool) (xs : List A) (a : A)
      → any (λ x. same x a) xs ≡ false
      → UniqueBy same xs
      → UniqueBy same (xs ++ a ∷ [])
  UniqueBy-snoc same [] a apart h = (refl, tt)
  UniqueBy-snoc same (x ∷ xs) a apart (h, hs) = (
    any-snoc (same x) xs a ∙ ground (arith, apart, h),
    UniqueBy-snoc same xs a (ground (arith, apart)) hs,
  )

  -- a row that is found is not `same` as a row that is same as none
  first-other :
      (p q : A → Bool) (xs : List A) (a : A) → first p xs ≡ some a → any q xs ≡ false → q a ≡ false
  first-other p q [] a found h = ground arith
  first-other p q (x ∷ xs) a found h = elim (Bool-cases (p x)) [
    | inl e ↦ ground (arith, found, h, e)
    | inr e ↦ first-other p q xs a (ground (arith, found, e)) (ground (arith, h))
  ]

  -- The row that is found agrees with no row that the SELECT does not find.
  pub UniqueBy-first :
      (same : A → A → Bool) (p : A → Bool) (xs : List A) (a : A)
      → ((x y : A) → same x y ≡ same y x)
      → first p xs ≡ some a
      → UniqueBy same xs
      → any (λ x. same a x && not (p x)) xs ≡ false
  UniqueBy-first same p [] a symmetric found h = refl
  UniqueBy-first same p (x ∷ xs) a symmetric found (h, hs) = elim (Bool-cases (p x)) [
    | inl e ↦
        let own : x ≡ a = ground (arith, found, e) in
        let rest =
          any-narrower (same a) (λ y. same a y && not (p y)) xs (λ y k. ground (arith, k))
            (ap (λ b. any (same b) xs) (sym own) ∙ h) in
        ground (arith, e, rest)
    | inr e ↦
        let later : first p xs ≡ some a = ground (arith, found, e) in
        let rest = UniqueBy-first same p xs a symmetric later hs in
        let apart = first-other p (same x) xs a later h in
        ground (arith, rest, apart, symmetric a x)
  ]

-- ===== src/Prelude/Tables.antt =====
-- SQL tables as lists of rows: a SELECT of one row, an upsert, a DELETE, and unique columns.
use mathlib.Core.Path.{◌≡◌, refl, ◌∙◌}
use mathlib.Core.Logic.{inl, inr}
use mathlib.Core.Bool.{Bool, true, false, ◌&&◌, not}
use mathlib.Core.Option.{Option, none, some}
use mathlib.Core.List.{List, [], ◌∷◌}
use native.Mathlib.Omega.{arith}
use layerrail_deploy.Prelude.Tests.{if◌then◌else◌, Bool-cases}
use layerrail_deploy.Prelude.Lists.{any}

module _ {A : Type 0} where
  -- `SELECT … WHERE p` and `fetchone`
  abbrev pub first : (A → Bool) → List A → Option A
  first p [] = none
  first p (x ∷ xs) = if p x then some x else first p xs

  -- `INSERT … ON CONFLICT … DO UPDATE` of every column: the row that `p` finds is replaced, and
  -- without one the new row is added.
  abbrev pub upsert : (A → Bool) → A → List A → List A
  upsert p a [] = a ∷ []
  upsert p a (x ∷ xs) = if p x then a ∷ xs else x ∷ upsert p a xs

  -- `UPDATE … WHERE p`
  abbrev pub change : (A → Bool) → (A → A) → List A → List A
  change p f [] = []
  change p f (x ∷ xs) = (if p x then f x else x) ∷ change p f xs

  -- `DELETE … WHERE p`
  abbrev pub discard : (A → Bool) → List A → List A
  discard p [] = []
  discard p (x ∷ xs) = if p x then discard p xs else x ∷ discard p xs

  -- No two rows are the same in the sense of `same`.
  abbrev pub UniqueBy : (A → A → Bool) → List A → Type 0
  UniqueBy same [] = Unit
  UniqueBy same (x ∷ xs) = (any (same x) xs ≡ false) × UniqueBy same xs

  pub first-upsert :
      (p : A → Bool) (a : A) (xs : List A) → p a ≡ true → first p (upsert p a xs) ≡ some a
  first-upsert p a [] h = rw h refl
  first-upsert p a (x ∷ xs) h = elim (Bool-cases (p x)) [
    | inl e ↦ rw (e, h) refl
    | inr e ↦ rw (e, e) (first-upsert p a xs h)
  ]

  pub first-upsert_other :
      (p q : A → Bool) (a : A) (xs : List A)
      → ((x : A) → p x ≡ true → q x ≡ false)
      → q a ≡ false
      → first q (upsert p a xs) ≡ first q xs
  first-upsert_other p q a [] apart h = rw h refl
  first-upsert_other p q a (x ∷ xs) apart h = elim (Bool-cases (p x)) [
    | inl e ↦ rw (e, h, apart x e) refl
    | inr e ↦ rw (e, first-upsert_other p q a xs apart h) refl
  ]

  -- an UPDATE that leaves alone the column by which a row is found
  pub first-change :
      (p : A → Bool) (f : A → A) (xs : List A) (a : A)
      → ((x : A) → p (f x) ≡ p x)
      → first p xs ≡ some a
      → first p (change p f xs) ≡ some (f a)
  first-change p f [] a same h = ground arith
  first-change p f (x ∷ xs) a same h = elim (Bool-cases (p x)) [
    | inl e ↦ rw (e, same x, e) (ground (arith, e, h))
    | inr e ↦ rw (e, e) (first-change p f xs a same (ground (arith, e, h)))
  ]

  pub first-change_other :
      (p q : A → Bool) (f : A → A) (xs : List A)
      → ((x : A) → p x ≡ true → q x ≡ false)
      → ((x : A) → q (f x) ≡ q x)
      → first q (change p f xs) ≡ first q xs
  first-change_other p q f [] apart same = refl
  first-change_other p q f (x ∷ xs) apart same = elim (Bool-cases (p x)) [
    | inl e ↦ rw (e, same x, apart x e) (first-change_other p q f xs apart same)
    | inr e ↦ rw e (ground (arith, first-change_other p q f xs apart same))
  ]

  any_ext : (p q : A → Bool) (xs : List A) → ((x : A) → p x ≡ q x) → any p xs ≡ any q xs
  any_ext p q [] same = refl
  any_ext p q (x ∷ xs) same = ground (arith, same x, any_ext p q xs same)

  any-change :
      (p q : A → Bool) (f : A → A) (xs : List A)
      → ((x : A) → q (f x) ≡ q x)
      → any q (change p f xs) ≡ any q xs
  any-change p q f [] same = refl
  any-change p q f (x ∷ xs) same = ground (arith, same x, any-change p q f xs same)

  -- an UPDATE that makes no row bad
  pub any-change_kept :
      (p bad : A → Bool) (f : A → A) (xs : List A)
      → ((x : A) → p x ≡ true → bad x ≡ false → bad (f x) ≡ false)
      → any bad xs ≡ false
      → any bad (change p f xs) ≡ false
  any-change_kept p bad f [] kept h = refl
  any-change_kept p bad f (x ∷ xs) kept h = elim (Bool-cases (p x)) [
    | inl e ↦ rw e (ground (arith, h, kept x e, any-change_kept p bad f xs kept))
    | inr e ↦ rw e (ground (arith, h, any-change_kept p bad f xs kept))
  ]

  pub first-bad :
      (p bad : A → Bool) (xs : List A) (a : A)
      → any bad xs ≡ false
      → first p xs ≡ some a
      → (p a ≡ true) × (bad a ≡ false)
  first-bad p bad [] a h k = ground arith
  first-bad p bad (x ∷ xs) a h k = elim (Bool-cases (p x)) [
    | inl e ↦ ground (arith, h, k, e)
    | inr e ↦ first-bad p bad xs a (ground (arith, h)) (ground (arith, k, e))
  ]

  -- an UPDATE of other columns keeps a column unique
  pub UniqueBy-change :
      (same : A → A → Bool) (p : A → Bool) (f : A → A) (xs : List A)
      → ((x y : A) → same x (f y) ≡ same x y)
      → ((x y : A) → same (f x) y ≡ same x y)
      → UniqueBy same xs
      → UniqueBy same (change p f xs)
  UniqueBy-change same p f [] right left h = tt
  UniqueBy-change same p f (x ∷ xs) right left (h, hs) = elim (Bool-cases (p x)) [
    | inl e ↦ rw e (
      any-change p (same (f x)) f xs (right (f x)) ∙ any_ext (same (f x)) (same x) xs (left x) ∙ h,
      UniqueBy-change same p f xs right left hs,
    )
    | inr e ↦
        rw e (any-change p (same x) f xs (right x) ∙ h, UniqueBy-change same p f xs right left hs)
  ]

  pub first-discard : (p : A → Bool) (xs : List A) → first p (discard p xs) ≡ none
  first-discard p [] = refl
  first-discard p (x ∷ xs) = elim (Bool-cases (p x)) [
    | inl e ↦ rw e (first-discard p xs)
    | inr e ↦ rw (e, e) (first-discard p xs)
  ]

  pub first-discard_other :
      (p q : A → Bool) (xs : List A)
      → ((x : A) → p x ≡ true → q x ≡ false)
      → first q (discard p xs) ≡ first q xs
  first-discard_other p q [] apart = refl
  first-discard_other p q (x ∷ xs) apart = elim (Bool-cases (p x)) [
    | inl e ↦ rw (e, apart x e) (first-discard_other p q xs apart)
    | inr e ↦ rw e (ground (arith, first-discard_other p q xs apart))
  ]

  pub any-discard : (p q : A → Bool) (xs : List A) → any q xs ≡ false → any q (discard p xs) ≡ false
  any-discard p q [] h = refl
  any-discard p q (x ∷ xs) h = ground (arith, any-discard p q xs)

  pub UniqueBy-discard :
      (same : A → A → Bool) (p : A → Bool) (xs : List A)
      → UniqueBy same xs
      → UniqueBy same (discard p xs)
  UniqueBy-discard same p [] h = tt
  UniqueBy-discard same p (x ∷ xs) (h, k) = elim (Bool-cases (p x)) [
    | inl e ↦ rw e (UniqueBy-discard same p xs k)
    | inr e ↦ rw e (any-discard p (same x) xs h, UniqueBy-discard same p xs k)
  ]

  any-upsert :
      (p q : A → Bool) (a : A) (xs : List A)
      → q a ≡ false
      → any q xs ≡ false
      → any q (upsert p a xs) ≡ false
  any-upsert p q a [] h k = rw h refl
  any-upsert p q a (x ∷ xs) h k = ground (arith, any-upsert p q a xs)

  -- Of the rows that `p` finds there is one at most, and `q` finds only rows that `p` finds.
  any-apart :
      (p q : A → Bool) (xs : List A)
      → any (λ x. q x && not (p x)) xs ≡ false
      → any p xs ≡ false
      → any q xs ≡ false
  any-apart p q [] h k = refl
  any-apart p q (x ∷ xs) h k = ground (arith, any-apart p q xs)

  any-and :
      (b : Bool) (p : A → Bool) (xs : List A)
      → b ≡ true
      → any (λ y. b && p y) xs ≡ false
      → any p xs ≡ false
  any-and true p xs e h = h
  any-and false p xs e h = ground arith

  -- An upsert keeps a column unique if no row but the replaced one has the new row's value there.
  pub UniqueBy-upsert :
      (same : A → A → Bool) (p : A → Bool) (a : A) (xs : List A)
      → ((x : A) → same x a ≡ same a x)
      → UniqueBy (λ x y. p x && p y) xs
      → any (λ x. same a x && not (p x)) xs ≡ false
      → UniqueBy same xs
      → UniqueBy same (upsert p a xs)
  UniqueBy-upsert same p a [] symmetric one clash h = (refl, tt)
  UniqueBy-upsert same p a (x ∷ xs) symmetric (one, ones) clash (h, k) = elim (Bool-cases (p x)) [
    | inl e ↦ rw e (any-apart p (same a) xs (ground arith) (any-and (p x) p xs e one), k)
    | inr e ↦ rw e (
      any-upsert p (same x) a xs (ground (arith, symmetric x)) h,
      UniqueBy-upsert same p a xs symmetric ones (ground arith) k,
    )
  ]

  first-apart :
      (p q : A → Bool) (xs : List A)
      → ((x : A) → q x ≡ true → p x ≡ true)
      → any p xs ≡ false
      → first q xs ≡ none
  first-apart p q [] narrower h = refl
  first-apart p q (x ∷ xs) narrower h = ground (arith, narrower x, first-apart p q xs narrower)

  -- What `p` finds is one row at most, and the new row, which `q` does not find, takes its place.
  pub first-upsert_lone :
      (p q : A → Bool) (a : A) (xs : List A)
      → ((x : A) → q x ≡ true → p x ≡ true)
      → UniqueBy (λ x y. p x && p y) xs
      → q a ≡ false
      → first q (upsert p a xs) ≡ none
  first-upsert_lone p q a [] narrower one h = rw h refl
  first-upsert_lone p q a (x ∷ xs) narrower (one, ones) h = elim (Bool-cases (p x)) [
    | inl e ↦ rw (e, h) (first-apart p q xs narrower (any-and (p x) p xs e one))
    | inr e ↦ rw e (ground (arith, narrower x, first-upsert_lone p q a xs narrower ones h))
  ]

  -- `q` finds the new row, and otherwise only rows that `p` finds too.
  pub first-upsert_at :
      (p q : A → Bool) (a : A) (xs : List A)
      → ((x : A) → q x ≡ true → p x ≡ true)
      → q a ≡ true
      → first q (upsert p a xs) ≡ some a
  first-upsert_at p q a [] narrower h = rw h refl
  first-upsert_at p q a (x ∷ xs) narrower h = elim (Bool-cases (p x)) [
    | inl e ↦ rw (e, h) refl
    | inr e ↦ rw e (ground (arith, narrower x, first-upsert_at p q a xs narrower h))
  ]

-- ===== src/Build/Store/Rows.antt =====
-- The laws of the row operations of store.py, for the proofs about its methods.
use layerrail_deploy.Prelude.{
  String, ◌≡◌, refl, ◌==◌, eq_iff, Bool, true, false, ◌||◌, Option, none, some, List, [], ◌∷◌, ◌++◌,
  arith, if◌then◌else◌,
}
use layerrail_deploy.Build.Store.{Operation, find, update, count_rows}
use layerrail_deploy.Build.Store.Methods.{has_operation_id}

-- `f` leaves the keys of a row alone.
pub record KeepsKeys (f : Operation → Operation) : Type 0 where
  pub build_kept : (o : Operation) → (f o).build_id ≡ o.build_id
  pub operation_kept : (o : Operation) → (f o).operation_id ≡ o.operation_id

abbrev pub mapped : Bool → (Operation → Operation) → Option Operation → Option Operation
mapped true f none = none
mapped true f (some o) = some (f o)
mapped false f r = r

module _ (f : Operation → Operation) (keeps : KeepsKeys f) where
  pub find-update :
      (b c : String) (rows : List Operation)
      → find c (update b f rows) ≡ mapped (b == c) f (find c rows)
  unfolding find update
  find-update b c [] = ground arith
  find-update b c (o ∷ rows) = ground (
    arith,
    find-update b c rows,
    keeps.build_kept o,
    eq_iff o.build_id b,
    eq_iff o.build_id c,
    eq_iff b c,
  )

  pub has_operation_id-update :
      (b i : String) (rows : List Operation)
      → has_operation_id i (update b f rows) ≡ has_operation_id i rows
  unfolding has_operation_id update
  has_operation_id-update b i [] = refl
  has_operation_id-update b i (o ∷ rows) =
      ground (arith, has_operation_id-update b i rows, keeps.operation_kept o)

abbrev pub or_last : Option Operation → Operation → String → Option Operation
or_last (some p) o c = some p
or_last none o c = if o.build_id == c then some o else none

pub find-append :
    (c : String) (rows : List Operation) (o : Operation)
    → find c (rows ++ o ∷ []) ≡ or_last (find c rows) o c
unfolding find
find-append c [] o = refl
find-append c (p ∷ rows) o = ground (arith, find-append c rows o)

pub has_operation_id-append :
    (i : String) (rows : List Operation) (o : Operation)
    → has_operation_id i (rows ++ o ∷ []) ≡ (has_operation_id i rows || o.operation_id == i)
unfolding has_operation_id
has_operation_id-append i [] o = ground arith
has_operation_id-append i (p ∷ rows) o = ground (arith, has_operation_id-append i rows o)

-- A row that is found has the build's identity.
pub find-build_id :
    (b : String) (rows : List Operation) (o : Operation) → find b rows ≡ some o → o.build_id ≡ b
unfolding find
find-build_id b [] o h = cc
find-build_id b (p ∷ rows) o h = ground (arith, find-build_id b rows o, eq_iff p.build_id b)

-- The primary key and the unique index of the table.
abbrev pub IsKeyed : List Operation → Type 0
IsKeyed [] = Unit
IsKeyed (o ∷ rows) =
    (find o.build_id rows ≡ none) × (has_operation_id o.operation_id rows ≡ false) × IsKeyed rows

mapped-none : (t : Bool) (f : Operation → Operation) → mapped t f none ≡ none
mapped-none true f = refl
mapped-none false f = refl

module _ (f : Operation → Operation) (keeps : KeepsKeys f) where
  build_kept_if : (t : Bool) (o : Operation) → (if t then f o else o).build_id ≡ o.build_id
  build_kept_if true o = keeps.build_kept o
  build_kept_if false o = refl

  operation_kept_if :
      (t : Bool) (o : Operation) → (if t then f o else o).operation_id ≡ o.operation_id
  operation_kept_if true o = keeps.operation_kept o
  operation_kept_if false o = refl

  pub update-IsKeyed :
      (b : String) (rows : List Operation) → IsKeyed rows → IsKeyed (update b f rows)
  unfolding update
  update-IsKeyed b [] h = tt
  update-IsKeyed b (o ∷ rows) h = (
    rw (build_kept_if (o.build_id == b) o, find-update f keeps b o.build_id rows, h.0)
        (mapped-none (b == o.build_id) f),
    rw
        (
          operation_kept_if (o.build_id == b) o,
          has_operation_id-update f keeps b o.operation_id rows,
        )
        h.1,
    update-IsKeyed b rows h.2,
  )

pub append-IsKeyed :
    (rows : List Operation) (o : Operation)
    → find o.build_id rows ≡ none
    → has_operation_id o.operation_id rows ≡ false
    → IsKeyed rows
    → IsKeyed (rows ++ o ∷ [])
unfolding find has_operation_id
append-IsKeyed [] o fresh unused h = ground arith
append-IsKeyed (p ∷ rows) o fresh unused h = (
  ground (
    arith,
    find-append p.build_id rows o,
    h.0,
    eq_iff p.build_id o.build_id,
    eq_iff o.build_id p.build_id,
  ),
  ground (
    arith,
    has_operation_id-append p.operation_id rows o,
    h.1,
    eq_iff p.operation_id o.operation_id,
    eq_iff o.operation_id p.operation_id,
  ),
  append-IsKeyed rows o (ground arith) (ground arith) h.2,
)

-- No row is found, so an UPDATE reaches none.
count_rows-none :
    (b : String) (p : Operation → Bool) (rows : List Operation)
    → find b rows ≡ none
    → count_rows b p rows ≡ 0
unfolding find count_rows
count_rows-none b p [] h = refl
count_rows-none b p (o ∷ rows) h = ground (arith, count_rows-none b p rows)

-- With a primary key an UPDATE reaches at most the row that is found.
pub count_rows-found :
    (b : String) (p : Operation → Bool) (rows : List Operation) (o : Operation)
    → IsKeyed rows
    → find b rows ≡ some o
    → count_rows b p rows ≡ (if p o then 1 else 0)
unfolding find count_rows
count_rows-found b p [] o keyed h = cc
count_rows-found b p (q ∷ rows) o keyed h =
    ground
      (arith, count_rows-found b p rows o, count_rows-none q.build_id p rows, eq_iff q.build_id b)

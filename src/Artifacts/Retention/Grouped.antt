-- ===== src/Artifacts/Retention/Grouped.antt =====
-- The groups of a listing: one to a revision, with every object of it.
use layerrail_deploy.Prelude.{
  ℕ, String, ◌≡◌, refl, ◌∙◌, ◌==◌, eq_iff, eq_refl, Bool, true, false, ◌&&◌, ◌||◌, not, List, [],
  ◌∷◌, ◌++◌, any, one_of, leb, UniqueBy, arith, Bool-cases, inl, inr, if◌then◌else◌,
}
use layerrail_deploy.Artifacts.Store.{ObjectInfo}
use layerrail_deploy.Artifacts.Retention.{
  Groups, keys_of, append_group, group_objects, insert_group, sorted_groups, revision_of, latest,
}
use layerrail_deploy.Artifacts.Retention.Untouched.{one_of-snoc}

abbrev Group : Type 0
Group = String × List ObjectInfo

abbrev pub same_group : Group → Group → Bool
same_group x y = x.0 == y.0

latest-snoc :
    (cutoff : ℕ) (values : List ObjectInfo) (value : ObjectInfo)
    → leb cutoff (latest (values ++ value ∷ []))
      ≡ (leb cutoff (latest values) || leb cutoff value.last_modified)
latest-snoc cutoff [] value = ground arith
latest-snoc cutoff (v ∷ values) value = ground (arith, latest-snoc cutoff values value)

-- an object of the revision that is not older than the cutoff
abbrev pub is_recent : String → ℕ → String → ObjectInfo → Bool
is_recent r cutoff prefix value =
    revision_of prefix value.key == r && leb cutoff value.last_modified

module _ (r : String) (cutoff : ℕ) (k : String) where
  -- the group of the revision, with an object that is not older than the cutoff
  abbrev pub is_young : Group → Bool
  is_young x = x.0 == r && leb cutoff (latest x.1)

  -- the group of another revision, with the key
  abbrev pub is_stray : Group → Bool
  is_stray x = not (x.0 == r) && one_of k (keys_of x.1)

  -- Groups of which one is the revision's, which is young, and no other names the key.
  pub record IsGrouped (groups : Groups) : Type 0 where
    pub unique : UniqueBy same_group groups
    pub stray : any is_stray groups ≡ false

  any-append_group :
      (x : Group) (q : String) (value : ObjectInfo) (groups : Groups)
      → any (same_group x) (append_group q value groups) ≡ (any (same_group x) groups || x.0 == q)
  unfolding append_group
  any-append_group x q value [] = ground arith
  any-append_group x q value ((p, values) ∷ groups) =
      ground (arith, eq_iff p q, any-append_group x q value groups)

  unique-append_group :
      (q : String) (value : ObjectInfo) (groups : Groups)
      → UniqueBy same_group groups
      → UniqueBy same_group (append_group q value groups)
  unfolding append_group
  unique-append_group q value [] h = (refl, tt)
  unique-append_group q value ((p, values) ∷ groups) (h, hs) =
      ground
        (arith, any-append_group (p, values) q value groups, unique-append_group q value groups hs)

  stray-append_group :
      (q : String) (value : ObjectInfo) (groups : Groups)
      → (not (q == r) && k == value.key) ≡ false
      → any is_stray groups ≡ false
      → any is_stray (append_group q value groups) ≡ false
  unfolding append_group
  stray-append_group q value [] e h = ground arith
  stray-append_group q value ((p, values) ∷ groups) e h =
      ground (arith, eq_iff p q, one_of-snoc k values value, stray-append_group q value groups e)

  young-append_group :
      (q : String) (value : ObjectInfo) (groups : Groups)
      → any is_young (append_group q value groups)
        ≡ (any is_young groups || (q == r && leb cutoff value.last_modified))
  unfolding append_group
  young-append_group q value [] = ground arith
  young-append_group q value ((p, values) ∷ groups) =
      ground (arith, eq_iff p q, latest-snoc cutoff values value, young-append_group q value groups)

  append-IsGrouped :
      (q : String) (value : ObjectInfo) (groups : Groups)
      → (not (q == r) && k == value.key) ≡ false
      → IsGrouped groups
      → IsGrouped (append_group q value groups)
  append-IsGrouped q value groups e h = record {
    unique = unique-append_group q value groups h.unique;
    stray = stray-append_group q value groups e h.stray;
  }

  any-insert_group :
      (p : Group → Bool) (x : Group) (groups : Groups)
      → any p (insert_group x groups) ≡ (p x || any p groups)
  any-insert_group p (q, values) [] = refl
  any-insert_group p (q, values) (y ∷ groups) =
      ground (arith, any-insert_group p (q, values) groups)

  unique-insert_group :
      (x : Group) (groups : Groups)
      → any (same_group x) groups ≡ false
      → UniqueBy same_group groups
      → UniqueBy same_group (insert_group x groups)
  unique-insert_group (q, values) [] h k = (refl, tt)
  unique-insert_group (q, values) ((p, others) ∷ groups) h (k, ks) = ground (
    arith,
    eq_iff q p,
    eq_iff p q,
    any-insert_group (same_group (p, others)) (q, values) groups,
    unique-insert_group (q, values) groups,
  )

  pub any-sorted_groups :
      (p : Group → Bool) (groups : Groups) → any p (sorted_groups groups) ≡ any p groups
  unfolding sorted_groups
  any-sorted_groups p [] = refl
  any-sorted_groups p (x ∷ groups) =
      ground (arith, any-insert_group p x (sorted_groups groups), any-sorted_groups p groups)

  unique-sorted_groups :
      (groups : Groups) → UniqueBy same_group groups → UniqueBy same_group (sorted_groups groups)
  unfolding sorted_groups
  unique-sorted_groups [] h = tt
  unique-sorted_groups (x ∷ groups) (h, hs) =
      unique-insert_group x (sorted_groups groups) (rw (any-sorted_groups (same_group x) groups) h)
        (unique-sorted_groups groups hs)

  pub sorted-IsGrouped : (groups : Groups) → IsGrouped groups → IsGrouped (sorted_groups groups)
  sorted-IsGrouped groups h = record {
    unique = unique-sorted_groups groups h.unique;
    stray = any-sorted_groups is_stray groups ∙ h.stray;
  }

  step-young :
      (candidates : List String) (q : String) (value : ObjectInfo) (later : Bool) (groups : Groups)
      → one_of r candidates ≡ true
      → (any is_young groups || ((q == r && leb cutoff value.last_modified) || later)) ≡ true
      → (any is_young (if one_of q candidates then append_group q value groups else groups)
          || later)
        ≡ true
  step-young candidates q value later groups candidate h = elim (Bool-cases (q == r)) [
    | inl e ↦
        rw ((eq_iff q r).0 e, candidate)
          (ground (arith, young-append_group r value groups, eq_refl r, e))
    | inr e ↦ elim (Bool-cases (one_of q candidates)) [
      | inl f ↦ rw f (ground (arith, young-append_group q value groups, e))
      | inr f ↦ rw f (ground (arith, e))
    ]
  ]

  module _ (prefix : String) (candidates : List String) (own : revision_of prefix k ≡ r) where
    pub group_objects-IsGrouped :
        (objects : List ObjectInfo) (groups : Groups)
        → IsGrouped groups
        → IsGrouped (group_objects prefix candidates objects groups)
    unfolding group_objects
    group_objects-IsGrouped [] groups h = h
    group_objects-IsGrouped (value ∷ objects) groups h =
        group_objects-IsGrouped objects
          (if one_of (revision_of prefix value.key) candidates
            then append_group (revision_of prefix value.key) value groups
            else groups)
          (elim (Bool-cases (one_of (revision_of prefix value.key) candidates)) [
            | inr e ↦ rw e h
            | inl e ↦
                rw e
                  (append-IsGrouped (revision_of prefix value.key) value groups (own_stray value) h)
          ])
      where
        own_stray :
            (value : ObjectInfo)
            → (not (revision_of prefix value.key == r) && k == value.key) ≡ false
        own_stray value = elim (Bool-cases (k == value.key)) [
          | inr e ↦ ground (arith, e)
          | inl e ↦ rw (← (eq_iff k value.key).0 e, own, eq_refl r) refl
        ]

    pub group_objects-young :
        (objects : List ObjectInfo) (groups : Groups)
        → one_of r candidates ≡ true
        → (any is_young groups || any (is_recent r cutoff prefix) objects) ≡ true
        → any is_young (group_objects prefix candidates objects groups) ≡ true
    unfolding group_objects
    group_objects-young [] groups candidate h = ground arith
    group_objects-young (value ∷ objects) groups candidate h =
        group_objects-young objects
          (if one_of (revision_of prefix value.key) candidates
            then append_group (revision_of prefix value.key) value groups
            else groups)
          candidate
          (step-young candidates (revision_of prefix value.key) value
            (any (is_recent r cutoff prefix) objects) groups candidate h)

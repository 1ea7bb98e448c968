-- ===== src/Artifacts/Retention/Untouched.antt =====
-- What `reconcile` leaves alone: everything but the old candidates of its own organization.
use layerrail_deploy.Prelude.{
  ℕ, String, ◌≡◌, ◌==◌, eq_iff, Bool, true, false, ◌&&◌, ◌||◌, not, Option, List, [], ◌∷◌, ◌++◌,
  leb, one_of, starts_with, All, arith, Bool-cases, inl, inr, if◌then◌else◌,
}
use layerrail_deploy.Effect.{pure, modify, ◌>>=◌, ◌>>◌}
use layerrail_deploy.Effect.Keeps.{Keeps, Keeps-if, Anything, read_rules}
use layerrail_deploy.Artifacts.Store.{ObjectInfo, ObjectValue, IsStore}
use layerrail_deploy.Artifacts.Paths.{Fault}
use layerrail_deploy.Artifacts.Gateway.{Gateway}
use layerrail_deploy.Artifacts.Retention.{
  Groups, keys_of, append_group, group_objects, insert_group, sorted_groups, revision_of, latest,
  delete_groups,
}

-- No group names the key.
abbrev pub Spares : String → Groups → Type 0
Spares k groups = All (λ group. one_of k (keys_of group.1) ≡ false) groups

pub one_of-snoc :
    (k : String) (values : List ObjectInfo) (value : ObjectInfo)
    → one_of k (keys_of (values ++ value ∷ [])) ≡ (one_of k (keys_of values) || k == value.key)
one_of-snoc k [] value = ground arith
one_of-snoc k (v ∷ values) value = ground (arith, one_of-snoc k values value)

append_group-Spares :
    (k r : String) (value : ObjectInfo) (groups : Groups)
    → (k == value.key) ≡ false
    → Spares k groups
    → Spares k (append_group r value groups)
unfolding append_group
append_group-Spares k r value [] e h = (ground arith, tt)
append_group-Spares k r value ((q, values) ∷ groups) e (h, hs) = elim (Bool-cases (q == r)) [
  | inl same ↦ rw same (ground (arith, one_of-snoc k values value), hs)
  | inr other ↦ rw other (h, append_group-Spares k r value groups e hs)
]

-- A listing under a prefix spares each key that lies outside the candidates' revisions.
pub group_objects-Spares :
    (k prefix : String) (candidates : List String) (objects : List ObjectInfo) (groups : Groups)
    → (starts_with k prefix && one_of (revision_of prefix k) candidates) ≡ false
    → All (λ (info : ObjectInfo). starts_with info.key prefix ≡ true) objects
    → Spares k groups
    → Spares k (group_objects prefix candidates objects groups)
unfolding group_objects
group_objects-Spares k prefix candidates [] groups outside listed h = h
group_objects-Spares k prefix candidates (value ∷ objects) groups outside (l, ls) h =
    group_objects-Spares k prefix candidates objects
      (if one_of (revision_of prefix value.key) candidates
        then append_group (revision_of prefix value.key) value groups
        else groups)
      outside ls
      (elim (Bool-cases (one_of (revision_of prefix value.key) candidates)) [
        | inr e ↦ rw e h
        | inl e ↦ rw e (
            append_group-Spares k (revision_of prefix value.key) value groups
              (ground (arith, eq_iff k value.key)) h)
      ])

insert_group-Spares :
    (k : String) (group : String × List ObjectInfo) (groups : Groups)
    → (one_of k (keys_of group.1) ≡ false)
    → Spares k groups
    → Spares k (insert_group group groups)
insert_group-Spares k (r, values) [] e h = (e, tt)
insert_group-Spares k (r, values) ((q, others) ∷ groups) e (h, hs) =
    ground (arith, insert_group-Spares k (r, values) groups e hs)

pub sorted_groups-Spares :
    (k : String) (groups : Groups) → Spares k groups → Spares k (sorted_groups groups)
unfolding sorted_groups
sorted_groups-Spares k [] h = tt
sorted_groups-Spares k (x ∷ groups) (h, hs) =
    insert_group-Spares k x (sorted_groups groups) h (sorted_groups-Spares k groups hs)

-- The loop deletes the group.
abbrev pub deletes : List String → ℕ → (String × List ObjectInfo) → Bool
deletes retained cutoff x = not (one_of x.0 retained || leb cutoff (latest x.1))

abbrev pub HoldsAs : {S : Type 0} → Gateway S → String → String → Option ObjectValue → S → Type 0
HoldsAs g b k o s = g.objects.get b k s ≡ o

module _ {S : Type 0} (g : Gateway S) (laws : IsStore g.objects) where
  delete-Keeps :
      (b k : String) (o : Option ObjectValue) (keys : List String)
      → (g.static_bucket == b && one_of k keys) ≡ false
      → Keeps {E = Fault}
          (HoldsAs g b k o)
          Anything
          (modify (g.objects.delete g.static_bucket keys))
  delete-Keeps b k o keys h = record {
    at = λ s same. (rw (laws.get-delete g.static_bucket b k keys s, h) same, tt);
  }

  -- An object of another bucket, or one that no group names, stays as it was.
  pub delete_groups-Keeps :
      (b k : String) (o : Option ObjectValue) (retained : List String) (cutoff : ℕ)
      (groups : Groups)
      → All
          (λ x.
            (deletes retained cutoff x && (g.static_bucket == b && one_of k (keys_of x.1))) ≡ false)
          groups
      → Keeps (HoldsAs g b k o) Anything (delete_groups g retained cutoff groups)
  unfolding delete_groups
  delete_groups-Keeps b k o retained cutoff [] h = search read_rules
  delete_groups-Keeps b k o retained cutoff ((r, values) ∷ groups) (h, hs) =
      Keeps-if (HoldsAs g b k o) Anything (one_of r retained || leb cutoff (latest values))
        (delete_groups g retained cutoff groups)
        (do
          modify (g.objects.delete g.static_bucket (keys_of values))
          deleted ← delete_groups g retained cutoff groups
          pure (r ∷ deleted))
        (λ e. delete_groups-Keeps b k o retained cutoff groups hs)
        (λ e. search (
          read_rules,
          delete-Keeps b k o (keys_of values) (ground (arith, e)),
          delete_groups-Keeps b k o retained cutoff groups hs,
        ))

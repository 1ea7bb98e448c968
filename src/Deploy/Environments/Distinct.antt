-- ===== src/Deploy/Environments/Distinct.antt =====
-- No two active environments of a project have the same slug.
use layerrail_deploy.Prelude.{
  String, ◌≡◌, refl, ◌==◌, eq_iff, Bool, true, false, not, ◌&&◌, ◌||◌, Option, none, some, List, [],
  ◌∷◌, any, first, upsert, UniqueBy, UniqueBy-upsert, UniqueBy-narrower, UniqueBy-snoc,
  UniqueBy-first, any-narrower, arith, Bool-cases, inl, inr,
}
use layerrail_deploy.Deploy.Environments.{
  Entry, Settings, Values, has_id, has_active_environment_with_slug, new_entry, create_environment,
  merged, is_new_slug, update_found, update_environment, deleted, delete_found, delete_environment,
}

abbrev same_id : Entry → Entry → Bool
same_id a b = a.id == b.id

abbrev clash : Entry → Entry → Bool
clash a b = (a.active && b.active) && a.slug == b.slug

-- Identities are unique, and the slugs of active environments are.
abbrev pub IsDistinct : Settings → Type 0
IsDistinct s = UniqueBy same_id s.environments × UniqueBy clash s.environments

-- a call of a method of the project
pub data Change : Type 0 where
  creation : String → Values → Change
  alteration : String → Values → Change
  deletion : String → Change

unfoldable pub after : Change → Settings → Settings
after (creation id values) s = (create_environment id values s).1
after (alteration i values) s = (update_environment i values s).1
after (deletion i) s = (delete_environment i s).1

-- An identity that is made is not taken, and a slug is not empty, which the form asks for.
abbrev pub is_allowed : Change → Settings → Bool
is_allowed (creation id values) s = not (any (has_id id) s.environments)
is_allowed (alteration i values) s = not (values.slug == "")
is_allowed (deletion i) s = true

unfoldable pub changed : List Change → Settings → Settings
changed [] s = s
changed (c ∷ changes) s = changed changes (after c s)

abbrev pub all_allowed : List Change → Settings → Bool
all_allowed [] s = true
all_allowed (c ∷ changes) s = is_allowed c s && all_allowed changes (after c s)

clash-symmetric : (a b : Entry) → clash a b ≡ clash b a
clash-symmetric a b = ground (arith, eq_iff a.slug b.slug, eq_iff b.slug a.slug)

same_id-symmetric : (a b : Entry) → same_id a b ≡ same_id b a
same_id-symmetric a b = ground (arith, eq_iff a.id b.id, eq_iff b.id a.id)

create_environment-IsDistinct :
    (id : String) (values : Values) (s : Settings)
    → not (any (has_id id) s.environments) ≡ true
    → IsDistinct s
    → IsDistinct (create_environment id values s).1
unfolding create_environment
create_environment-IsDistinct id values s fresh (ids, slugs) =
    elim (Bool-cases (has_active_environment_with_slug values.slug none s.environments)) [
      | inl taken ↦ rw taken (ids, slugs)
      | inr free ↦ rw free (
        UniqueBy-snoc same_id s.environments (new_entry id values)
            (any-narrower (has_id id) (λ x. same_id x (new_entry id values)) s.environments
              (λ x h. h) (ground (arith, fresh)))
            ids,
        UniqueBy-snoc clash s.environments (new_entry id values)
            (any-narrower _ (λ x. clash x (new_entry id values)) s.environments
              (λ x h. ground (arith, h)) free)
            slugs,
      )
    ]

-- A replaced entry of the same identity, whose slug clashes with no other.
replaced-IsDistinct :
    (i : String) (e : Entry) (environments : List Entry)
    → e.id ≡ i
    → any (λ (x : Entry). clash e x && not (has_id i x)) environments ≡ false
    → UniqueBy same_id environments × UniqueBy clash environments
    → UniqueBy same_id (upsert (has_id i) e environments)
      × UniqueBy clash (upsert (has_id i) e environments)
replaced-IsDistinct i e environments own apart (ids, slugs) =
    let one =
      UniqueBy-narrower same_id (λ x y. has_id i x && has_id i y) environments
        (λ x y h. ground (arith, h, eq_iff x.id i, eq_iff y.id i, eq_iff x.id y.id)) ids in
    (
      UniqueBy-upsert same_id (has_id i) e environments (λ x. same_id-symmetric x e) one
          (any-narrower (λ x. false) (λ x. same_id e x && not (has_id i x)) environments
            (λ x h. ground (arith, h, own, eq_iff e.id x.id, eq_iff x.id i))
            (any-none environments))
          ids,
      UniqueBy-upsert clash (has_id i) e environments (λ x. clash-symmetric x e) one apart slugs,
    )
  where
    any-none : (environments : List Entry) → any (λ (x : Entry). false) environments ≡ false
    any-none [] = refl
    any-none (x ∷ environments) = any-none environments

pub found_id :
    (i : String) (environments : List Entry) (e : Entry)
    → first (has_id i) environments ≡ some e
    → e.id ≡ i
found_id i [] e h = ground arith
found_id i (x ∷ environments) e h = ground (arith, h, eq_iff x.id i, found_id i environments e)

-- The new slug clashes with no other: it is the old one, or it was looked up.
merged-apart :
    (i : String) (values : Values) (e : Entry) (environments : List Entry)
    → first (has_id i) environments ≡ some e
    → not (values.slug == "") ≡ true
    → (is_new_slug values e && has_active_environment_with_slug values.slug (some i) environments)
      ≡ false
    → UniqueBy clash environments
    → any (λ (x : Entry). clash (merged values e) x && not (has_id i x)) environments ≡ false
merged-apart i values e environments found named free slugs =
    elim (Bool-cases (values.slug == e.slug)) [
      | inl same ↦
          any-narrower (λ x. clash e x && not (has_id i x)) _ environments
            (λ x h. ground (
              arith,
              h,
              same,
              eq_iff values.slug e.slug,
              eq_iff values.slug x.slug,
              eq_iff e.slug x.slug,
            ))
            (UniqueBy-first clash (has_id i) environments e clash-symmetric found slugs)
      | inr new ↦
          any-narrower (λ (x : Entry). (x.active && x.slug == values.slug) && not (i == x.id)) _
            environments
            (λ x h. ground (
              arith,
              h,
              eq_iff values.slug x.slug,
              eq_iff x.slug values.slug,
              eq_iff x.id i,
              eq_iff i x.id,
            ))
            (ground (arith, free, named, new))
    ]

update_found-IsDistinct :
    (i : String) (values : Values) (o : Option Entry) (s : Settings)
    → first (has_id i) s.environments ≡ o
    → not (values.slug == "") ≡ true
    → IsDistinct s
    → IsDistinct (update_found o i values s).1
update_found-IsDistinct i values none s found named h = h
update_found-IsDistinct i values (some e) s found named h =
    elim (Bool-cases
      (not (i == "prod" && (not (e.name == values.name) || not (e.slug == values.slug))))) [
        | inr refused ↦ rw refused h
        | inl open_ ↦
            elim (Bool-cases (
              is_new_slug values e
              && has_active_environment_with_slug values.slug (some i) s.environments)) [
                | inl taken ↦ rw (open_, taken) h
                | inr free ↦
                    rw (open_, free)
                      (replaced-IsDistinct i (merged values e) s.environments
                        (found_id i s.environments e found)
                        (merged-apart i values e s.environments found named free h.1) h)
              ]
      ]

delete_found-IsDistinct :
    (i : String) (o : Option Entry) (s : Settings)
    → first (has_id i) s.environments ≡ o
    → IsDistinct s
    → IsDistinct (delete_found o i s).1
delete_found-IsDistinct i none s found h = h
delete_found-IsDistinct i (some e) s found h =
    replaced-IsDistinct i (deleted e) s.environments (found_id i s.environments e found)
      (any-narrower (λ x. clash e x && not (has_id i x))
        (λ x. clash (deleted e) x && not (has_id i x)) s.environments (λ x k. ground (arith, k))
        (UniqueBy-first clash (has_id i) s.environments e clash-symmetric found h.1))
      h

delete_environment-IsDistinct :
    (i : String) (s : Settings) → IsDistinct s → IsDistinct (delete_environment i s).1
unfolding delete_environment
delete_environment-IsDistinct i s h = elim (Bool-cases (i == "")) [
  | inl e ↦ rw e h
  | inr e ↦ elim (Bool-cases (i == "prod")) [
    | inl prod ↦ rw (e, prod) h
    | inr other ↦
        rw (e, other) (delete_found-IsDistinct i (first (has_id i) s.environments) s refl h)
  ]
]

after-IsDistinct :
    (c : Change) (s : Settings) → is_allowed c s ≡ true → IsDistinct s → IsDistinct (after c s)
unfolding after update_environment delete_environment
after-IsDistinct (creation id values) s allowed h =
    create_environment-IsDistinct id values s allowed h
after-IsDistinct (alteration i values) s allowed h =
    update_found-IsDistinct i values (first (has_id i) s.environments) s refl allowed h
after-IsDistinct (deletion i) s allowed h = delete_environment-IsDistinct i s h

-- If identities are unique and no two active environments have one slug, any sequence of creations,
-- alterations and deletions, those that raise included, keeps it so; every creation makes an
-- identity that is not taken then, and no alteration gives an empty slug.
pub changed-IsDistinct :
    (changes : List Change) (s : Settings)
    → all_allowed changes s ≡ true
    → IsDistinct s
    → IsDistinct (changed changes s)
unfolding changed
changed-IsDistinct [] s allowed h = h
changed-IsDistinct (c ∷ changes) s allowed h =
    changed-IsDistinct changes (after c s) (ground (arith, allowed))
      (after-IsDistinct c s (ground (arith, allowed)) h)

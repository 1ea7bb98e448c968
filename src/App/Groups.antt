-- ===== src/App/Groups.antt =====
-- environment.py: grouping branches never misses a key.
use layerrail_deploy.Prelude.{
  ◌≡◌, refl, String, ◌==◌, eq_refl, true, some, List, [], ◌∷◌, arith, Bool-cases, inl, inr, All,
}
use layerrail_deploy.App.Branches.{
  Environment, matches_pattern, first_matching, get_environment_for_branch, Groups, append_to,
  has_key, with_key, empty_groups, slug_of, slug_for, group_all, group_branches_by_environment,
}

has_key-with_key : (s : String) (g : Groups) → has_key s (with_key s g) ≡ true
has_key-with_key s [] = rw (eq_refl s) refl
has_key-with_key s ((k, l) ∷ g) = ground (arith, has_key-with_key s g)

with_key-keeps : (s t : String) (g : Groups) → has_key t g ≡ true → has_key t (with_key s g) ≡ true
with_key-keeps s t [] h = ground arith
with_key-keeps s t ((k, l) ∷ g) h = ground (arith, with_key-keeps s t g)

append_to-keeps :
    (s t branch : String) (g : Groups)
    → has_key t g ≡ true
    → has_key t (append_to s branch g) ≡ true
append_to-keeps s t branch [] h = h
append_to-keeps s t branch ((k, l) ∷ g) h = ground (arith, append_to-keeps s t branch g)

-- every environment, and the branches without one, have a list
abbrev pub Covers : List Environment → Groups → Type 0
Covers environments g =
    All (λ e. has_key e.slug g ≡ true) environments × (has_key "unmatched" g ≡ true)

All-map :
    (g h : Groups) (environments : List Environment)
    → ((t : String) → has_key t g ≡ true → has_key t h ≡ true)
    → All (λ e. has_key e.slug g ≡ true) environments
    → All (λ e. has_key e.slug h ≡ true) environments
All-map g h [] keeps all = tt
All-map g h (e ∷ environments) keeps (here, rest) =
    (keeps e.slug here, All-map g h environments keeps rest)

empty_groups-keeps :
    (environments : List Environment) (t : String) (g : Groups)
    → has_key t g ≡ true
    → has_key t (empty_groups environments g) ≡ true
empty_groups-keeps [] t g h = h
empty_groups-keeps (e ∷ environments) t g h =
    empty_groups-keeps environments t (with_key e.slug g) (with_key-keeps e.slug t g h)

empty_groups-All :
    (environments : List Environment) (g : Groups)
    → All (λ e. has_key e.slug (empty_groups environments g) ≡ true) environments
empty_groups-All [] g = tt
empty_groups-All (e ∷ environments) g = (
  empty_groups-keeps environments e.slug (with_key e.slug g) (has_key-with_key e.slug g),
  empty_groups-All environments (with_key e.slug g),
)

first_matching-key :
    (branch : String) (environments : List Environment) (g : Groups)
    → Covers environments g
    → has_key (slug_of (first_matching branch environments)) g ≡ true
unfolding first_matching
first_matching-key branch [] g covered = covered.1
first_matching-key branch (e ∷ environments) g covered =
    elim (Bool-cases (matches_pattern e.branch branch)) [
      | inl found ↦ rw found covered.0.0
      | inr other ↦ rw other (first_matching-key branch environments g (covered.0.1, covered.1))
    ]

module _ (production : Environment) (environments : List Environment) where
  abbrev all : List Environment
  all = production ∷ environments

  slug_for-key :
      (branch : String) (g : Groups)
      → Covers all g
      → (slug : String) × (slug_for branch all ≡ some slug) × (has_key slug g ≡ true)
  unfolding get_environment_for_branch
  slug_for-key branch g covered = elim (Bool-cases (production.branch == branch)) [
    | inl same ↦ (production.slug, rw same refl, covered.0.0)
    | inr other ↦ (
      slug_of (first_matching branch environments),
      rw other refl,
      first_matching-key branch environments g (covered.0.1, covered.1),
    )
  ]

  group_all-returns :
      (branches : List String) (g : Groups)
      → Covers all g
      → (h : Groups) × (group_all all branches (some g) ≡ some h) × Covers all h
  unfolding group_all
  group_all-returns [] g covered = (g, refl, covered)
  group_all-returns (branch ∷ branches) g covered =
      let (slug, found, key) = slug_for-key branch g covered in
      rw (found, key)
        (group_all-returns branches (append_to slug branch g) (
          All-map g (append_to slug branch g) all (λ t. append_to-keeps slug t branch g) covered.0,
          append_to-keeps slug "unmatched" branch g covered.1,
        ))

  -- For a project with an environment the branches are grouped, whatever they are: no key is
  -- missed, and every environment and the rest have a list.
  group_branches_returns :
      (branches : List String)
      → (groups : Groups) × (group_branches_by_environment all branches ≡ some groups)
        × Covers all groups
  unfolding group_branches_by_environment
  group_branches_returns branches =
      let start = with_key "unmatched" (empty_groups all []) in
      group_all-returns branches start (
        All-map (empty_groups all []) start all
            (λ t. with_key-keeps "unmatched" t (empty_groups all [])) (empty_groups-All all []),
        has_key-with_key "unmatched" (empty_groups all []),
      )

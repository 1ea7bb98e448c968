-- ===== src/App/Branches.antt =====
-- environment.py: which environment of a project a branch belongs to.
use layerrail_deploy.Prelude.{
  ◌≡◌, refl, String, ◌==◌, Bool, true, false, ◌&&◌, Option, none, some, List, [], ◌∷◌, ◌++◌,
  if◌then◌else◌, starts_with, ends_with, partition_on, drop_chars, All, is_some,
}

-- the two keys of an environment that are read
pub record Environment : Type 0 where
  pub slug : String
  pub branch : String

-- `pattern[:-1]`
abbrev pub drop_last : String → String
drop_last String.[] = ""
drop_last (String.◌∷◌ c String.[]) = ""
drop_last (String.◌∷◌ c s) = String.◌∷◌ c (drop_last s)

-- `branch.startswith(prefix) and branch.endswith(suffix)` for `pattern.split("*", 1)`
abbrev pub between_star : Option (String × String) → String → Bool
between_star none branch = false
between_star (some (prefix, suffix)) branch = starts_with branch prefix && ends_with branch suffix

-- the part of the loop's body under `if '*' in pattern`
abbrev pub matches_star : String → String → Bool
matches_star pattern branch =
    if starts_with pattern "*"
    then ends_with branch (drop_chars 1 pattern)
    else if ends_with pattern "*"
    then starts_with branch (drop_last pattern)
    else between_star (partition_on b'*' pattern) branch

-- Does the loop return this environment? Without a star in the pattern, `between_star` is false.
abbrev pub matches_pattern : String → String → Bool
matches_pattern pattern branch =
    if pattern == branch
    then true
    else if is_some (partition_on b'*' pattern)
    then matches_star pattern branch
    else false

-- the loop over `environments[1:]`
unfoldable pub first_matching : String → List Environment → Option Environment
first_matching branch [] = none
first_matching branch (environment ∷ environments) =
    if matches_pattern environment.branch branch
    then some environment
    else first_matching branch environments

-- `none` of the outer option is the `IndexError` of an empty list.
unfoldable pub get_environment_for_branch : String → List Environment → Option (Option Environment)
get_environment_for_branch branch [] = none
get_environment_for_branch branch (production ∷ environments) =
    some
      (if production.branch == branch then some production else first_matching branch environments)

-- a dictionary of lists, in the order of its keys
abbrev pub Groups : Type 0
Groups = List (String × List String)

-- `result[slug].append(branch)`: a key that is missing is a `KeyError`.
abbrev pub append_to : String → String → Groups → Groups
append_to slug branch [] = []
append_to slug branch ((key, l) ∷ groups) =
    if key == slug
    then (key, l ++ branch ∷ []) ∷ groups
    else (key, l) ∷ append_to slug branch groups

abbrev pub has_key : String → Groups → Bool
has_key slug [] = false
has_key slug ((key, l) ∷ groups) = if key == slug then true else has_key slug groups

-- `result[slug] = []`, which empties a list that is there
abbrev pub with_key : String → Groups → Groups
with_key slug [] = (slug, []) ∷ []
with_key slug ((key, l) ∷ groups) =
    if key == slug then (key, []) ∷ groups else (key, l) ∷ with_key slug groups

abbrev pub empty_groups : List Environment → Groups → Groups
empty_groups [] groups = groups
empty_groups (environment ∷ environments) groups =
    empty_groups environments (with_key environment.slug groups)

abbrev pub slug_of : Option Environment → String
slug_of none = "unmatched"
slug_of (some environment) = environment.slug

abbrev pub slug_for : String → List Environment → Option String
slug_for branch environments = elim (get_environment_for_branch branch environments) [
  | none ↦ none
  | some found ↦ some (slug_of found)
]

abbrev pub add_branch : Option String → String → Option Groups → Option Groups
add_branch none branch groups = none
add_branch (some slug) branch none = none
add_branch (some slug) branch (some groups) =
    if has_key slug groups then some (append_to slug branch groups) else none

-- the loop over the branches
unfoldable pub group_all : List Environment → List String → Option Groups → Option Groups
group_all environments [] groups = groups
group_all environments (branch ∷ branches) groups =
    group_all environments branches (add_branch (slug_for branch environments) branch groups)

unfoldable pub group_branches_by_environment : List Environment → List String → Option Groups
group_branches_by_environment environments branches =
    group_all environments branches (some (with_key "unmatched" (empty_groups environments [])))

first_matching-append :
    (branch : String) (before after : List Environment) (environment : Environment)
    → All (λ e. matches_pattern e.branch branch ≡ false) before
    → matches_pattern environment.branch branch ≡ true
    → first_matching branch (before ++ environment ∷ after) ≡ some environment
unfolding first_matching
first_matching-append branch [] after environment others here = rw here refl
first_matching-append branch (e ∷ before) after environment (other, others) here =
    rw other (first_matching-append branch before after environment others here)

-- A branch that is not the production branch belongs to the first of the other environments, in
-- their order, whose pattern it matches.
get_environment_first :
    (branch : String) (production : Environment) (before after : List Environment)
    (environment : Environment)
    → (production.branch == branch) ≡ false
    → All (λ e. matches_pattern e.branch branch ≡ false) before
    → matches_pattern environment.branch branch ≡ true
    → get_environment_for_branch branch (production ∷ before ++ environment ∷ after)
      ≡ some (some environment)
unfolding get_environment_for_branch
get_environment_first branch production before after environment preview others here =
    rw (preview, first_matching-append branch before after environment others here) refl

-- ===== src/Deploy/Variables/Precedence.antt =====
-- Which value of a variable counts.
use layerrail_deploy.Prelude.{
  String, ◌≡◌, refl, ◌∙◌, ap, ◌==◌, eq_iff, Bool, true, ◌&&◌, Option, none, some, List, [], ◌∷◌,
  ◌++◌, if◌then◌else◌, text_is, arith, Bool-cases, inl, inr,
}
use layerrail_deploy.Deploy.Model.{Project}
use layerrail_deploy.Deploy.Variables.{
  Variable, is_general, general, without_key, override, get_env_vars, Dict, lookup, set_item,
  setdefault, dict_of, Settings, Release, Entries, runtime_vars, set_unless_empty, set_defaults,
  get_runtime_env_vars,
}

abbrev pub or_else : Option String → Option String → Option String
or_else none o = o
or_else (some v) o = some v

-- the value of the last variable with the key, of those that `p` picks
abbrev pub last_value : (Variable → Bool) → String → List Variable → Option String
last_value p k [] = none
last_value p k (v ∷ vars) =
    or_else (last_value p k vars) (if p v && v.key == k then some v.value else none)

abbrev pub every : Variable → Bool
every v = true

abbrev nonempty_value : Option String → Option String
nonempty_value none = none
nonempty_value (some v) = if v == "" then none else some v

-- the first value of the key that is there and is not empty
abbrev pub first_value : String → Entries → Option String
first_value k [] = none
first_value k ((j, o) ∷ entries) =
    or_else (if j == k then nonempty_value o else none) (first_value k entries)

lookup-set_item :
    (k j v : String) (d : Dict)
    → lookup j (set_item k v d) ≡ (if k == j then some v else lookup j d)
lookup-set_item k j v [] = refl
lookup-set_item k j v ((i, w) ∷ d) =
    ground (arith, eq_iff i k, eq_iff i j, eq_iff k j, lookup-set_item k j v d)

lookup-setdefault :
    (k j v : String) (d : Dict)
    → lookup j (setdefault k v d) ≡ or_else (lookup j d) (if k == j then some v else none)
lookup-setdefault k j v [] = ground arith
lookup-setdefault k j v ((i, w) ∷ d) =
    ground (arith, eq_iff i k, eq_iff i j, eq_iff k j, lookup-setdefault k j v d)

lookup-dict_of :
    (k : String) (vars : List Variable) (d : Dict)
    → lookup k (dict_of vars d) ≡ or_else (last_value every k vars) (lookup k d)
lookup-dict_of k [] d = refl
lookup-dict_of k (v ∷ vars) d =
    ground
      (arith, lookup-dict_of k vars (set_item v.key v.value d), lookup-set_item v.key k v.value d)

lookup-set_unless_empty :
    (k j : String) (o : Option String) (d : Dict)
    → lookup j (set_unless_empty k o d)
      ≡ or_else (lookup j d) (if k == j then nonempty_value o else none)
lookup-set_unless_empty k j none d = ground arith
lookup-set_unless_empty k j (some v) d = ground (arith, lookup-setdefault k j v d)

lookup-set_defaults :
    (k : String) (entries : Entries) (d : Dict)
    → lookup k (set_defaults entries d) ≡ or_else (lookup k d) (first_value k entries)
lookup-set_defaults k [] d = ground arith
lookup-set_defaults k ((j, o) ∷ entries) d =
    ground (
      arith,
      lookup-set_defaults k entries (set_unless_empty j o d),
      lookup-set_unless_empty j k o d,
    )

-- A variable of a deployment has the last value that its user has given to it, which may be empty,
-- and only without one the first value of the platform that is not empty.
pub lookup-get_runtime_env_vars :
    (lower : String → String) (project : Project) (release : Release) (settings : Settings)
    (k : String)
    → lookup k (get_runtime_env_vars lower project release settings)
      ≡ or_else
          (last_value every k release.env_vars)
          (first_value k (runtime_vars lower project release settings))
unfolding get_runtime_env_vars
lookup-get_runtime_env_vars lower project release settings k =
    lookup-set_defaults k (runtime_vars lower project release settings)
      (dict_of release.env_vars [])
    ∙ ap (λ o. or_else o (first_value k (runtime_vars lower project release settings)))
        (lookup-dict_of k release.env_vars [] ∙ or_else-none (last_value every k release.env_vars))
  where
    or_else-none : (o : Option String) → or_else o none ≡ o
    or_else-none none = refl
    or_else-none (some v) = refl

last_value-without_key :
    (k j : String) (vars : List Variable)
    → last_value every j (without_key k vars) ≡ (if k == j then none else last_value every j vars)
last_value-without_key k j [] = ground arith
last_value-without_key k j (v ∷ vars) =
    ground (arith, eq_iff v.key k, eq_iff v.key j, eq_iff k j, last_value-without_key k j vars)

last_value-snoc :
    (k : String) (vars : List Variable) (v : Variable)
    → last_value every k (vars ++ v ∷ [])
      ≡ (if v.key == k then some v.value else last_value every k vars)
last_value-snoc k [] v = refl
last_value-snoc k (w ∷ vars) v = ground (arith, last_value-snoc k vars v)

abbrev pub for_environment : String → Variable → Bool
for_environment environment v = text_is v.environment environment

abbrev pub generally : Variable → Bool
generally v = is_general v.environment

last_value-override :
    (environment k : String) (vars result : List Variable)
    → last_value every k (override environment vars result)
      ≡ or_else (last_value (for_environment environment) k vars) (last_value every k result)
last_value-override environment k [] result = refl
last_value-override environment k (v ∷ vars) result =
    elim (Bool-cases (text_is v.environment environment)) [
      | inr e ↦ rw e (ground (arith, last_value-override environment k vars result))
      | inl e ↦ rw e (
          ground (
            arith,
            last_value-override environment k vars (without_key v.key result ++ v ∷ []),
            last_value-snoc k (without_key v.key result) v,
            last_value-without_key v.key k result,
          ))
    ]

last_value-general :
    (k : String) (vars : List Variable)
    → last_value every k (general vars) ≡ last_value generally k vars
last_value-general k [] = refl
last_value-general k (v ∷ vars) = ground (arith, last_value-general k vars)

-- A variable of an environment has the last value that is given to it for that environment, and
-- only without one the last value that is given for all environments.
pub last_value-get_env_vars :
    (vars : List Variable) (environment k : String)
    → last_value every k (get_env_vars vars environment)
      ≡ or_else (last_value (for_environment environment) k vars) (last_value generally k vars)
unfolding get_env_vars
last_value-get_env_vars vars environment k =
    last_value-override environment k vars (general vars)
    ∙ ap (or_else (last_value (for_environment environment) k vars)) (last_value-general k vars)

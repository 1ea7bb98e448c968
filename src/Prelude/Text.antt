-- ===== src/Prelude/Text.antt =====
-- Python's text operations, over the native `String`, a list of characters.
use Prim.Native.Nat.{ℕ, zero, suc, ◌≤◌}
use Prim.Native.Char.{Char, code}
use Prim.Native.String.{String, [], ◌∷◌, ◌++◌}
use native.Mathlib.Omega.{arith}
use mathlib.Core.Bool.{Bool, true, false, ◌||◌, ◌&&◌}
use mathlib.Core.List.{List}
use mathlib.Core.Option.{Option, none, some}
use text.Mathlib.Text.{◌==◌}
use layerrail_deploy.Prelude.Tests.{nat_eq, if◌then◌else◌}

-- `s.replace(c, "")` for one character `c`
unfoldable pub remove_char : ℕ → String → String
remove_char c [] = []
remove_char c (d ∷ s) = let rest = remove_char c s in if nat_eq (code d) c then rest else d ∷ rest

-- `s[:n]`
unfoldable pub first_chars : ℕ → String → String
first_chars zero s = []
first_chars (suc n) [] = []
first_chars (suc n) (d ∷ s) = d ∷ first_chars n s

infixr 65 ◌⊕◌
abbrev pub ◌⊕◌ : String → String → String
s ⊕ t = s ++ t

-- `s in {…}` for a set of texts
abbrev pub one_of : String → List String → Bool
one_of s List.[] = false
one_of s (List.◌∷◌ t ts) = s == t || one_of s ts

-- `o == t` for a value that may be `None`
abbrev pub text_is : Option String → String → Bool
text_is none t = false
text_is (some s) t = s == t

-- the length of a text
abbrev pub chars : String → ℕ
chars [] = 0
chars (c ∷ s) = suc (chars s)

-- `s.startswith(t)`
abbrev pub starts_with : String → String → Bool
starts_with s [] = true
starts_with [] (c ∷ t) = false
starts_with (d ∷ s) (c ∷ t) = nat_eq (code d) (code c) && starts_with s t

pub chars-first_chars : (n : ℕ) (s : String) → chars (first_chars n s) ≤ n
unfolding first_chars
chars-first_chars zero s = omega arith
chars-first_chars (suc n) [] = omega arith
chars-first_chars (suc n) (c ∷ s) = ground (arith, chars-first_chars n s)

-- `s[n:]`
abbrev pub drop_chars : ℕ → String → String
drop_chars zero s = s
drop_chars (suc n) [] = []
drop_chars (suc n) (d ∷ s) = drop_chars n s

-- `s.split(c)` for one character `c`
abbrev pub with_first : Char → List String → List String
with_first c List.[] = List.◌∷◌ (c ∷ []) List.[]
with_first c (List.◌∷◌ s l) = List.◌∷◌ (c ∷ s) l

abbrev pub split_on : ℕ → String → List String
split_on c [] = List.◌∷◌ [] List.[]
split_on c (d ∷ s) =
    let rest = split_on c s in if nat_eq (code d) c then List.◌∷◌ [] rest else with_first d rest

-- `s.partition(c)`, if `c` is there
abbrev pub before_rest : Char → Option (String × String) → Option (String × String)
before_rest c none = none
before_rest c (some (a, b)) = some (c ∷ a, b)

abbrev pub partition_on : ℕ → String → Option (String × String)
partition_on c [] = none
partition_on c (d ∷ s) =
    let rest = partition_on c s in if nat_eq (code d) c then some ([], s) else before_rest d rest

-- `s.endswith(t)`
abbrev pub ends_with : String → String → Bool
ends_with [] t = [] == t
ends_with (c ∷ s) t = c ∷ s == t || ends_with s t

-- `t in s`
abbrev pub contains : String → String → Bool
contains t [] = starts_with [] t
contains t (c ∷ s) = starts_with (c ∷ s) t || contains t s

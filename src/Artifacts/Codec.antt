-- ===== src/Artifacts/Codec.antt =====
-- A text form of JSON that is read back, to show that the gateway can rely on one. A character of
-- a text has a mark behind it, and the form is read from its end.
use Prim.Native.Char.{Char, code}
use Prim.Native.String.{String, [], ◌∷◌}
use mathlib.Core.List.{List}
use layerrail_deploy.Prelude.{
  ℕ, zero, suc, ◌≡◌, refl, Bool, true, false, Option, none, some, nat_eq, if◌then◌else◌,
}
use layerrail_deploy.Json.{
  Json, null, bool, num, text, array, object, Items, nil, cons, Fields, end, field,
}

-- what has been read: whether the next character belongs to a text, and the values
pub data Reading : Type 0 where
  reading : Bool → List Json → Reading

write_nat : ℕ → String → String
write_nat zero rest = "#" ∷ rest
write_nat (suc n) rest = "i" ∷ write_nat n rest

write_text : String → String → String
write_text [] rest = "\"" ∷ rest
write_text (c ∷ s) rest = c ∷ "c" ∷ write_text s rest

mutual
  write : Json → String → String
  write null rest = "n" ∷ rest
  write (bool true) rest = "t" ∷ rest
  write (bool false) rest = "f" ∷ rest
  write (num n) rest = write_nat n rest
  write (text s) rest = write_text s rest
  write (array l) rest = write_items l rest
  write (object d) rest = write_fields d rest

  write_items : Items → String → String
  write_items nil rest = "]" ∷ rest
  write_items (cons v l) rest = "," ∷ write v (write_items l rest)

  write_fields : Fields → String → String
  write_fields end rest = "}" ∷ rest
  write_fields (field k v d) rest = ":" ∷ write_text k (write v (write_fields d rest))

abbrev with_next : List Json → List Json
with_next (List.◌∷◌ (num n) l) = List.◌∷◌ (num (suc n)) l
with_next l = l

abbrev with_char : Char → List Json → List Json
with_char c (List.◌∷◌ (text s) l) = List.◌∷◌ (text (c ∷ s)) l
with_char c l = l

abbrev with_item : List Json → List Json
with_item (List.◌∷◌ v (List.◌∷◌ (array l) rest)) = List.◌∷◌ (array (cons v l)) rest
with_item l = l

abbrev with_field : List Json → List Json
with_field (List.◌∷◌ (text k) (List.◌∷◌ v (List.◌∷◌ (object d) rest))) =
    List.◌∷◌ (object (field k v d)) rest
with_field l = l

abbrev token : ℕ → List Json → Reading
token n l =
    if nat_eq n b'c'
    then reading true l
    else reading false (
        if nat_eq n b'n'
        then List.◌∷◌ null l
        else if nat_eq n b't'
        then List.◌∷◌ (bool true) l
        else if nat_eq n b'f'
        then List.◌∷◌ (bool false) l
        else if nat_eq n b'#'
        then List.◌∷◌ (num 0) l
        else if nat_eq n b'i'
        then with_next l
        else if nat_eq n b'"'
        then List.◌∷◌ (text "") l
        else if nat_eq n b']'
        then List.◌∷◌ (array nil) l
        else if nat_eq n b','
        then with_item l
        else if nat_eq n b'}'
        then List.◌∷◌ (object end) l
        else if nat_eq n b':'
        then with_field l
        else l)

abbrev step : Char → Reading → Reading
step c (reading true l) = reading false (with_char c l)
step c (reading false l) = token (code c) l

read : String → Reading
read [] = reading false List.[]
read (c ∷ s) = step c (read s)

read-nat :
    (n : ℕ) (rest : String) (l : List Json)
    → read rest ≡ reading false l
    → read (write_nat n rest) ≡ reading false (List.◌∷◌ (num n) l)
unfolding read write_nat
read-nat zero rest l h = rw h refl
read-nat (suc n) rest l h = rw (read-nat n rest l h) refl

read-text :
    (s rest : String) (l : List Json)
    → read rest ≡ reading false l
    → read (write_text s rest) ≡ reading false (List.◌∷◌ (text s) l)
unfolding read write_text
read-text [] rest l h = rw h refl
read-text (c ∷ s) rest l h = rw (read-text s rest l h) refl

mutual
  unfolding read write write_items write_fields

  read-write :
      (v : Json) (rest : String) (l : List Json)
      → read rest ≡ reading false l
      → read (write v rest) ≡ reading false (List.◌∷◌ v l)
  read-write null rest l h = rw h refl
  read-write (bool true) rest l h = rw h refl
  read-write (bool false) rest l h = rw h refl
  read-write (num n) rest l h = read-nat n rest l h
  read-write (text s) rest l h = read-text s rest l h
  read-write (array i) rest l h = read-items i rest l h
  read-write (object d) rest l h = read-fields d rest l h

  read-items :
      (i : Items) (rest : String) (l : List Json)
      → read rest ≡ reading false l
      → read (write_items i rest) ≡ reading false (List.◌∷◌ (array i) l)
  read-items nil rest l h = rw h refl
  read-items (cons v i) rest l h =
      rw (read-write v (write_items i rest) (List.◌∷◌ (array i) l) (read-items i rest l h)) refl

  read-fields :
      (d : Fields) (rest : String) (l : List Json)
      → read rest ≡ reading false l
      → read (write_fields d rest) ≡ reading false (List.◌∷◌ (object d) l)
  read-fields end rest l h = rw h refl
  read-fields (field k v d) rest l h =
      rw
        (read-text k (write v (write_fields d rest)) (List.◌∷◌ v (List.◌∷◌ (object d) l))
          (read-write v (write_fields d rest) (List.◌∷◌ (object d) l) (read-fields d rest l h)))
        refl

abbrev one_value : Reading → Option Json
one_value (reading false (List.◌∷◌ v List.[])) = some v
one_value r = none

unfoldable pub dumps : Fields → String
unfolding write write_nat write_text write_items write_fields
dumps d = write (object d) ""

unfoldable pub loads : String → Option Json
unfolding read
loads s = one_value (read s)

pub loads-dumps : (d : Fields) → loads (dumps d) ≡ some (object d)
unfolding loads dumps read
loads-dumps d = rw (read-write (object d) "" List.[] refl) refl

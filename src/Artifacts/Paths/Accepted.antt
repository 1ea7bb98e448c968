-- ===== src/Artifacts/Paths/Accepted.antt =====
-- A path that `_path` has accepted is accepted again, as it is.
use Prim.Native.String.{String, [], ◌∷◌}
use Prim.Native.Char.{Char}
use layerrail_deploy.Prelude.{◌≡◌, refl, Bool, true, false, arith}
use layerrail_deploy.Effect.{ok}
use layerrail_deploy.Artifacts.Paths.{strip_dots, path, all_chars, is_relative, is_plain, has_text}

strip_dots-again : (s : String) → strip_dots (strip_dots s) ≡ strip_dots s
unfolding strip_dots
strip_dots-again [] = refl
strip_dots-again (c ∷ []) = refl
strip_dots-again (c ∷ d ∷ s) = ground (arith, strip_dots-again s)

all_chars-strip_dots :
    (p : Char → Bool) (s : String) → all_chars p s ≡ true → all_chars p (strip_dots s) ≡ true
unfolding strip_dots
all_chars-strip_dots p [] h = h
all_chars-strip_dots p (c ∷ []) h = h
all_chars-strip_dots p (c ∷ d ∷ s) h = ground (arith, all_chars-strip_dots p s)

is_relative-has_text : (p : String) → is_relative p ≡ true → has_text p ≡ true
unfolding is_relative
is_relative-has_text p h = ground arith

-- What `_path` has accepted for a file is relative and plain, and is accepted again unchanged.
pub path-accepted :
    (value p : String) → path value false ≡ ok p → (is_relative p ≡ true) × (path p false ≡ ok p)
unfolding path
path-accepted value p h = ground (
  arith,
  strip_dots-again value,
  all_chars-strip_dots is_plain value,
  is_relative-has_text (strip_dots value),
)

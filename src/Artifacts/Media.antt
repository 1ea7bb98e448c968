-- ===== src/Artifacts/Media.antt =====
-- artifacts.py: how a file is served, `_media_type` and `_cache_control`.
use Prim.Native.Char.{code}
use Prim.Native.String.{String, [], ◌∷◌}
use mathlib.Core.List.{List}
use layerrail_deploy.Prelude.{
  ℕ, ◌+◌, Bool, true, false, ◌&&◌, ◌||◌, leb, nat_eq, if◌then◌else◌, chars, ends_with, split_on,
  with_first, ◌==◌, any, ◌≡◌, refl,
}
use layerrail_deploy.Artifacts.Paths.{all_chars, is_hex}

abbrev lowered : ℕ → ℕ
lowered n = if leb b'A' n && leb n b'Z' then n + 32 else n

-- `s.lower() == t` for a text `t` in ASCII
abbrev lowers_to : String → String → Bool
lowers_to [] [] = true
lowers_to (c ∷ s) (d ∷ t) = nat_eq (lowered (code c)) (code d) && lowers_to s t
lowers_to _ _ = false

-- `_MEDIA_TYPES`
abbrev media_types : List (String × String)
media_types =
    List.◌∷◌ (".css", "text/css; charset=utf-8")
      (List.◌∷◌ (".gif", "image/gif")
        (List.◌∷◌ (".html", "text/html; charset=utf-8")
          (List.◌∷◌ (".ico", "image/x-icon")
            (List.◌∷◌ (".jpeg", "image/jpeg")
              (List.◌∷◌ (".jpg", "image/jpeg")
                (List.◌∷◌ (".js", "application/javascript; charset=utf-8")
                  (List.◌∷◌ (".json", "application/json; charset=utf-8")
                    (List.◌∷◌ (".map", "application/json; charset=utf-8")
                      (List.◌∷◌ (".png", "image/png")
                        (List.◌∷◌ (".svg", "image/svg+xml")
                          (List.◌∷◌ (".txt", "text/plain; charset=utf-8")
                            (List.◌∷◌ (".wasm", "application/wasm")
                              (List.◌∷◌ (".webmanifest", "application/manifest+json")
                                (List.◌∷◌ (".webp", "image/webp")
                                  (List.◌∷◌ (".woff", "font/woff")
                                    (List.◌∷◌ (".woff2", "font/woff2")
                                      (List.◌∷◌ (".xml", "application/xml; charset=utf-8")
                                        List.[])))))))))))))))))

abbrev type_in : String → List (String × String) → String
type_in suffix List.[] = "application/octet-stream"
type_in suffix (List.◌∷◌ (ending, media) rest) =
    if lowers_to suffix ending then media else type_in suffix rest

-- `PurePosixPath(path).name`, for a path that `_path` accepts
abbrev last_part : List String → String
last_part List.[] = []
last_part (List.◌∷◌ s List.[]) = s
last_part (List.◌∷◌ s (List.◌∷◌ t l)) = last_part (List.◌∷◌ t l)

abbrev name_of : String → String
name_of path = last_part (split_on b'/' path)

-- from the last dot on, which is neither the first nor the last character
abbrev from_dot : String → String
from_dot [] = []
from_dot (c ∷ s) =
    let rest = from_dot s in if nat_eq (chars rest) 0 && nat_eq (code c) b'.' then c ∷ s else rest

abbrev suffix_in : String → String → String
suffix_in name found =
    if leb (chars found) 1 || nat_eq (chars found) (chars name) then "" else found

-- `PurePosixPath(path).suffix`
abbrev suffix_of : String → String
suffix_of path = suffix_in (name_of path) (from_dot (name_of path))

unfoldable pub media_type : String → String
media_type path = type_in (suffix_of path) media_types

-- `_HASHED_ASSET.search`: between two ends or separators, 8 to 64 hexadecimal digits
abbrev hashed_runs : String → List String
hashed_runs [] = List.◌∷◌ [] List.[]
hashed_runs (c ∷ s) =
    let rest = hashed_runs s in
    if nat_eq (code c) b'.' || nat_eq (code c) b'_' || nat_eq (code c) b'-'
    then List.◌∷◌ [] rest
    else with_first c rest

abbrev is_hash : String → Bool
is_hash s = leb 8 (chars s) && leb (chars s) 64 && all_chars is_hex s

unfoldable pub cache_control : String → String
cache_control path =
    if path == "index.html" || ends_with path "/index.html"
    then "no-cache, must-revalidate"
    else if any is_hash (hashed_runs (name_of path))
    then "public, max-age=31536000, immutable"
    else "public, max-age=300"

hashed : cache_control "assets/app.0123abcd.js" ≡ "public, max-age=31536000, immutable"
unfolding cache_control
hashed = refl

typed : media_type "assets/app.0123abcd.JS" ≡ "application/javascript; charset=utf-8"
unfolding media_type
typed = refl

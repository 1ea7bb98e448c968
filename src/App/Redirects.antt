-- ===== src/App/Redirects.antt =====
-- urls.py: where a request may be redirected to. `urllib.parse` is a parameter.
use Prim.Native.Char.{Char, code}
use text.Mathlib.TextLemmas.{cons-append, nil-append}
use layerrail_deploy.Prelude.{
  ◌≡◌, refl, sym, ap, ◌∙◌, eq_iff, String, ◌⊕◌, ◌==◌, Bool, true, false, not, ◌&&◌, ◌||◌, Option,
  none, some, [], ◌∷◌, if◌then◌else◌, nat_eq, ltb, one_of, starts_with, arith, Bool-cases, inl, inr,
}

-- the parts of `urlparse(…)`
pub record ParsedUrl : Type 0 where
  pub scheme : String
  pub netloc : String
  pub path : String
  pub query : String
  pub fragment : String

-- `str.strip`, `unquote`, `urlparse` and `str.isspace` of a character
pub record UrlLibrary : Type 0 where
  pub strip : String → String
  pub unquote : String → String
  pub urlparse : String → ParsedUrl
  pub is_space : Char → Bool

never_some : {A : Type 0} (a : A) → none ≡ some a → ⊥
never_some a h = ground arith

module _ (library : UrlLibrary) where
  abbrev pub is_bad : Char → Bool
  is_bad c = library.is_space c || nat_eq (code c) b'\\' || ltb (code c) 32 || nat_eq (code c) 127

  -- the three tests of the loop over `(raw, decoded)`
  abbrev pub is_clean : String → Bool
  is_clean String.[] = true
  is_clean (String.◌∷◌ c s) = not (is_bad c) && is_clean s

  abbrev pub is_local : String → Bool
  is_local s = starts_with s "/" && not (starts_with s "//")

  abbrev pub with_part : String → String → String → String
  with_part path mark part = if part == "" then path else path ⊕ mark ⊕ part

  -- the branch of a URL with a scheme or a host
  abbrev pub same_origin : Option String → Bool → ParsedUrl → Option String
  same_origin none allow_absolute parsed = none
  same_origin (some host) allow_absolute parsed =
      if allow_absolute
        && one_of parsed.scheme ("http" ∷ "https" ∷ [])
        && parsed.netloc == host
        && starts_with parsed.path "/"
      then some (with_part (with_part parsed.path "?" parsed.query) "#" parsed.fragment)
      else none

  abbrev pub is_absolute : ParsedUrl → Bool
  is_absolute parsed = not (parsed.scheme == "") || not (parsed.netloc == "")

  -- `_validated_redirect_target` of a candidate that is given; `host` is the request's, if any.
  abbrev pub validated : Option String → String → Bool → Option String
  validated host candidate allow_absolute =
      let raw = library.strip candidate in
      let decoded = library.unquote raw in
      if candidate == "" || raw == "" || not (is_clean raw && is_clean decoded)
      then none
      else if is_absolute (library.urlparse decoded)
      then same_origin host allow_absolute (library.urlparse decoded)
      else if is_local raw && is_local decoded
      then some raw
      else none

  unfoldable pub validated_redirect_target : Option String → Option String → Bool → Option String
  validated_redirect_target host none allow_absolute = none
  validated_redirect_target host (some candidate) allow_absolute =
      validated host candidate allow_absolute

  abbrev pub or_target : Option String → Option String → Option String
  or_target none other = other
  or_target (some target) other = some target

  abbrev pub or_default : Option String → String → String
  or_default none default = default
  or_default (some target) default = target

  unfoldable pub safe_redirect :
      Option String → Option String → Option String → String → Bool → String
  safe_redirect host next_value referer default prefer_next =
      let next = validated_redirect_target host next_value false in
      let previous = validated_redirect_target host referer true in
      or_default
        (if prefer_next then or_target next (or_target previous next) else or_target previous next)
        default

  same_origin_relative :
      (host : Option String) (parsed : ParsedUrl) → same_origin host false parsed ≡ none
  same_origin_relative none parsed = refl
  same_origin_relative (some host) parsed = refl

  -- A target that is given without leave for absolute ones is a path on this host: it begins with
  -- one slash, holds no space, backslash or control character, and is the candidate, stripped.
  pub validated_relative :
      (host : Option String) (candidate target : String)
      → validated_redirect_target host (some candidate) false ≡ some target
      → (is_local target ≡ true) × (is_clean target ≡ true) × (target ≡ library.strip candidate)
  unfolding validated_redirect_target
  validated_relative host candidate target h =
      let raw = library.strip candidate in
      let decoded = library.unquote raw in
      elim (Bool-cases (candidate == "" || raw == "" || not (is_clean raw && is_clean decoded))) [
        | inl refused ↦ absurd (never_some target (rw refused at h))
        | inr open_target ↦ elim (Bool-cases (is_absolute (library.urlparse decoded))) [
          | inl absolute ↦ absurd (
              never_some target (
                rw (same_origin_relative host (library.urlparse decoded)) at
                  (rw (open_target, absolute) at h)))
          | inr relative ↦ elim (Bool-cases (is_local raw && is_local decoded)) [
            | inl local ↦ ground (arith, rw (open_target, relative, local) at h)
            | inr foreign ↦ absurd (never_some target (rw (open_target, relative, foreign) at h))
          ]
        ]
      ]

  append-local :
      (path part : String) (mark : Char)
      → nat_eq (code mark) b'/' ≡ false
      → starts_with path "/" ≡ true
      → is_local (path ⊕ (String.◌∷◌ mark part)) ≡ is_local path
  append-local String.[] part mark other slash = absurd (ground (arith, slash))
  append-local (String.◌∷◌ c String.[]) part mark other slash =
      rw (cons-append c String.[] (String.◌∷◌ mark part), nil-append (String.◌∷◌ mark part))
        (ground (arith, other, slash))
  append-local (String.◌∷◌ c (String.◌∷◌ d s)) part mark other slash =
      rw
        (
          cons-append c (String.◌∷◌ d s) (String.◌∷◌ mark part),
          cons-append d s (String.◌∷◌ mark part),
        )
        refl

  append-slash :
      (path rest : String) → starts_with path "/" ≡ true → starts_with (path ⊕ rest) "/" ≡ true
  append-slash String.[] rest slash = absurd (ground (arith, slash))
  append-slash (String.◌∷◌ c s) rest slash = rw (cons-append c s rest) (ground (arith, slash))

  with_part-local :
      (path part : String) (mark : Char)
      → nat_eq (code mark) b'/' ≡ false
      → starts_with path "/" ≡ true
      → (is_local (with_part path (String.◌∷◌ mark String.[]) part) ≡ is_local path)
        × (starts_with (with_part path (String.◌∷◌ mark String.[]) part) "/" ≡ true)
  with_part-local path part mark other slash = elim (Bool-cases (part == "")) [
    | inl empty ↦ rw empty (refl, slash)
    | inr given ↦
        rw (given, cons-append mark String.[] part, nil-append part)
          (append-local path part mark other slash, append-slash path (String.◌∷◌ mark part) slash)
  ]

  no_slash : (s : String) → starts_with s "/" ≡ true → is_local s ≡ not (starts_with s "//")
  no_slash s slash = rw slash refl

  same_origin-target :
      (host : Option String) (parsed : ParsedUrl) (target : String)
      → same_origin host true parsed ≡ some target
      → (host ≡ some parsed.netloc)
        × (one_of parsed.scheme ("http" ∷ "https" ∷ []) ≡ true)
        × (is_local target ≡ not (starts_with parsed.path "//"))
  same_origin-target none parsed target h = absurd (never_some target h)
  same_origin-target (some host) parsed target h =
      elim (Bool-cases (
        one_of parsed.scheme ("http" ∷ "https" ∷ [])
        && parsed.netloc == host
        && starts_with parsed.path "/")) [
          | inr refused ↦ absurd (never_some target (rw refused at h))
          | inl allowed ↦
              let taken = rw allowed at h in
              let slash : starts_with parsed.path "/" ≡ true = ground (arith, allowed) in
              let (query, rooted) = with_part-local parsed.path parsed.query "?" refl slash in
              let (fragment, _) =
                with_part-local (with_part parsed.path "?" parsed.query) parsed.fragment "#" refl
                  rooted in
              (
                ground (arith, allowed, eq_iff parsed.netloc host),
                ground (arith, allowed),
                ap (λ o. is_local (or_default o "")) (sym taken)
                    ∙ fragment
                    ∙ query
                    ∙ no_slash parsed.path slash,
              )
        ]

  -- An absolute candidate that gives a target is of http or https and of the request's own host, and
  -- the target is a path on this host exactly if the path of the URL does not begin with two slashes;
  -- with two, the target is no such path, although it is given.
  pub validated_absolute :
      (host : Option String) (candidate target : String)
      → is_absolute (library.urlparse (library.unquote (library.strip candidate))) ≡ true
      → validated_redirect_target host (some candidate) true ≡ some target
      → let parsed = library.urlparse (library.unquote (library.strip candidate)) in
        (host ≡ some parsed.netloc)
        × (one_of parsed.scheme ("http" ∷ "https" ∷ []) ≡ true)
        × (is_local target ≡ not (starts_with parsed.path "//"))
  unfolding validated_redirect_target
  validated_absolute host candidate target absolute h =
      let raw = library.strip candidate in
      let decoded = library.unquote raw in
      elim (Bool-cases (candidate == "" || raw == "" || not (is_clean raw && is_clean decoded))) [
        | inl refused ↦ absurd (never_some target (rw refused at h))
        | inr open_target ↦
            same_origin-target host (library.urlparse decoded) target
              (rw (open_target, absolute) at h)
      ]

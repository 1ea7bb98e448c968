-- ===== src/App/Runs.antt =====
-- The web application's rules at concrete inputs.
use layerrail_deploy.Prelude.{
  ℕ, ◌≡◌, refl, String, Option, true, false, if◌then◌else◌, some, List, [], ◌∷◌, starts_with,
  drop_chars, one_of,
}
use layerrail_deploy.App.Branches.{
  Environment, get_environment_for_branch, first_matching, group_all, group_branches_by_environment,
}
use layerrail_deploy.App.Redirects.{
  UrlLibrary, is_local, is_clean, validated_redirect_target, validated_relative, validated_absolute,
}

abbrev production : Environment
production = record { slug = "production"; branch = "main" }

abbrev preview : Environment
preview = record { slug = "preview"; branch = "feature/*" }

grouped :
    group_branches_by_environment (production ∷ preview ∷ []) ("feature/a" ∷ "main" ∷ "x" ∷ [])
    ≡ some
        (("production", "main" ∷ []) ∷ ("preview", "feature/a" ∷ []) ∷ ("unmatched", "x" ∷ []) ∷ [])
unfolding group_branches_by_environment group_all get_environment_for_branch first_matching
grouped = refl

-- a library for these two texts: a URL of the host that is asked for, and a path
abbrev library : UrlLibrary
library = record {
  strip = λ s. s;
  unquote = λ s. s;
  urlparse = λ s.
      if starts_with s "https://"
      then record {
        scheme = "https";
        netloc = "lrail.a";
        path = drop_chars 15 s;
        query = "";
        fragment = "";
      }
      else record { scheme = ""; netloc = ""; path = s; query = ""; fragment = "" };
  is_space = λ c. false;
}

validated_relative_example :
    (is_local library "/team" ≡ true)
    × (is_clean library "/team" ≡ true)
    × ("/team" ≡ library.strip "/team")
unfolding validated_redirect_target
validated_relative_example = validated_relative library (some "lrail.a") "/team" "/team" refl

abbrev own_host : Option String
own_host = some "lrail.a"

abbrev evil : String
evil = "https://lrail.a//evil.b"

evil_accepted : validated_redirect_target library own_host (some evil) true ≡ some "//evil.b"
unfolding validated_redirect_target
evil_accepted = refl

validated_absolute_example :
    (own_host ≡ some "lrail.a")
    × (one_of "https" ("http" ∷ "https" ∷ []) ≡ true)
    × (is_local library "//evil.b" ≡ false)
validated_absolute_example = validated_absolute library own_host evil "//evil.b" refl evil_accepted

abbrev three : List ℕ
three = 1 ∷ 2 ∷ 3 ∷ []

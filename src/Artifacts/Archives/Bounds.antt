-- ===== src/Artifacts/Archives/Bounds.antt =====
-- What every archive that `_extract` accepts satisfies.
use layerrail_deploy.Prelude.{
  ℕ, suc, ◌+◌, ◌≤◌, ◌≡◌, refl, String, eq_iff, subst, ap, ◌∙◌, Bool, true, false, not, ◌&&◌, ◌||◌,
  Option, none, some, List, [], ◌∷◌, ◌++◌, leb, nat_eq, length, any, All, UniqueBy, chars, arith,
}
use layerrail_deploy.Effect.{Result, ok, err}
use layerrail_deploy.Effect.Success.{pair_of, and_then-ok, guard-ok, require-ok}
use layerrail_deploy.Artifacts.Store.{Bytes}
use layerrail_deploy.Artifacts.Paths.{Fault, path, is_relative}
use layerrail_deploy.Artifacts.Paths.Accepted.{path-accepted}
use layerrail_deploy.Artifacts.Archives.{
  ArtifactLimits, StaticFile, Kind, directory, regular, special, Member, Progress, is_regular,
  has_path, sorted_files, static_file, read_file, read_kind, read_all, with_index, nothing_read,
  extract,
}
use layerrail_deploy.Artifacts.Archives.Sorted.{
  total_size, same_path, length-sorted_files, total_size-sorted_files, any-sorted_files,
  All-sorted_files, UniqueBy-sorted_files,
}

module _ {ℓ} {A : Type ℓ} where
  pub length-snoc : (xs : List A) (x : A) → length (xs ++ x ∷ []) ≡ suc (length xs)
  length-snoc [] x = refl
  length-snoc (y ∷ xs) x = ground (arith, length-snoc xs x)

  pub All-snoc {κ} : (P : A → Type κ) (xs : List A) (x : A) → All P xs → P x → All P (xs ++ x ∷ [])
  All-snoc P [] x h k = (k, tt)
  All-snoc P (y ∷ xs) x (h, hs) k = (h, All-snoc P xs x hs k)

  any-snoc : (p : A → Bool) (xs : List A) (x : A) → any p (xs ++ x ∷ []) ≡ (any p xs || p x)
  any-snoc p [] x = ground arith
  any-snoc p (y ∷ xs) x = ground (arith, any-snoc p xs x)

total_size-snoc :
    (files : List StaticFile) (f : StaticFile)
    → total_size (files ++ f ∷ []) ≡ total_size files + chars f.body
total_size-snoc [] f = omega arith
total_size-snoc (g ∷ files) f = omega (arith, total_size-snoc files f)

UniqueBy-snoc :
    (files : List StaticFile) (f : StaticFile)
    → any (has_path f.path) files ≡ false
    → UniqueBy same_path files
    → UniqueBy same_path (files ++ f ∷ [])
UniqueBy-snoc [] f h k = (refl, tt)
UniqueBy-snoc (g ∷ files) f h (k, ks) = ground (
  arith,
  any-snoc (same_path g) files f,
  eq_iff g.path f.path,
  eq_iff f.path g.path,
  UniqueBy-snoc files f,
)

with_index-ok :
    (r : Result Fault Unit) (s : Progress) (files : List StaticFile)
    → with_index r s ≡ ok files
    → (r ≡ ok tt) × (any (has_path "index.html") s.files ≡ true) × (sorted_files s.files ≡ files)
with_index-ok (ok u) s files h = ground arith
with_index-ok (err e) s files h = ground arith

module _ (digest : Bytes → String) (limits : ArtifactLimits) where
  -- A file has a relative path, a size within the limit, and the digest and headers of its own.
  abbrev pub IsSafe : StaticFile → Type 0
  IsSafe f =
      (is_relative f.path ≡ true)
      × (path f.path false ≡ ok f.path)
      × (chars f.body ≤ limits.file_bytes)
      × (f ≡ static_file digest f.path f.body)

  pub record Within (files : List StaticFile) (expanded : ℕ) : Type 0 where
    pub counted : length files ≤ limits.file_count
    pub sized : expanded ≤ limits.expanded_bytes
    pub summed : total_size files ≡ expanded
    pub distinct : UniqueBy same_path files
    pub safe : All IsSafe files

  added-Within :
      (p : String) (contents : Bytes) (n : ℕ) (s : Progress)
      → (is_relative p ≡ true) × (path p false ≡ ok p)
      → any (has_path p) s.files ≡ false
      → chars contents ≡ n
      → n ≤ limits.file_bytes
      → suc (length s.files) ≤ limits.file_count
      → s.expanded + n ≤ limits.expanded_bytes
      → Within s.files s.expanded
      → Within (s.files ++ static_file digest p contents ∷ []) (s.expanded + n)
  added-Within p contents n s relative fresh exact small few bounded within = record {
    counted = omega (arith, length-snoc s.files (static_file digest p contents));
    sized = bounded;
    summed = omega (arith, total_size-snoc s.files (static_file digest p contents), within.summed);
    distinct = UniqueBy-snoc s.files (static_file digest p contents) fresh within.distinct;
    safe =
        All-snoc IsSafe s.files (static_file digest p contents) within.safe
          (relative.0, relative.1, omega arith, refl);
  }

  read_file-Within :
      (m : Member) (s t : Progress)
      → read_file digest limits m s ≡ (ok tt, t)
      → Within s.files s.expanded
      → Within t.files t.expanded
  unfolding read_file
  read_file-Within m s t h within =
      let (p, accepted, h₁) = and_then-ok tt t (path m.name false) _ s h in
      let (_, h₂) = guard-ok tt t (is_regular m.kind) _ _ s h₁ in
      let (fresh, h₃) = guard-ok tt t (not (any (has_path p) s.files)) _ _ s h₂ in
      let (small, h₄) = guard-ok tt t (leb m.size limits.file_bytes) _ _ s h₃ in
      let (bounded, h₅) =
        guard-ok tt t
          (leb (suc (length s.files)) limits.file_count
            && leb (s.expanded + m.size) limits.expanded_bytes)
          _ _ s h₄ in
      let (contents, there, h₆) = require-ok tt t m.source _ _ s h₅ in
      let (exact, h₇) = guard-ok tt t (nat_eq (chars contents) m.size) _ _ s h₆ in
      subst (λ (u : Progress). Within u.files u.expanded) (ap (λ u. u.1) h₇)
        (added-Within p contents m.size s (path-accepted m.name p accepted) (ground arith)
          (ground arith) (ground arith) (ground arith) (ground arith) within)

  read_kind-Within :
      (k : Kind) (m : Member) (s t : Progress)
      → read_kind digest limits k m s ≡ (ok tt, t)
      → Within s.files s.expanded
      → Within t.files t.expanded
  read_kind-Within directory m s t h within =
      let (p, accepted, h₁) = and_then-ok tt t (path m.name true) _ s h in
      subst (λ (u : Progress). Within u.files u.expanded) (ap (λ u. u.1) h₁) within
  read_kind-Within regular m s t h within = read_file-Within m s t h within
  read_kind-Within special m s t h within = read_file-Within m s t h within

  read_all-Within :
      (members : List Member) (s t : Progress)
      → read_all digest limits members s ≡ (ok tt, t)
      → Within s.files s.expanded
      → Within t.files t.expanded
  unfolding read_all
  read_all-Within [] s t h within =
      subst (λ (u : Progress). Within u.files u.expanded) (ap (λ u. u.1) h) within
  read_all-Within (m ∷ members) s t h within =
      let (u, read, rest) = and_then-ok tt t (read_kind digest limits m.kind m s).0 _ _ h in
      read_all-Within members (read_kind digest limits m.kind m s).1 t rest (
        read_kind-Within m.kind m s (read_kind digest limits m.kind m s).1
          (pair_of (read_kind digest limits m.kind m s) read) within)

  nothing-Within : Within [] 0
  nothing-Within = record {
    counted = omega arith;
    sized = omega arith;
    summed = refl;
    distinct = tt;
    safe = tt;
  }

  sorted-Within :
      (files : List StaticFile) (n : ℕ)
      → Within files n
      → Within (sorted_files files) (total_size (sorted_files files))
  sorted-Within files n within = record {
    counted = omega (arith, length-sorted_files files, within.counted);
    sized = omega (arith, total_size-sorted_files files, within.summed, within.sized);
    summed = refl;
    distinct = UniqueBy-sorted_files files within.distinct;
    safe = All-sorted_files IsSafe files within.safe;
  }

  -- The files that `_extract` returns are within every limit: their number, the size of each and
  -- of all together; their paths are distinct and relative, each has the digest and headers of
  -- its own body and path, and "index.html" is one of them.
  pub extract-Within :
      (members : Option (List Member)) (files : List StaticFile)
      → extract digest limits members ≡ ok files
      → Within files (total_size files) × (any (has_path "index.html") files ≡ true)
  unfolding extract
  extract-Within none files h = ground arith
  extract-Within (some members) files h =
      let end = read_all digest limits members nothing_read in
      let (read, index, same) = with_index-ok end.0 end.1 files h in
      let within = read_all-Within members nothing_read end.1 (pair_of end read) nothing-Within in
      subst
        (λ (l : List StaticFile). Within l (total_size l) × (any (has_path "index.html") l ≡ true))
        same
        (
          sorted-Within end.1.files end.1.expanded within,
          any-sorted_files (has_path "index.html") end.1.files ∙ index,
        )

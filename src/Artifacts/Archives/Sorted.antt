-- ===== src/Artifacts/Archives/Sorted.antt =====
-- Sorting the files by their paths keeps what `_extract` has checked of them.
use layerrail_deploy.Prelude.{
  ℕ, ◌+◌, suc, ◌≡◌, refl, Bool, false, ◌||◌, List, [], ◌∷◌, length, any, All, UniqueBy, chars,
  eq_iff, arith,
}
use layerrail_deploy.Artifacts.Archives.{StaticFile, insert_file, sorted_files, has_path}

abbrev pub total_size : List StaticFile → ℕ
total_size [] = 0
total_size (f ∷ files) = chars f.body + total_size files

abbrev pub same_path : StaticFile → StaticFile → Bool
same_path f g = has_path f.path g

module _ (f : StaticFile) where
  length-insert_file : (files : List StaticFile) → length (insert_file f files) ≡ suc (length files)
  length-insert_file [] = refl
  length-insert_file (g ∷ files) = ground (arith, length-insert_file files)

  total_size-insert_file :
      (files : List StaticFile) → total_size (insert_file f files) ≡ chars f.body + total_size files
  total_size-insert_file [] = refl
  total_size-insert_file (g ∷ files) = ground (arith, total_size-insert_file files)

  any-insert_file :
      (p : StaticFile → Bool) (files : List StaticFile)
      → any p (insert_file f files) ≡ (p f || any p files)
  any-insert_file p [] = refl
  any-insert_file p (g ∷ files) = ground (arith, any-insert_file p files)

  All-insert_file :
      (P : StaticFile → Type 0) (files : List StaticFile)
      → P f
      → All P files
      → All P (insert_file f files)
  All-insert_file P [] h k = (h, tt)
  All-insert_file P (g ∷ files) h (k, ks) = ground (arith, All-insert_file P files h ks)

  UniqueBy-insert_file :
      (files : List StaticFile)
      → any (same_path f) files ≡ false
      → UniqueBy same_path files
      → UniqueBy same_path (insert_file f files)
  UniqueBy-insert_file [] h k = (refl, tt)
  UniqueBy-insert_file (g ∷ files) h (k, ks) = ground (
    arith,
    eq_iff f.path g.path,
    eq_iff g.path f.path,
    any-insert_file (same_path g) files,
    UniqueBy-insert_file files,
  )

pub length-sorted_files : (files : List StaticFile) → length (sorted_files files) ≡ length files
unfolding sorted_files
length-sorted_files [] = refl
length-sorted_files (f ∷ files) =
    omega (arith, length-insert_file f (sorted_files files), length-sorted_files files)

pub total_size-sorted_files :
    (files : List StaticFile) → total_size (sorted_files files) ≡ total_size files
unfolding sorted_files
total_size-sorted_files [] = refl
total_size-sorted_files (f ∷ files) =
    omega (arith, total_size-insert_file f (sorted_files files), total_size-sorted_files files)

pub any-sorted_files :
    (p : StaticFile → Bool) (files : List StaticFile) → any p (sorted_files files) ≡ any p files
unfolding sorted_files
any-sorted_files p [] = refl
any-sorted_files p (f ∷ files) =
    ground (arith, any-insert_file f p (sorted_files files), any-sorted_files p files)

pub All-sorted_files :
    (P : StaticFile → Type 0) (files : List StaticFile) → All P files → All P (sorted_files files)
unfolding sorted_files
All-sorted_files P [] h = tt
All-sorted_files P (f ∷ files) (h, hs) =
    All-insert_file f P (sorted_files files) h (All-sorted_files P files hs)

pub UniqueBy-sorted_files :
    (files : List StaticFile) → UniqueBy same_path files → UniqueBy same_path (sorted_files files)
unfolding sorted_files
UniqueBy-sorted_files [] h = tt
UniqueBy-sorted_files (f ∷ files) (h, hs) =
    UniqueBy-insert_file f (sorted_files files) (rw (any-sorted_files (same_path f) files) h)
      (UniqueBy-sorted_files files hs)

-- ===== src/BuildManifest/StoreLaws.antt =====
-- capture_build_manifest.py: the files of the artifact and their paths.
use my_ad.Prelude.{
  String, ◌≡◌, refl, sym, false, not, ◌&&◌, ◌==◌, some, [], ◌∷◌, ◌++◌, ok, require-then,
  ok_injective, str_eq, str_eq_refl, is_empty, any, codes,
}
use my_ad.Json.{str}
use my_ad.StageReport.Host.{Bytes}
use my_ad.BuildManifest.Fault.{not_relative, escapes_root, contains_nul}
use my_ad.BuildManifest.Paths.{
  FilePath, split_on, kept, parts, is_absolute, are_plain, same_path, safe_relative_name,
}
use my_ad.BuildManifest.PathLaws.{same_path_refl}
use my_ad.BuildManifest.Snapshot.{Store, put_file, relative_to, publish, append_text}

-- Two ways down from one directory, with different first steps.
pub apart :
    (directory p q : FilePath) (a b : String)
    → str_eq a b ≡ false
    → same_path (directory ++ a ∷ p) (directory ++ b ∷ q) ≡ false
unfolding same_path
apart [] p q a b h = rw h refl
apart (part ∷ directory) p q a b h = rw (same_path, str_eq_refl part) (apart directory p q a b h)

-- The parts of the name of a patch start with the directory of the patches.
pub under_git :
    (name : String) → (rest : FilePath) × (parts (append_text "git/" name) ≡ "git" ∷ rest)
unfolding parts split_on kept is_absolute append_text str_eq
under_git name = (kept ((split_on b'/' name).0 ∷ (split_on b'/' name).1), refl)

relative_to-append :
    (directory path : FilePath) → relative_to directory (directory ++ path) ≡ some path
unfolding relative_to
relative_to-append [] path = refl
relative_to-append (part ∷ directory) path =
    rw (relative_to, str_eq_refl part) (relative_to-append directory path)

pub git_other : str_eq "git" "untracked" ≡ false
unfolding str_eq
git_other = refl

pub put_apart :
    (files : Store) (path : FilePath) (content : Bytes) (other : FilePath)
    → same_path other path ≡ false
    → put_file files path content other ≡ files other
unfolding put_file
put_apart files path content other h = rw (put_file, h) refl

pub put_there :
    (files : Store) (path : FilePath) (content : Bytes)
    → put_file files path content path ≡ some content
unfolding put_file
put_there files path content = rw (put_file, same_path_refl path) refl

-- The path of a safe name is that of its parts.
pub safe_relative_name-parts :
    (name : String) (path : FilePath) → safe_relative_name (str name) ≡ ok path → path ≡ parts name
unfolding safe_relative_name
safe_relative_name-parts name path h =
    let (_, h1) =
      (require-then (not (str_eq name "") && not (is_absolute name)) not_relative _).0 h in
    let (_, h2) =
      (require-then (not (is_empty (parts name)) && are_plain (parts name)) escapes_root _).0 h1 in
    let (_, h3) = (require-then (not (any (λ x. x == 0) (codes name))) contains_nul _).0 h2 in
    sym (ok_injective h3)

pub publish-append :
    (temporary final : FilePath) (files : Store) (path : FilePath)
    → publish temporary final files (final ++ path) ≡ files (temporary ++ path)
unfolding publish
publish-append temporary final files path = rw (publish, relative_to-append final path) refl

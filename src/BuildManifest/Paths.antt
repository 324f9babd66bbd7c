-- ===== src/BuildManifest/Paths.antt =====
-- capture_build_manifest.py: `_safe_relative_name`, `_under` and `_resolve_artifact`, and of pathlib
-- what they use. An absolute path is the list of its parts below "/".
use my_ad.Prelude.{
  ℕ, String, Bool, true, false, not, ◌&&◌, ◌||◌, List, [], ◌∷◌, Result, ok, err, ◌>>◌, require,
  str_eq, codes, contains, is_empty, any, ◌==◌, if◌then◌else◌,
}
use Prim.Native.Char.{code}
use my_ad.Json.{Value, str}
use my_ad.BuildManifest.Fault.{ManifestFault, not_relative, escapes_root, contains_nul}

abbrev pub FilePath : Type 0
FilePath = List String

-- `text.split(separator)`, as the first piece and the others
unfoldable pub split_on : ℕ → String → String × List String
split_on separator String.[] = ("", [])
split_on separator (String.◌∷◌ c s) =
    let (piece, pieces) = split_on separator s in
    if code c == separator then ("", piece ∷ pieces) else (String.◌∷◌ c piece, pieces)

-- the pieces of a name that `Path` keeps
unfoldable pub kept : List String → FilePath
kept [] = []
kept (piece ∷ pieces) =
    let rest = kept pieces in if str_eq piece "" || str_eq piece "." then rest else piece ∷ rest

-- `Path(name).is_absolute()`
unfoldable pub is_absolute : String → Bool
is_absolute String.[] = false
is_absolute (String.◌∷◌ c s) = code c == b'/'

-- `Path(name).parts`
unfoldable pub parts : String → FilePath
unfolding split_on kept is_absolute
parts name =
    let (piece, pieces) = split_on b'/' name in
    let path = kept (piece ∷ pieces) in if is_absolute name then "/" ∷ path else path

-- `all(part not in ("", ".", "..") for part in parts)`
unfoldable pub are_plain : FilePath → Bool
are_plain [] = true
are_plain (part ∷ path) = not (contains part ("" ∷ "." ∷ ".." ∷ [])) && are_plain path

-- `_safe_relative_name`
unfoldable pub safe_relative_name : Value → Result ManifestFault FilePath
unfolding is_absolute parts are_plain
safe_relative_name (str name) =
    require (not (str_eq name "") && not (is_absolute name)) not_relative
    >> (require (not (is_empty (parts name)) && are_plain (parts name)) escapes_root
        >> (require (not (any (λ c. c == 0) (codes name))) contains_nul >> ok (parts name)))
safe_relative_name _ = err not_relative

-- `path == other`
unfoldable pub same_path : FilePath → FilePath → Bool
same_path [] [] = true
same_path [] (_ ∷ _) = false
same_path (_ ∷ _) [] = false
same_path (a ∷ p) (b ∷ q) = str_eq a b && same_path p q

-- `path.relative_to(directory)` does not raise
unfoldable pub is_below : FilePath → FilePath → Bool
is_below [] path = true
is_below (part ∷ directory) [] = false
is_below (part ∷ directory) (head ∷ path) = str_eq part head && is_below directory path

-- ===== src/BuildManifest/UntrackedLaws.antt =====
-- capture_build_manifest.py: the untracked files of a checkout that verifies, and the whole of
-- `_verify_git`.
use my_ad.Prelude.{
  String, ◌≡◌, refl, sym, ap, ◌∙◌, subst, true, some, List, [], ◌∷◌, ◌++◌, ok, >>=-eq-ok,
  require-then, require-eq-ok, ok_injective, &&-eq-true, Bool-cases, inl, inr,
}
use my_ad.Json.{Value, str, arr, obj, Items, nil, cons, Fields, get}
use my_ad.PyText.Laws.{same_eq}
use my_ad.BuildManifest.Fault.{
  root_mismatch, bad_metadata, metadata_changed, snapshot_changed, file_set_changed,
}
use my_ad.BuildManifest.Paths.{same_path, FilePath, safe_relative_name, is_below}
use my_ad.BuildManifest.Files.{FileState, file_state, resolve_artifact}
use my_ad.BuildManifest.FileLaws.{IsArtifact, resolve_artifact-IsArtifact}
use my_ad.BuildManifest.PathLaws.{same_path_eq}
use my_ad.BuildManifest.Repository.{
  Checkout, answer, object, items, has_metadata, matches, names_of, resolve_recorded, check_state,
  check_diff, check_item, check_items, current_files, expected_live, same_files, verify_git,
}
use my_ad.BuildManifest.RepositoryLaws.{
  answered, object_eq, items_eq, IsState, check_state-IsState, IsPatch, check_diff-IsPatch,
}

module _ (c : Checkout) where
  -- The file of an entry and its snapshot have the recorded metadata and the same content.
  pub record IsKept (artifact_dir : FilePath) (item : Fields) : Type 0 where
    pub relative : FilePath
    pub named : safe_relative_name (get "path" item) ≡ ok relative
    pub source : FileState
    pub found : file_state c.sha256 (c.first_look (c.root ++ relative)) ≡ ok source
    pub source_recorded : matches source item ≡ true
    pub snapshot : FilePath
    pub artifact : IsArtifact c.disk artifact_dir (get "snapshot" item) snapshot
    pub archived : FileState
    pub snapshot_found : file_state c.sha256 (c.first_look snapshot) ≡ ok archived
    pub archived_recorded : matches archived item ≡ true
    pub same_content : archived.content ≡ source.content

  abbrev pub AreKept : FilePath → Items → Type 0
  AreKept artifact_dir nil = Unit
  AreKept artifact_dir (cons value rest) =
      ((item : Fields) × (value ≡ obj item) × IsKept artifact_dir item) × AreKept artifact_dir rest

  check_item-IsKept :
      (artifact_dir : FilePath) (item : Fields)
      → check_item c artifact_dir item ≡ ok tt
      → IsKept artifact_dir item
  unfolding check_item
  check_item-IsKept artifact_dir item h =
      let (_, h1) = (require-then (has_metadata item) bad_metadata _).0 h in
      let (relative, a, h2) = >>=-eq-ok (safe_relative_name (get "path" item)) _ h1 in
      let (source, b, h3) =
        >>=-eq-ok (file_state c.sha256 (c.first_look (c.root ++ relative))) _ h2 in
      let (d, h4) = (require-then (matches source item) metadata_changed _).0 h3 in
      let (snapshot, e, h5) =
        >>=-eq-ok (resolve_artifact c.disk artifact_dir (get "snapshot" item)) _ h4 in
      let (archived, f, h6) = >>=-eq-ok (file_state c.sha256 (c.first_look snapshot)) _ h5 in
      let (g, h7) = (require-then (matches archived item) metadata_changed _).0 h6 in
      record {
        relative = relative;
        named = a;
        source = source;
        found = b;
        source_recorded = d;
        snapshot = snapshot;
        artifact = resolve_artifact-IsArtifact c.disk artifact_dir (get "snapshot" item) snapshot e;
        archived = archived;
        snapshot_found = f;
        archived_recorded = g;
        same_content =
            same_eq archived.content source.content (require-eq-ok _ snapshot_changed h7);
      }

  check_items-AreKept :
      (artifact_dir : FilePath) (xs : Items)
      → check_items c artifact_dir xs ≡ ok tt
      → AreKept artifact_dir xs
  unfolding check_items
  check_items-AreKept artifact_dir nil h = tt
  check_items-AreKept artifact_dir (cons (obj item) rest) h =
      let (u, a, b) = >>=-eq-ok (check_item c artifact_dir item) _ h in
      ((item, refl, check_item-IsKept artifact_dir item a), check_items-AreKept artifact_dir rest b)
  check_items-AreKept artifact_dir (cons _ rest) h = cc

  -- The names that git lists, without those of the artifact directory, and the recorded entries stand
  -- in the same order for the same paths, with the metadata that a second look finds.
  pub data AreLive (artifact_dir : FilePath) : List String → Items → Type 0 where
    no_more : AreLive artifact_dir [] nil
    skipped :
        {names : List String} {xs : Items} (name : String) (relative : FilePath)
        → safe_relative_name (str name) ≡ ok relative
        → is_below (c.disk.resolve artifact_dir) (c.disk.resolve (c.root ++ relative)) ≡ true
        → AreLive artifact_dir names xs
        → AreLive artifact_dir (name ∷ names) xs
    listed :
        {names : List String} {xs : Items} (name : String) (relative : FilePath) (item : Fields)
        (state : FileState)
        → safe_relative_name (str name) ≡ ok relative
        → safe_relative_name (get "path" item) ≡ ok relative
        → file_state c.sha256 (c.second_look (c.root ++ relative)) ≡ ok state
        → matches state item ≡ true
        → AreLive artifact_dir names xs
        → AreLive artifact_dir (name ∷ names) (cons (obj item) xs)

  one_live :
      (artifact_dir : FilePath) (name : String) (names : List String) (relative : FilePath)
      (state : FileState) (files : List (FilePath × FileState)) (xs : Items)
      (live : List (FilePath × Fields))
      → safe_relative_name (str name) ≡ ok relative
      → file_state c.sha256 (c.second_look (c.root ++ relative)) ≡ ok state
      → ((rest : Items) (more : List (FilePath × Fields))
          → expected_live c rest ≡ ok more
          → same_files c files more ≡ true
          → AreLive artifact_dir names rest)
      → expected_live c xs ≡ ok live
      → same_files c ((relative, state) ∷ files) live ≡ true
      → AreLive artifact_dir (name ∷ names) xs
  unfolding expected_live same_files
  one_live artifact_dir name names relative state files nil live named found later e h = cc (
      subst (λ (l : List (FilePath × Fields)). same_files c ((relative, state) ∷ files) l ≡ true)
        (sym (ok_injective e)) h)
  one_live artifact_dir name names relative state files (cons (obj item) rest) live named found
        later e h =
      let (path, a, e1) = >>=-eq-ok (safe_relative_name (get "path" item)) _ e in
      let (more, b, e2) = >>=-eq-ok (expected_live c rest) _ e1 in
      let h1 =
        subst (λ (l : List (FilePath × Fields)). same_files c ((relative, state) ∷ files) l ≡ true)
          (sym (ok_injective e2)) h in
      let (x, h2) = (&&-eq-true (same_path relative path) _).0 h1 in
      let (y, z) = (&&-eq-true (matches state item) (same_files c files more)).0 h2 in
      let p = same_path_eq relative path x in
      listed name relative item state named (a ∙ ap (λ (q : FilePath). ok q) (sym p)) found y
        (later rest more b z)
  one_live artifact_dir name names relative state files (cons _ rest) live named found later e h =
      cc

  none_live :
      (artifact_dir : FilePath) (xs : Items) (live : List (FilePath × Fields))
      → expected_live c xs ≡ ok live
      → same_files c [] live ≡ true
      → AreLive artifact_dir [] xs
  unfolding expected_live same_files
  none_live artifact_dir nil live e h = no_more
  none_live artifact_dir (cons (obj item) rest) live e h =
      let (path, a, e1) = >>=-eq-ok (safe_relative_name (get "path" item)) _ e in
      let (more, b, e2) = >>=-eq-ok (expected_live c rest) _ e1 in
      cc (
        subst (λ (l : List (FilePath × Fields)). same_files c [] l ≡ true) (sym (ok_injective e2))
          h)
  none_live artifact_dir (cons _ rest) live e h = cc

  current-AreLive :
      (artifact_dir : FilePath) (names : List String) (current : List (FilePath × FileState))
      (xs : Items) (live : List (FilePath × Fields))
      → current_files c artifact_dir names ≡ ok current
      → expected_live c xs ≡ ok live
      → same_files c current live ≡ true
      → AreLive artifact_dir names xs
  unfolding current_files
  current-AreLive artifact_dir [] current xs live e f h = none_live artifact_dir xs live f (
      subst (λ (l : List (FilePath × FileState)). same_files c l live ≡ true) (sym (ok_injective e))
        h)
  current-AreLive artifact_dir (name ∷ names) current xs live e f h =
      let (relative, a, e1) = >>=-eq-ok (safe_relative_name (str name)) _ e in
      elim (Bool-cases
        (is_below (c.disk.resolve artifact_dir) (c.disk.resolve (c.root ++ relative)))) [
          | inl b ↦
              skipped name relative a b
                (current-AreLive artifact_dir names current xs live (rw b at e1) f h)
          | inr b ↦
              let e2 = rw b at e1 in
              let (state, d, e3) =
                >>=-eq-ok (file_state c.sha256 (c.second_look (c.root ++ relative))) _ e2 in
              let (files, g, e4) = >>=-eq-ok (current_files c artifact_dir names) _ e3 in
              one_live artifact_dir name names relative state files xs live a d
                (λ rest more k l. current-AreLive artifact_dir names files rest more g k l) f
                (subst (λ (l : List (FilePath × FileState)). same_files c l live ≡ true)
                  (sym (ok_injective e4)) h)
        ]

  -- What a checkout and its record have in common.
  pub record IsCurrent (artifact_dir : FilePath) (repository : Value) : Type 0 where
    pub fields : Fields
    pub is_object : repository ≡ obj fields
    pub same_root : resolve_recorded c (get "root" fields) ≡ ok c.root
    pub git : Fields
    pub git_object : get "git" fields ≡ obj git
    pub state : IsState c git
    pub patch : IsPatch c artifact_dir (get "tracked_diff" fields)
    pub entries : Items
    pub listed : get "untracked" fields ≡ arr entries
    pub kept : AreKept artifact_dir entries
    pub listing : String
    pub listings : c.untracked ≡ some listing
    pub live : AreLive artifact_dir (names_of listing) entries

  -- When a checkout verifies, its root, HEAD, branch and status are the recorded ones, the patch is an
  -- artifact that holds the tracked diff of now, every recorded untracked file and its snapshot have
  -- the recorded metadata and equal content, and the untracked files that git lists outside the
  -- artifact directory are, in order, the recorded ones with the recorded metadata.
  pub verify_git-IsCurrent :
      (artifact_dir : FilePath) (repository : Value)
      → verify_git c artifact_dir repository ≡ ok tt
      → IsCurrent artifact_dir repository
  unfolding verify_git
  verify_git-IsCurrent artifact_dir repository h =
      let (fields, a, h1) = >>=-eq-ok (object repository) _ h in
      let (root, b, h2) = >>=-eq-ok (resolve_recorded c (get "root" fields)) _ h1 in
      let (d, h3) = (require-then (same_path root c.root) root_mismatch _).0 h2 in
      let (git, e, h4) = >>=-eq-ok (object (get "git" fields)) _ h3 in
      let (u, f, h5) = >>=-eq-ok (check_state c git) _ h4 in
      let (v, g, h6) = >>=-eq-ok (check_diff c artifact_dir (get "tracked_diff" fields)) _ h5 in
      let (entries, i, h7) = >>=-eq-ok (items (get "untracked" fields)) _ h6 in
      let (w, j, h8) = >>=-eq-ok (check_items c artifact_dir entries) _ h7 in
      let (listing, k, h9) = >>=-eq-ok (answer c.untracked) _ h8 in
      let (current, l, h10) = >>=-eq-ok (current_files c artifact_dir (names_of listing)) _ h9 in
      let (live, m, h11) = >>=-eq-ok (expected_live c entries) _ h10 in
      record {
        fields = fields;
        is_object = object_eq repository a;
        same_root = b ∙ ap (λ (p : FilePath). ok p) (same_path_eq root c.root d);
        git = git;
        git_object = object_eq (get "git" fields) e;
        state = check_state-IsState c git f;
        patch = check_diff-IsPatch c artifact_dir (get "tracked_diff" fields) g;
        entries = entries;
        listed = items_eq (get "untracked" fields) i;
        kept = check_items-AreKept artifact_dir entries j;
        listing = listing;
        listings = answered c.untracked k;
        live =
            current-AreLive artifact_dir (names_of listing) current entries live l m
              (require-eq-ok (same_files c current live) file_set_changed h11);
      }

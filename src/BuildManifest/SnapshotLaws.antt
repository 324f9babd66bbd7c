-- ===== src/BuildManifest/SnapshotLaws.antt =====
-- capture_build_manifest.py: what `_git_snapshot` records, `_verify_git` finds again.
use my_ad.Prelude.{
  String, ◌≡◌, refl, sym, ap, ◌∙◌, true, Option, none, some, List, [], ◌∷◌, ◌++◌, ok, >>=-eq-ok,
  require-then, ok_injective, str_eq, str_eq_refl, length, eq→==, Bool-cases, inl, inr,
}
use my_ad.Json.{str, obj, Items, Fields, get, is_str}
use my_ad.PyText.Laws.{same_refl}
use my_ad.StageReport.Host.{Bytes}
use my_ad.BuildManifest.Fault.{bad_head, os_error}
use my_ad.BuildManifest.Paths.{FilePath, parts, safe_relative_name}
use my_ad.BuildManifest.Files.{FileState, archive_file, resolve_artifact}
use my_ad.BuildManifest.FileLaws.{resolve_artifact-IsArtifact}
use my_ad.BuildManifest.Repository.{
  Checkout, answer, strip_text, names_of, check_state, check_diff, is_length, state_text,
}
use my_ad.BuildManifest.RepositoryLaws.{answered}
use my_ad.BuildManifest.Snapshot.{
  git_of, tracked_of, repository_of, Store, put_file, publish, append_text, Taking, patch_name,
  is_excluded, archived, snapshot_files, git_snapshot, is_head_text,
}
use my_ad.BuildManifest.StoreLaws.{
  apart, under_git, git_other, put_apart, put_there, safe_relative_name-parts, publish-append,
}

module _ (c : Checkout) (t : Taking c.sha256) where
  -- What a capture read of git, and the record that it made.
  record IsTaken (record_ : Fields) (after : Store) : Type 0 where
    head : String
    branch : String
    status : String
    diff : Bytes
    untracked : Items
    heads : c.head ≡ some head
    branches : c.branch ≡ some branch
    statuses : c.status ≡ some status
    diffs : c.diff ≡ some diff
    shape :
        record_
        ≡ repository_of
            (t.relative c.root c.project_root)
            (git_of head branch status)
            (tracked_of (patch_name c t) (c.sha256 diff) diff)
            untracked
    patch_kept : after (t.artifact_dir ++ parts (patch_name c t)) ≡ some diff

  -- An archive stores nothing at the place of a patch.
  archived-frame :
      (files : Store) (relative rest : FilePath) (published : Option FileState)
      → archived files
          (t.artifact_dir ++ ("untracked" ∷ t.repo_name ∷ relative))
          published
          (t.artifact_dir ++ "git" ∷ rest)
        ≡ files (t.artifact_dir ++ "git" ∷ rest)
  archived-frame files relative rest none = refl
  archived-frame files relative rest (some state) =
      put_apart files (t.artifact_dir ++ ("untracked" ∷ t.repo_name ∷ relative)) state.content
        (t.artifact_dir ++ "git" ∷ rest)
        (apart t.artifact_dir rest (t.repo_name ∷ relative) "git" "untracked" git_other)

  kept_by :
      (rest : FilePath) {o out : Items × Store}
      → o ≡ out
      → out.1 (t.artifact_dir ++ "git" ∷ rest) ≡ o.1 (t.artifact_dir ++ "git" ∷ rest)
  kept_by rest e = ap (λ (o : Items × Store). o.1 (t.artifact_dir ++ "git" ∷ rest)) (sym e)

  snapshot_files-frame :
      (files : Store) (names : List String) (rest : FilePath) {out : Items × Store}
      → snapshot_files c t files names ≡ ok out
      → out.1 (t.artifact_dir ++ "git" ∷ rest) ≡ files (t.artifact_dir ++ "git" ∷ rest)
  unfolding snapshot_files
  snapshot_files-frame files [] rest h =
      ap (λ (o : Items × Store). o.1 (t.artifact_dir ++ "git" ∷ rest)) (sym (ok_injective h))
  snapshot_files-frame files (name ∷ names) rest h =
      elim (Bool-cases (is_excluded c t (c.root ++ parts name))) [
        | inl x ↦ snapshot_files-frame files names rest (rw (snapshot_files, x) at h)
        | inr x ↦
            let (relative, a, h1) =
              >>=-eq-ok (safe_relative_name (str name)) _ (rw (snapshot_files, x) at h) in
            let copy = t.artifact_dir ++ ("untracked" ∷ t.repo_name ∷ relative) in
            let archive = archive_file c.sha256 (t.copying (c.root ++ relative) copy) in
            let (state, b, h2) = >>=-eq-ok archive.result _ h1 in
            let (more, d, h3) =
              >>=-eq-ok (snapshot_files c t (archived files copy archive.published) names) _ h2 in
            kept_by rest (ok_injective h3)
            ∙ snapshot_files-frame (archived files copy archive.published) names rest d
            ∙ archived-frame files relative rest archive.published
      ]

  patch-kept :
      (files after : Store) (diff : Bytes) (names : List String) (untracked : Items)
      → snapshot_files c t (put_file files (t.artifact_dir ++ parts (patch_name c t)) diff) names
        ≡ ok (untracked, after)
      → after (t.artifact_dir ++ parts (patch_name c t)) ≡ some diff
  patch-kept files after diff names untracked h =
      let path = t.artifact_dir ++ parts (patch_name c t) in
      let (rest, e) = under_git (append_text t.repo_name ".tracked.patch") in
      let same_place = ap (λ (p : FilePath). t.artifact_dir ++ p) e in
      ap after same_place
      ∙ snapshot_files-frame (put_file files path diff) names rest h
      ∙ ap (put_file files path diff) (sym same_place)
      ∙ put_there files path diff

  git_snapshot-IsTaken :
      (files : Store) (record_ : Fields) (after : Store)
      → git_snapshot c t files ≡ ok (record_, after)
      → IsTaken record_ after
  unfolding git_snapshot
  git_snapshot-IsTaken files record_ after h =
      let (head, a, h1) = >>=-eq-ok (answer c.head) _ h in
      let (_, h2) = (require-then (is_head_text (strip_text head)) bad_head _).0 h1 in
      let (branch, b, h3) = >>=-eq-ok (answer c.branch) _ h2 in
      let (status, d, h4) = >>=-eq-ok (answer c.status) _ h3 in
      let (diff, e, h5) = >>=-eq-ok (answer c.diff) _ h4 in
      let (_, h6) = (require-then t.writable os_error _).0 h5 in
      let (listing, f, h7) = >>=-eq-ok (answer c.untracked) _ h6 in
      let placed = put_file files (t.artifact_dir ++ parts (patch_name c t)) diff in
      let (taken, g, h8) = >>=-eq-ok (snapshot_files c t placed (names_of listing)) _ h7 in
      let out = ok_injective h8 in
      record {
        head = head;
        branch = branch;
        status = status;
        diff = diff;
        untracked = taken.0;
        heads = answered c.head a;
        branches = answered c.branch b;
        statuses = answered c.status d;
        diffs = answered c.diff e;
        shape = sym (ap (λ (o : Fields × Store). o.0) out);
        patch_kept =
            ap (λ (o : Fields × Store). o.1 (t.artifact_dir ++ parts (patch_name c t))) (sym out)
            ∙ patch-kept files taken.1 diff (names_of listing) taken.0 g;
      }

  same_text : (s : String) → is_str s (str s) ≡ true
  unfolding is_str
  same_text s = str_eq_refl s

  -- The checkout once the artifact is published as `final`.
  abbrev pub published : FilePath → Store → Checkout
  published final after = record c {
    digested = publish t.artifact_dir final after;
    read = publish t.artifact_dir final after;
  }

  state-again :
      (final : FilePath) (after : Store) (head branch status : String)
      → c.head ≡ some head
      → c.branch ≡ some branch
      → c.status ≡ some status
      → check_state (published final after) (git_of head branch status) ≡ ok tt
  unfolding check_state str_eq
  state-again final after head branch status a b d =
      rw
        (
          a,
          b,
          d,
          same_text (strip_text head),
          same_text (strip_text branch),
          same_text status,
          same_text (state_text status),
        )
        refl

  -- The patch that resolves stands at the name that it was written under.
  patch_read :
      (final : FilePath) (after : Store) (diff : Bytes) (patch : FilePath)
      → resolve_artifact c.disk final (str (patch_name c t)) ≡ ok patch
      → after (t.artifact_dir ++ parts (patch_name c t)) ≡ some diff
      → publish t.artifact_dir final after patch ≡ some diff
  patch_read final after diff patch r k =
      let artifact = resolve_artifact-IsArtifact c.disk final (str (patch_name c t)) patch r in
      let named = safe_relative_name-parts (patch_name c t) artifact.relative artifact.named in
      ap (publish t.artifact_dir final after)
        (artifact.joined ∙ ap (λ (p : FilePath). final ++ p) named)
      ∙ publish-append t.artifact_dir final after (parts (patch_name c t))
      ∙ k

  diff-again :
      (final : FilePath) (after : Store) (diff : Bytes) (patch : FilePath)
      → c.diff ≡ some diff
      → resolve_artifact c.disk final (str (patch_name c t)) ≡ ok patch
      → publish t.artifact_dir final after patch ≡ some diff
      → check_diff
          (published final after)
          final
          (obj (tracked_of (patch_name c t) (c.sha256 diff) diff))
        ≡ ok tt
  unfolding check_diff is_length str_eq
  diff-again final after diff patch a r d =
      rw
        (a, r, d, same_text (c.sha256 diff), same_refl diff, eq→== (length diff) (length diff) refl)
        refl

  -- What a capture of a checkout records and stores, a verification of the unchanged checkout accepts
  -- once the artifact is renamed to a final place in which the name of the patch resolves to a file: the
  -- HEAD, the branch and the status, and the tracked diff, whose patch reads back as the diff that the
  -- capture wrote, untouched by the untracked files archived after it.
  pub git_snapshot-check :
      (files : Store) (record_ : Fields) (after : Store)
      → git_snapshot c t files ≡ ok (record_, after)
      → (final patch : FilePath) → resolve_artifact c.disk final (str (patch_name c t)) ≡ ok patch
      → ((git : Fields) × (get "git" record_ ≡ obj git)
          × (check_state (published final after) git ≡ ok tt))
        × (check_diff (published final after) final (get "tracked_diff" record_) ≡ ok tt)
  unfolding str_eq
  git_snapshot-check files record_ after h final patch r =
      let taken = git_snapshot-IsTaken files record_ after h in
      (
        (
          git_of taken.head taken.branch taken.status,
          ap (get "git") taken.shape,
          state-again final after taken.head taken.branch taken.status taken.heads taken.branches
              taken.statuses,
        ),
        ap (λ (f : Fields). check_diff (published final after) final (get "tracked_diff" f))
              taken.shape
            ∙ diff-again final after taken.diff patch taken.diffs r
                (patch_read final after taken.diff patch r taken.patch_kept),
      )

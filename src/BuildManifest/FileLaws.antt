-- ===== src/BuildManifest/FileLaws.antt =====
-- capture_build_manifest.py: what `_archive_file` publishes, and what `_resolve_artifact` accepts.
use my_ad.Prelude.{
  ℕ, String, ◌≡◌, ◌⊎◌, refl, sym, ap, ◌∙◌, Bool, true, false, not, ◌&&◌, none, some, [], ◌∷◌, ◌++◌,
  ok, err, >>=-eq-ok, require-then, ok_injective, &&-eq-true, inl, inr, str_eq, str_eq_iff, ◌==◌,
  ==→eq,
}
use my_ad.Json.{Value}
use my_ad.StageReport.Host.{Bytes}
use my_ad.BuildManifest.Fault.{
  ManifestFault, not_regular, overwrites, content_mismatch, mode_mismatch, source_changed, os_error,
  symlink, escapes_artifact,
}
use my_ad.BuildManifest.Paths.{FilePath, safe_relative_name, is_below}
use my_ad.BuildManifest.Files.{
  FileState, file_state, Copying, check_copy, Archive, archive_file, Disk, descend,
  resolve_artifact,
}

module _ (sha256 : Bytes → String) where
  -- The copy of a state passed every comparison: the digest and the size after it was written, the
  -- mode after it was set, the digest and the mode of the source after that.
  pub record IsCopy (c : Copying sha256) (state finished : FileState) : Type 0 where
    pub copied : FileState
    pub latest : FileState
    pub source_read : file_state sha256 c.source ≡ ok state
    pub copied_read : file_state sha256 c.copied ≡ ok copied
    pub finished_read : file_state sha256 c.finished ≡ ok finished
    pub latest_read : file_state sha256 c.latest ≡ ok latest
    pub same_content : (copied.sha256 ≡ state.sha256) × (copied.size ≡ state.size)
    pub same_mode : finished.mode ≡ state.mode
    pub source_kept : (latest.sha256 ≡ state.sha256) × (latest.mode ≡ state.mode)

  both : (s t : String) (a b : ℕ) → (str_eq s t && a == b) ≡ true → (s ≡ t) × (a ≡ b)
  both s t a b h =
      let (x, y) = (&&-eq-true (str_eq s t) (a == b)).0 h in ((str_eq_iff s t).0 x, ==→eq a b y)

  check_copy-IsCopy :
      (c : Copying sha256) {state finished : FileState}
      → file_state sha256 c.source ≡ ok state
      → check_copy sha256 c state ≡ ok finished
      → IsCopy c state finished
  unfolding check_copy
  check_copy-IsCopy c {state} source h =
      let (_, h1) = (require-then c.written os_error _).0 h in
      let (copied, a, h2) = >>=-eq-ok (file_state sha256 c.copied) _ h1 in
      let (content, h3) =
        (require-then (str_eq copied.sha256 state.sha256 && copied.size == state.size)
            content_mismatch _).0
          h2 in
      let (_, h4) = (require-then c.chmod os_error _).0 h3 in
      let (finished, b, h5) = >>=-eq-ok (file_state sha256 c.finished) _ h4 in
      let (mode, h6) = (require-then (finished.mode == state.mode) mode_mismatch _).0 h5 in
      let (latest, d, h7) = >>=-eq-ok (file_state sha256 c.latest) _ h6 in
      let (kept, h8) =
        (require-then (str_eq latest.sha256 state.sha256 && latest.mode == state.mode)
            source_changed _).0
          h7 in
      let (_, h9) = (require-then c.linked os_error _).0 h8 in
      let same = ok_injective h9 in
      record {
        copied = copied;
        latest = latest;
        source_read = source;
        copied_read = a;
        finished_read = b ∙ ap (λ (s : FileState). ok s) same;
        latest_read = d;
        same_content = both _ _ _ _ content;
        same_mode = sym (ap (λ (s : FileState). s.mode) same) ∙ ==→eq finished.mode state.mode mode;
        source_kept = both _ _ _ _ kept;
      }

  -- Why a call raises before it publishes, and the message: the source cannot be read, the destination
  -- is taken, its directory cannot be made, or a step of the copy fails.
  pub data Refusal (c : Copying sha256) : ManifestFault → Type 0 where
    unread : {fault : ManifestFault} → file_state sha256 c.source ≡ err fault → Refusal c fault
    occupied : c.taken ≡ true → Refusal c overwrites
    no_directory : c.made ≡ false → Refusal c os_error
    copy_failed :
        {state : FileState} {fault : ManifestFault}
        → file_state sha256 c.source ≡ ok state
        → check_copy sha256 c state ≡ err fault
        → c.removed ≡ true
        → Refusal c fault
    not_removed :
        {state : FileState} {fault : ManifestFault}
        → file_state sha256 c.source ≡ ok state
        → check_copy sha256 c state ≡ err fault
        → c.removed ≡ false
        → Refusal c os_error

  -- What an archive can come to: the copy is published and nothing is left behind; or the call raises
  -- before the link; or the removal behind the link fails, and the handler tries it again.
  pub data IsOutcome (c : Copying sha256) : Archive sha256 → Type 0 where
    archived :
        {state finished : FileState}
        → IsCopy c state finished
        → c.taken ≡ false
        → c.unlinked ≡ true
        → IsOutcome c (record { result = ok state; published = some finished; leftover = false })
    refused :
        (fault : ManifestFault) (left : Bool)
        → Refusal c fault
        → (left ≡ true → c.removed ≡ false)
        → IsOutcome c (record { result = err fault; published = none; leftover = left })
    stuck :
        {state finished : FileState} (left : Bool)
        → IsCopy c state finished
        → c.taken ≡ false
        → c.unlinked ≡ false
        → (left ≡ true → c.removed ≡ false)
        → IsOutcome c (record { result = err os_error; published = some finished; leftover = left })

  -- The outcomes behind the directories.
  copied :
      (c : Copying sha256) (state : FileState)
      → file_state sha256 c.source ≡ ok state
      → c.taken ≡ false
      → c.made ≡ true
      → ((finished : FileState) × (check_copy sha256 c state ≡ ok finished))
        ⊎ ((fault : ManifestFault) × (check_copy sha256 c state ≡ err fault))
      → (c.removed ≡ true) ⊎ (c.removed ≡ false)
      → (c.unlinked ≡ true) ⊎ (c.unlinked ≡ false)
      → IsOutcome c (archive_file sha256 c)
  unfolding archive_file
  copied c state e t m (inr (fault, f)) (inl r) u =
      simp (archive_file, e, t, m, f, r) (refused fault false (copy_failed e f r) (λ h. cc))
  copied c state e t m (inr (fault, f)) (inr r) u =
      simp (archive_file, e, t, m, f, r) (refused os_error true (not_removed e f r) (λ h. r))
  copied c state e t m (inl (finished, f)) r (inl u) =
      simp (archive_file, e, t, m, f, u) (archived (check_copy-IsCopy c e f) t u)
  copied c state e t m (inl (finished, f)) (inl r) (inr u) =
      simp (archive_file, e, t, m, f, u, r) (stuck false (check_copy-IsCopy c e f) t u (λ h. cc))
  copied c state e t m (inl (finished, f)) (inr r) (inr u) =
      simp (archive_file, e, t, m, f, u, r) (stuck true (check_copy-IsCopy c e f) t u (λ h. r))

module _ (disk : Disk) where
  -- No step of the way from `path` is a symbolic link.
  abbrev pub NoLinks : FilePath → FilePath → Type 0
  NoLinks path [] = Unit
  NoLinks path (part ∷ rest) =
      (disk.is_symlink (path ++ part ∷ []) ≡ false) × NoLinks (path ++ part ∷ []) rest

  negated_true : (b : Bool) → not b ≡ true → b ≡ false
  negated_true true h = cc
  negated_true false h = refl

  append_nil : (path : FilePath) → path ++ [] ≡ path
  append_nil [] = refl
  append_nil (part ∷ path) = ap (λ (p : FilePath). part ∷ p) (append_nil path)

  append_assoc :
      (path : FilePath) (part : String) (rest : FilePath)
      → (path ++ part ∷ []) ++ rest ≡ path ++ part ∷ rest
  append_assoc [] part rest = refl
  append_assoc (p ∷ path) part rest = ap (λ (q : FilePath). p ∷ q) (append_assoc path part rest)

  descend_sound :
      (path rest : FilePath) {found : FilePath}
      → descend disk path rest ≡ ok found
      → (found ≡ path ++ rest) × NoLinks path rest
  unfolding descend
  descend_sound path [] h = (sym (ok_injective h) ∙ sym (append_nil path), tt)
  descend_sound path (part ∷ rest) h =
      let (a, h1) = (require-then (not (disk.is_symlink (path ++ part ∷ []))) symlink _).0 h in
      let (same, free) = descend_sound (path ++ part ∷ []) rest h1 in
      (same ∙ append_assoc path part rest, (negated_true _ a, free))

  -- What a resolved artifact is.
  pub record IsArtifact (directory : FilePath) (value : Value) (path : FilePath) : Type 0 where
    pub relative : FilePath
    pub named : safe_relative_name value ≡ ok relative
    pub joined : path ≡ directory ++ relative
    pub direct : NoLinks directory relative
    pub inside : is_below (disk.resolve directory) (disk.resolve path) ≡ true
    pub is_file : disk.is_file path ≡ true

  -- An artifact that resolves is a regular file at a safe name below the artifact directory, and no
  -- part of the way to it from there is a symbolic link.
  pub resolve_artifact-IsArtifact :
      (directory : FilePath) (value : Value) (path : FilePath)
      → resolve_artifact disk directory value ≡ ok path
      → IsArtifact directory value path
  unfolding resolve_artifact
  resolve_artifact-IsArtifact directory value path h =
      let (relative, a, h1) = >>=-eq-ok (safe_relative_name value) _ h in
      let (found, b, h2) = >>=-eq-ok (descend disk directory relative) _ h1 in
      let (inside, h3) =
        (require-then (is_below (disk.resolve directory) (disk.resolve found)) escapes_artifact _).0
          h2 in
      let (file, h4) = (require-then (disk.is_file found) not_regular _).0 h3 in
      let same = ok_injective h4 in
      let (joined, direct) = descend_sound directory relative b in
      record {
        relative = relative;
        named = a;
        joined = sym same ∙ joined;
        direct = direct;
        inside =
            ap (λ (p : FilePath). is_below (disk.resolve directory) (disk.resolve p)) (sym same)
            ∙ inside;
        is_file = ap disk.is_file (sym same) ∙ file;
      }

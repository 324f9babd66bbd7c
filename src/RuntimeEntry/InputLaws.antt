-- ===== src/RuntimeEntry/InputLaws.antt =====
-- What a verification of the pinned inputs establishes.
use my_ad.Prelude.{
  String, ◌≡◌, refl, sym, ap, ◌∙◌, true, ◌&&◌, List, [], ◌∷◌, ok, err, >>=-eq-ok, require-eq-ok,
  str_eq, str_eq_iff, all, All, Result-cases, inl, inr, is_sha256,
}
use my_ad.Json.{Value, null, str, obj, Fields, get}
use my_ad.StageReport.Host.{Bytes, Entry, absent, unreadable, regular, Files, Host}
use my_ad.Prelude.{require-then, ok_injective}
use my_ad.RuntimeEntry.Inputs.{
  read_manifest_file, bad_pin, manifest_mismatch, incomplete, inputs_of, labels, EntryFault,
  Checked, Paths, digest, Input, path_of, sha256_of, check_input, check_inputs, read_manifest,
  path_not_absolute, record_sha256, input_mismatch, input_state, passed, manifest_passed,
  verify_inputs, is_pin,
}

module _ (host : Host) (paths : Paths) (files : Files) where
  -- The manifest has a record for the label: an absolute path, whose file has the recorded digest.
  pub record IsPinned (records : Fields) (label : String) : Type 0 where
    pub file : Fields
    pub listed : get label records ≡ obj file
    pub path : String
    pub named : get "path" file ≡ str path
    pub rooted : paths.is_absolute path ≡ true
    pub content : Bytes
    pub stored : files path ≡ regular content
    pub recorded : get "sha256" file ≡ str (host.sha256 content)

  digest_sound :
      (path checksum : String)
      → digest host paths files path ≡ ok checksum
      → (content : Bytes) × (files path ≡ regular content) × (host.sha256 content ≡ checksum)
  digest_sound path checksum h = at (files path) refl h
    where
      at :
          (entry : Entry)
          → files path ≡ entry
          → digest host paths files path ≡ ok checksum
          → (content : Bytes) × (files path ≡ regular content) × (host.sha256 content ≡ checksum)
      at absent e k = unfold digest in cc (rw (e, digest) at k)
      at unreadable e k = unfold digest in cc (rw (e, digest) at k)
      at (regular content) e k = (content, e, unfold digest in cc (rw (e, digest) at k))

  path_of_sound :
      (label : String) (v : Value) {path : String}
      → path_of host paths label v ≡ ok path
      → (v ≡ str path) × (paths.is_absolute path ≡ true)
  path_of_sound label (str filename) h =
      let (a, b) =
        (require-then (paths.is_absolute filename) (path_not_absolute label) (ok filename)).0 h in
      let same = ok_injective b in (ap str same, ap paths.is_absolute (sym same) ∙ a)
  path_of_sound label null h = cc
  path_of_sound label _ h = cc

  sha256_of_sound :
      (label : String) (v : Value) {checksum : String}
      → sha256_of host paths label v ≡ ok checksum
      → v ≡ str checksum
  sha256_of_sound label (str c) h =
      ap str (ok_injective ((require-then (is_sha256 c) (record_sha256 label) (ok c)).0 h).1)
  sha256_of_sound label null h = cc
  sha256_of_sound label _ h = cc

  check_input_sound :
      (label : String) (records : Fields) (v : Value) {i : Input}
      → get label records ≡ v
      → check_input host paths files label v ≡ ok i
      → IsPinned records label
  unfolding check_input
  check_input_sound label records (obj file) e h =
      let (path, named, h1) = >>=-eq-ok (path_of host paths label (get "path" file)) _ h in
      let (checksum, recorded, h2) =
        >>=-eq-ok (sha256_of host paths label (get "sha256" file)) _ h1 in
      let (actual, found, h3) = >>=-eq-ok (digest host paths files path) _ h2 in
      let (matches, _) = (require-then (str_eq actual checksum) (input_mismatch label) _).0 h3 in
      let (is_path, rooted) = path_of_sound label (get "path" file) named in
      let (content, stored, sum) = digest_sound path actual found in
      record {
        file = file;
        listed = e;
        path = path;
        named = is_path;
        rooted = rooted;
        content = content;
        stored = stored;
        recorded =
            sha256_of_sound label (get "sha256" file) recorded
            ∙ ap str (sym (sum ∙ (str_eq_iff actual checksum).0 matches));
      }
  check_input_sound label records null e h = cc h
  check_input_sound label records _ e h = cc h

  check_inputs_sound :
      (records : Fields) (names : List String)
      → all passed (check_inputs host paths files records names) ≡ true
      → All (IsPinned records) names
  check_inputs_sound records [] h = tt
  check_inputs_sound records (label ∷ names) h =
      elim (Result-cases (check_input host paths files label (get label records))) [
        | inl (i, e) ↦ (
          check_input_sound label records (get label records) refl e,
          check_inputs_sound records names (rest e h),
        )
        | inr (f, e) ↦ absurd (refused e h)
      ]
    where
      rest :
          {i : Input}
          → check_input host paths files label (get label records) ≡ ok i
          → all passed (check_inputs host paths files records (label ∷ names)) ≡ true
          → all passed (check_inputs host paths files records names) ≡ true
      rest e k = unfold check_inputs in rw (e, check_inputs) at k

      refused :
          {f : EntryFault}
          → check_input host paths files label (get label records) ≡ err f
          → all passed (check_inputs host paths files records (label ∷ names)) ≡ true
          → ⊥
      refused e k = unfold check_inputs in cc (rw (e, check_inputs) at k)

  -- A manifest that was read stands in the file, which has the pinned digest.
  pub record IsManifest (path pin : String) : Type 0 where
    pub encoded : Bytes
    pub stored : files path ≡ regular encoded
    pub checksum : host.sha256 encoded ≡ paths.lower pin

  found :
      (path : String) {encoded : Bytes} (entry : Entry)
      → files path ≡ entry
      → read_manifest_file host paths path entry ≡ ok encoded
      → files path ≡ regular encoded
  found path absent e h = cc
  found path unreadable e h = cc
  found path (regular content) e h = e ∙ ap regular (ok_injective h)

  read_manifest_sound :
      (path pin : String) {records : Fields}
      → read_manifest host paths files path pin ≡ ok records
      → IsManifest path pin
  unfolding read_manifest
  read_manifest_sound path pin h =
      let (_, h1) = (require-then (is_pin pin) bad_pin _).0 h in
      let (encoded, read, h2) = >>=-eq-ok (read_manifest_file host paths path (files path)) _ h1 in
      let (same, _) =
        (require-then (str_eq (host.sha256 encoded) (paths.lower pin)) manifest_mismatch _).0 h2 in
      record {
        encoded = encoded;
        stored = found path (files path) refl read;
        checksum = (str_eq_iff (host.sha256 encoded) (paths.lower pin)).0 same;
      }

  -- When the inputs verify, the manifest was read from the file with the pinned digest, and each of
  -- the six labels has a record in it with an absolute path, whose file has the recorded digest.
  pub verify_inputs_sound :
      (run_dir pin : String)
      → verify_inputs host paths files run_dir pin ≡ ok tt
      → (records : Fields) × (read_manifest host paths files (paths.join run_dir "inputs.json") pin
          ≡ ok records)
        × IsManifest (paths.join run_dir "inputs.json") pin
        × All (IsPinned records) labels
  unfolding verify_inputs input_state
  verify_inputs_sound run_dir pin h =
      at (read_manifest host paths files (paths.join run_dir "inputs.json") pin) refl
        (require-eq-ok _ incomplete h)
    where
      at :
          (m : Checked Fields)
          → read_manifest host paths files (paths.join run_dir "inputs.json") pin ≡ m
          → manifest_passed m && all passed (inputs_of host paths files m) ≡ true
          → (records : Fields) × (read_manifest host paths files
                (paths.join run_dir "inputs.json")
                pin
              ≡ ok records)
            × IsManifest (paths.join run_dir "inputs.json") pin
            × All (IsPinned records) labels
      at (ok records) e k = (
        records,
        e,
        read_manifest_sound (paths.join run_dir "inputs.json") pin e,
        check_inputs_sound records labels k,
      )
      at (err f) e k = cc

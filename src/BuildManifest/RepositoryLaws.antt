-- ===== src/BuildManifest/RepositoryLaws.antt =====
-- capture_build_manifest.py: what a checkout that verifies has in common with its record.
use my_ad.Prelude.{
  String, ◌≡◌, sym, ap, ◌∙◌, true, Option, none, some, ok, >>=-eq-ok, require-then, require-eq-ok,
  ok_injective, str_eq_iff,
}
use my_ad.Json.{Value, null, bool, int, float, str, arr, obj, constant, Items, Fields, get, is_str}
use my_ad.PyText.{same}
use my_ad.PyText.Laws.{same_eq}
use my_ad.StageReport.Host.{Bytes}
use my_ad.BuildManifest.Fault.{
  head_changed, branch_changed, status_changed, patch_changed, diff_changed,
}
use my_ad.BuildManifest.Paths.{FilePath}
use my_ad.BuildManifest.Files.{resolve_artifact}
use my_ad.BuildManifest.FileLaws.{IsArtifact, resolve_artifact-IsArtifact}
use my_ad.BuildManifest.Repository.{
  Checkout, answer, read_or, object, items, state_text, strip_text, check_state, check_diff,
}

pub is_str_eq : (s : String) (value : Value) → is_str s value ≡ true → value ≡ str s
unfolding is_str
is_str_eq s (str t) h = ap (λ (x : String). str x) (sym ((str_eq_iff s t).0 h))
is_str_eq s null h = cc
is_str_eq s (bool b) h = cc
is_str_eq s (int n) h = cc
is_str_eq s (float x) h = cc
is_str_eq s (arr xs) h = cc
is_str_eq s (obj fs) h = cc
is_str_eq s (constant k) h = cc

pub answered : {A : Type 0} (o : Option A) {a : A} → answer o ≡ ok a → o ≡ some a
answered none h = cc
answered {A = A} (some b) h = ap (λ (x : A). some x) (ok_injective h)

was_read : {A : Type 0} (o : Option A) {a : A} → read_or o ≡ ok a → o ≡ some a
was_read none h = cc
was_read {A = A} (some b) h = ap (λ (x : A). some x) (ok_injective h)

pub object_eq : (value : Value) {fields : Fields} → object value ≡ ok fields → value ≡ obj fields
object_eq (obj fs) h = ap (λ (x : Fields). obj x) (ok_injective h)
object_eq _ h = cc

pub items_eq : (value : Value) {xs : Items} → items value ≡ ok xs → value ≡ arr xs
items_eq (arr ys) h = ap (λ (x : Items). arr x) (ok_injective h)
items_eq _ h = cc

module _ (c : Checkout) where
  -- The record of git says what git says.
  pub record IsState (git : Fields) : Type 0 where
    pub head : String
    pub branch : String
    pub status : String
    pub heads : c.head ≡ some head
    pub branches : c.branch ≡ some branch
    pub statuses : c.status ≡ some status
    pub same_head : get "head" git ≡ str (strip_text head)
    pub same_branch : get "branch" git ≡ str (strip_text branch)
    pub same_status : get "status_porcelain" git ≡ str status
    pub same_word : get "status" git ≡ str (state_text status)

  pub check_state-IsState : (git : Fields) → check_state c git ≡ ok tt → IsState git
  unfolding check_state
  check_state-IsState git h =
      let (head, a, h1) = >>=-eq-ok (answer c.head) _ h in
      let (branch, b, h2) = >>=-eq-ok (answer c.branch) _ h1 in
      let (status, d, h3) = >>=-eq-ok (answer c.status) _ h2 in
      let (e, h4) =
        (require-then (is_str (strip_text head) (get "head" git)) head_changed _).0 h3 in
      let (f, h5) =
        (require-then (is_str (strip_text branch) (get "branch" git)) branch_changed _).0 h4 in
      let (g, h6) =
        (require-then (is_str status (get "status_porcelain" git)) status_changed _).0 h5 in
      let w = require-eq-ok (is_str (state_text status) (get "status" git)) status_changed h6 in
      record {
        head = head;
        branch = branch;
        status = status;
        heads = answered c.head a;
        branches = answered c.branch b;
        statuses = answered c.status d;
        same_head = is_str_eq _ _ e;
        same_branch = is_str_eq _ _ f;
        same_status = is_str_eq _ _ g;
        same_word = is_str_eq _ _ w;
      }

  -- The patch is an artifact, and holds the tracked diff of now.
  pub record IsPatch (artifact_dir : FilePath) (tracked : Value) : Type 0 where
    pub diff : Bytes
    pub diffs : c.diff ≡ some diff
    pub fields : Fields
    pub tracked_fields : tracked ≡ obj fields
    pub patch : FilePath
    pub artifact : IsArtifact c.disk artifact_dir (get "path" fields) patch
    pub content : c.read patch ≡ some diff
    pub digested : Bytes
    pub digest_of : c.digested patch ≡ some digested
    pub digest : get "sha256" fields ≡ str (c.sha256 digested)

  pub check_diff-IsPatch :
      (artifact_dir : FilePath) (tracked : Value)
      → check_diff c artifact_dir tracked ≡ ok tt
      → IsPatch artifact_dir tracked
  unfolding check_diff
  check_diff-IsPatch artifact_dir tracked h =
      let (diff, a, h1) = >>=-eq-ok (answer c.diff) _ h in
      let (fields, b, h2) = >>=-eq-ok (object tracked) _ h1 in
      let (patch, d, h3) =
        >>=-eq-ok (resolve_artifact c.disk artifact_dir (get "path" fields)) _ h2 in
      let (digested, e, h4) = >>=-eq-ok (read_or (c.digested patch)) _ h3 in
      let (f, h5) =
        (require-then (is_str (c.sha256 digested) (get "sha256" fields)) patch_changed _).0 h4 in
      let (content, g, h6) = >>=-eq-ok (read_or (c.read patch)) _ h5 in
      let (k, h7) = (require-then (same content diff) diff_changed _).0 h6 in
      record {
        diff = diff;
        diffs = answered c.diff a;
        fields = fields;
        tracked_fields = object_eq tracked b;
        patch = patch;
        artifact = resolve_artifact-IsArtifact c.disk artifact_dir (get "path" fields) patch d;
        content = was_read (c.read patch) g ∙ ap (λ (x : Bytes). some x) (same_eq content diff k);
        digested = digested;
        digest_of = was_read (c.digested patch) e;
        digest = is_str_eq _ _ f;
      }

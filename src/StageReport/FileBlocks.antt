-- ===== src/StageReport/FileBlocks.antt =====
-- The blocks of stage_report.py on file records and evidence, against the specification.
use my_ad.Prelude.{
  String, ◌≡◌, ◌≢◌, refl, ap, ◌∙◌, ◌↔◌, inl, inr, Bool, true, false, not, Option, none, some, List,
  [], ◌∷◌, ◌++◌, arith, is_blank, is_sha256, contains, contains_iff, Among, All-at, Bool-cases,
  append-eq-nil, All-of, Among-append, Among-append_left, Result, ok, err, >>=-eq-ok, require-eq-ok,
  require-then, ok_injective, str_eq_refl, str_eq_ne, str_eq, str_eq_iff,
}
use my_ad.Json.{Value, str, obj, Fields, end, field, get, keys}
use my_ad.StageReport.Fault.{
  Fault, invalid_sha256, no_evidence, missing_evidence, empty_evidence_name, own_evidence,
}
use my_ad.StageReport.Host.{Bytes, Entry, absent, unreadable, regular, Files, Host}
use my_ad.StageReport.Files.{as_result, resolve, digest, sha256_field, file_identity}
use my_ad.StageReport.Content.{
  collect, check_evidence, each_evidence, distinct, missing, required_names, dict_of, is_end,
  evidence_errors,
}
use my_ad.StageReport.Verified.{
  IsText, HasRequired, EachPasses, HasChecks, IsFileRecord, IsIntact, AreIntact, HasEvidence,
}
use my_ad.StageReport.Blocks.{demand-append, not-false, str_injective}
use my_ad.StageReport.CheckBlocks.{missing_iff, required_names-of, obj_of_names}

pub not-true : {b : Bool} → not b ≡ true → b ≡ false
not-true n = ground arith

str_ne : {a b : String} → not (str_eq a b) ≡ true → a ≢ b
str_ne {a} {b} h e = clash h ((str_eq_iff a b).1 e)
  where
    clash : {b : Bool} → not b ≡ true → b ≡ true → ⊥
    clash n t = ground arith

pub collect_iff :
    {A : Type 0} (wrap : Fault → Fault) (r : Result Fault A)
    → (collect wrap r ≡ []) ↔ ((a : A) × (r ≡ ok a))
collect_iff wrap (ok a) = (λ h. (a, refl), λ h. refl)
collect_iff wrap (err e) = (λ h. cc, λ h. cc (h.1))

module _ (host : Host) (files : Files) where
  as_result_iff :
      {A : Type 0} (e : Fault) (o : Option A) (a : A) → (as_result e o ≡ ok a) ↔ (o ≡ some a)
  as_result_iff e none a = (λ h. cc, λ h. cc)
  as_result_iff e (some b) a = (λ h. cc, λ h. cc)

  resolve_iff :
      (v : Value) (base path : String)
      → (resolve host v base ≡ ok path)
        ↔ ((s : String) × (v ≡ str s) × IsText s × (host.resolve base s ≡ some path))
  unfolding resolve
  resolve_iff (str s) base path = (
    λ h.
        let (a, b) = (require-then _ _ _).0 h in
        (s, refl, not-true a, (as_result_iff _ _ path).0 b),
    λ (t, e, visible, found). (require-then _ _ _).1 (
      not-false (rw (str_injective e) visible),
      (as_result_iff _ _ path).1 (rw (str_injective e) found),
    ),
  )
  resolve_iff _ base path = (λ h. cc, λ h. cc (h.1))

  pub digest_iff :
      (path checksum : String)
      → (digest host files path ≡ ok checksum)
        ↔ ((content : Bytes) × (files path ≡ regular content) × (host.sha256 content ≡ checksum))
  unfolding digest
  digest_iff path checksum =
      (λ h. to (files path) refl h, λ (content, e, d). rw (e, digest, d) refl)
    where
      to :
          (entry : Entry)
          → files path ≡ entry
          → digest host files path ≡ ok checksum
          → (content : Bytes) × (files path ≡ regular content) × (host.sha256 content ≡ checksum)
      to absent e h = cc (rw (e, digest) at h)
      to unreadable e h = cc (rw (e, digest) at h)
      to (regular content) e h = (content, e, ok_injective (rw (e, digest) at h))

  sha256_field_iff :
      (path : String) (v : Value) (checksum : String)
      → (sha256_field host path v ≡ ok checksum)
        ↔ ((v ≡ str checksum) × (is_sha256 checksum ≡ true))
  sha256_field_iff path (str s) checksum = (
    λ h.
        let (a, b) = (require-then (is_sha256 s) (invalid_sha256 path) (ok s)).0 h in
        (ap str (ok_injective b), rw (ok_injective b) at a),
    λ (e, well). (require-then _ _ _).1 (rw (str_injective e) well, ap ok (str_injective e)),
  )
  sha256_field_iff path _ checksum = (λ h. cc, λ h. cc (h.0))

  pub file_identity_sound :
      (v : Value) (base path checksum : String)
      → file_identity host v base ≡ ok (path, checksum)
      → (item : Fields) × (v ≡ obj item) × IsFileRecord host files item base path checksum
  unfolding file_identity
  file_identity_sound (obj item) base path checksum h =
      let (p, resolved, more) = >>=-eq-ok (resolve host (get "path" item) base) _ h in
      let (c, listed, e) = >>=-eq-ok (sha256_field host p (get "sha256" item)) _ more in
      let same : ◌≡◌ {A = String × String} (p, c) (path, checksum) = ok_injective e in
      let (s, named, visible, found) =
        (resolve_iff (get "path" item) base path).0
          (resolved ∙ ap ok (ap (λ (t : String × String). t.0) same)) in
      let (is_sum, well) =
        (sha256_field_iff p (get "sha256" item) checksum).0
          (listed ∙ ap ok (ap (λ (t : String × String). t.1) same)) in
      (
        item,
        refl,
        record {
          location = s;
          named = named;
          visible = visible;
          resolved = found;
          listed = is_sum;
          well_formed = well;
        },
      )
  file_identity_sound _ base path checksum h = cc

  pub file_identity_complete :
      {item : Fields} {base path checksum : String}
      → IsFileRecord host files item base path checksum
      → file_identity host (obj item) base ≡ ok (path, checksum)
  unfolding file_identity
  file_identity_complete {item} {base} {path} {checksum} r =
      rw
        (
          (resolve_iff (get "path" item) base path).1 (r.location, r.named, r.visible, r.resolved),
          (sha256_field_iff path (get "sha256" item) checksum).1 (r.listed, r.well_formed),
        )
        refl

  -- One entry of the evidence, from its name to its digest.
  check_evidence_iff :
      (path name : String) (v : Value)
      → ((u : Unit {0}) × (check_evidence host files path name v ≡ ok u))
        ↔ (IsText name × IsIntact host files path v)
  check_evidence_iff path name v = (
    λ (u, h).
        let (named, h1) = (require-then (not (is_blank name)) empty_evidence_name _).0 h in
        let ((p, c), identity, h2) = >>=-eq-ok (file_identity host v (host.parent path)) _ h1 in
        let (other, h3) = (require-then (not (str_eq p path)) own_evidence _).0 h2 in
        let (actual, digested, h4) = >>=-eq-ok (digest host files p) _ h3 in
        let (item, is_obj, record_) = file_identity_sound v (host.parent path) p c identity in
        let (content, stored, sum) = (digest_iff p actual).0 digested in
        (
          not-true named,
          record {
            item = item;
            is_obj = is_obj;
            path = p;
            checksum = c;
            identity = record_;
            other = str_ne other;
            content = content;
            stored = stored;
            digest = sum ∙ (str_eq_iff actual c).0 (require-eq-ok _ _ h4);
          },
        ),
    λ (named, i). (
      tt,
      rw
          (
            named,
            i.is_obj,
            file_identity_complete i.identity,
            str_eq_ne i.path path i.other,
            (digest_iff i.path i.checksum).1 (i.content, i.stored, i.digest),
            str_eq_refl i.checksum,
          )
          refl,
    ),
  )

  each_evidence_iff :
      (path : String) (fs : Fields)
      → (each_evidence host files path fs ≡ []) ↔ AreIntact host files path fs
  unfolding each_evidence
  each_evidence_iff path end = (λ h. tt, λ a. refl)
  each_evidence_iff path (field name v fs) = (
    λ h.
        let (a, b) = (append-eq-nil _ (each_evidence host files path fs)).0 h in
        let (named, intact) =
          (check_evidence_iff path name v).0
            ((collect_iff (Fault.evidence name) (check_evidence host files path name v)).0 a) in
        (named, intact, (each_evidence_iff path fs).0 b),
    λ (named, intact, rest). (append-eq-nil _ (each_evidence host files path fs)).1 (
      (collect_iff (Fault.evidence name) (check_evidence host files path name v)).1
          ((check_evidence_iff path name v).1 (named, intact)),
      (each_evidence_iff path fs).1 rest,
    ),
  )

Among-distinct : (a : String) (names : List String) → Among a (distinct names) ↔ Among a names
unfolding distinct
Among-distinct a [] = (λ m. m, λ m. m)
Among-distinct a (name ∷ names) = elim (Bool-cases (contains name names)) [
  | inl e ↦
      rw (e, distinct)
        (
          λ m. inr ((Among-distinct a names).0 m),
          elim [
            | inl same ↦ (Among-distinct a names).1 (rw same ((contains_iff name names).0 e))
            | inr m ↦ (Among-distinct a names).1 m
          ],
        )
  | inr e ↦
      rw (e, distinct)
        (
          elim [ inl same ↦ inl same | inr m ↦ inr ((Among-distinct a names).0 m) ],
          elim [ inl same ↦ inl same | inr m ↦ inr ((Among-distinct a names).1 m) ],
        )
]

EachPasses-keys :
    (a : String) (names : List String) (fs : Fields)
    → EachPasses names fs
    → Among a (keys fs)
    → Among a names
EachPasses-keys a names end p m = elim m [ ]
EachPasses-keys a names (field k v fs) p (inl e) = rw e p.0
EachPasses-keys a names (field k v fs) p (inr m) = EachPasses-keys a names fs p.2 m

module _ (host : Host) (files : Files) (path : String) {report : Fields} {names : List String}
    (r : HasRequired report names) (c : HasChecks report names) where
  abbrev present : Fields
  present = dict_of (get "evidence" report)

  abbrev wanted : List String
  wanted = distinct (required_names report ++ keys (dict_of (get "checks" report)))

  -- The required names are the names of the required and the reported checks.
  wanted-names : (a : String) → Among a wanted ↔ Among a names
  wanted-names a = (
    λ m. elim (Among-append a (required_names report) _ ((Among-distinct a _).0 m)) [
      | inl l ↦ rw (← required_names-of r) l
      | inr k ↦ EachPasses-keys a names c.checks c.passed (rw (ap dict_of c.is_obj) at k)
    ],
    λ m.
        (Among-distinct a _).1
          (Among-append_left a (required_names report) _ (rw (required_names-of r) m)),
  )

  pub evidence_iff :
      (evidence_errors host files path report ≡ []) ↔ HasEvidence host files path report names
  unfolding evidence_errors
  evidence_iff = (
    λ h.
        let (_, rest) =
          (demand-append (not (is_end present)) no_evidence
              (missing missing_evidence present wanted ++ each_evidence host files path present)).0
            h in
        let (a, b) =
          (append-eq-nil (missing missing_evidence present wanted)
              (each_evidence host files path present)).0
            rest in
        let listed = (missing_iff missing_evidence present wanted).0 a in
        let complete =
          All-of (λ name. Among name (keys present)) names
            (λ n m.
              All-at (λ name. Among name (keys present)) wanted listed ((wanted-names n).1 m)) in
        record {
          evidence = present;
          is_obj = (obj_of_names (get "evidence" report) names r.some_name complete).0;
          complete = complete;
          intact = (each_evidence_iff host files path present).0 b;
        },
    λ e.
        let there : present ≡ e.evidence = ap dict_of e.is_obj in
        let complete = rw (← there) at e.complete in
        (demand-append (not (is_end present)) no_evidence
            (missing missing_evidence present wanted ++ each_evidence host files path present)).1
          (
            (obj_of_names (get "evidence" report) names r.some_name complete).1,
            (append-eq-nil (missing missing_evidence present wanted)
                  (each_evidence host files path present)).1
                (
                  (missing_iff missing_evidence present wanted).1 (
                      All-of (λ name. Among name (keys present)) wanted
                        (λ n m.
                          All-at (λ name. Among name (keys present)) names complete
                            ((wanted-names n).0 m))),
                  (each_evidence_iff host files path present).1 (rw there e.intact),
                ),
          ),
  )

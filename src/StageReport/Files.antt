-- ===== src/StageReport/Files.antt =====
-- stage_report.py: the helpers on paths, digests and file records.
use my_ad.Prelude.{
  String, not, Option, none, some, Result, ok, err, ◌>>=◌, ◌>>◌, require, is_blank, is_sha256,
}
use my_ad.Json.{Value, null, str, obj, end, field, get}
use my_ad.StageReport.Fault.{
  Fault, empty_path, invalid_path, not_regular, os_error, not_object, invalid_sha256,
}
use my_ad.StageReport.Host.{absent, unreadable, regular, Files, Host}

abbrev pub Checked : Type 0 → Type 0
Checked A = Result Fault A

abbrev pub as_result {ℓ} : {A : Type ℓ} → Fault → Option A → Result Fault A
as_result e none = err e
as_result e (some a) = ok a

module _ (host : Host) where
  -- `_resolve`
  unfoldable pub resolve : Value → String → Checked String
  resolve (str value) base =
      require (not (is_blank value)) empty_path
      >> as_result (invalid_path value) (host.resolve base value)
  resolve _ base = err empty_path

  -- `_digest`: reading in blocks does not show in the digest
  unfoldable pub digest : Files → String → Checked String
  digest files path = elim (files path) [
    | absent ↦ err (not_regular path)
    | unreadable ↦ err (os_error path)
    | regular content ↦ ok (host.sha256 content)
  ]

  abbrev snapshot_at : Files → String → String → Checked String → Value
  snapshot_at files base value (ok path) = elim (digest files path) [
    | ok checksum ↦
        obj (field "path" (str (host.relpath path base)) (field "sha256" (str checksum) end))
    | err _ ↦ obj (field "path" (str (host.relpath path base)) (field "sha256" null end))
  ]
  snapshot_at files base value (err _) = obj (field "path" (str value) (field "sha256" null end))

  -- `_snapshot`: a file that is missing or unreadable leaves a record with no digest
  unfoldable pub snapshot : Files → String → String → Value
  snapshot files value base = snapshot_at files base value (resolve (str value) host.cwd)

  -- `checksum` is a `str` that matches [0-9a-f]{64}
  abbrev pub sha256_field : String → Value → Checked String
  sha256_field path (str checksum) =
      require (is_sha256 checksum) (invalid_sha256 path) >> ok checksum
  sha256_field path _ = err (invalid_sha256 path)

  -- `_file_identity`
  unfoldable pub file_identity : Value → String → Checked (String × String)
  file_identity (obj record_fields) base = do
    path ← resolve (get "path" record_fields) base
    checksum ← sha256_field path (get "sha256" record_fields)
    ok (path, checksum)
  file_identity _ base = err not_object

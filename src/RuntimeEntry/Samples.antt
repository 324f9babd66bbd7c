-- ===== src/RuntimeEntry/Samples.antt =====
-- A run directory whose inputs verify.
use my_ad.Prelude.{
  String, ◌≡◌, refl, true, false, some, [], ◌∷◌, ok, All, str_eq, contains, is_hex_lower, is_sha256,
}
use my_ad.Prelude.Int.{pos}
use my_ad.Json.{Value, int, str, obj, Fields, end, field, is_int, unique_object, build}
use my_ad.StageReport.Host.{regular, Files, Host}
use my_ad.RuntimeEntry.Inputs.{
  labels, Paths, is_pin, digest, check_input, check_inputs, read_manifest, input_state,
  verify_inputs,
}
use my_ad.RuntimeEntry.InputLaws.{IsPinned, IsManifest, verify_inputs_sound}

abbrev checksum : String
checksum = "0123456789abcdef0123456789abcdef0123456789abcdef0123456789abcdef"

abbrev pinned : String → Value
pinned path = obj (field "path" (str path) (field "sha256" (str checksum) end))

abbrev records : Fields
records = field "wheel" (pinned "/in/wheel") (
    field "wrapper" (pinned "/in/wrapper") (
      field "evaluator" (pinned "/in/evaluator") (
        field "stage-writer" (pinned "/in/stage-writer") (
          field "provenance" (pinned "/in/provenance")
            (field "entry-reporter" (pinned "/in/entry-reporter") end)))))

abbrev machine : Host
machine = record {
  resolve = λ base value. some value;
  parent = λ path. "/run";
  relpath = λ path base. path;
  cwd = "/run";
  sha256 = λ content. checksum;
  parse = λ raw. ok (obj (field "schema_version" (int (pos 1)) (field "files" (obj records) end)));
  dump = λ value. some (123 ∷ []);
  writable = λ path. true;
  utcoffset = λ text. some true;
  message = λ fault. "rejected";
}

abbrev paths : Paths
paths = record {
  absolute = λ path. path;
  is_absolute = λ path. true;
  is_symlink = λ path. false;
  join = λ base name. "/run/inputs.json";
  lower = λ text. text;
}

abbrev files : Files
files path = regular (1 ∷ [])

verified : verify_inputs machine paths files "/run" checksum ≡ ok tt
unfolding verify_inputs input_state check_inputs check_input read_manifest digest is_pin labels
    is_int unique_object build str_eq contains is_hex_lower is_sha256
verified = refl

verify_inputs_sound_example :
    (found : Fields) × (read_manifest machine paths files "/run/inputs.json" checksum ≡ ok found)
    × IsManifest machine paths files "/run/inputs.json" checksum
    × All (IsPinned machine paths files found) labels
verify_inputs_sound_example = verify_inputs_sound machine paths files "/run" checksum verified

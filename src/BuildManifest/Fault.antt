-- ===== src/BuildManifest/Fault.antt =====
-- capture_build_manifest.py: `ManifestError`, by its messages.

pub data ManifestFault : Type 0 where
  cannot_stat cannot_read not_regular became_non_regular file_changed incomplete_read :
      ManifestFault
  not_relative escapes_root contains_nul symlink escapes_artifact : ManifestFault
  overwrites content_mismatch mode_mismatch source_changed os_error : ManifestFault
  bad_commit repeated_source no_usable_commits : ManifestFault
  bad_ledger bad_entries bad_entry bad_identifier missing_text bad_paths missing_path
        bad_validation :
      ManifestFault
  not_arm64 no_docker docker_failed : ManifestFault
  git_failed bad_head bad_record root_mismatch head_changed branch_changed status_changed :
      ManifestFault
  patch_changed diff_changed diff_size_changed : ManifestFault
  bad_metadata metadata_changed snapshot_changed file_set_changed : ManifestFault

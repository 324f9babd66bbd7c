-- ===== src/Comparison/Samples.antt =====
-- The comparison at concrete machines.
use my_ad.Prelude.{
  ◌≡◌, ◌≢◌, ◌↔◌, ◌⊎◌, refl, true, false, none, some, List, [], ◌∷◌, map, ok, err, All, codes,
  str_eq, contains, is_space,
}
use my_ad.Comparison.Decision.{
  pass, fail, blocked, classify, blocked_reason, parse_decision, parse_artifact_path,
}
use my_ad.PyText.{Text, lstrip, strip, after_prefix, partition, assign, field_of, words}
use my_ad.Comparison.Runs.{
  configs, expired, ended, Machine, Run, host_run_dir, run_config, run_all, comparable,
  first_blocked, status_of, summarize, key_error, summary_rows, select, main,
}
use my_ad.Comparison.Laws.{IsLast, classify-reason, summarize_iff, main-zero, main-key_error}

abbrev decision_lines : List Text
decision_lines = codes "- Status: FAIL" ∷ codes "- Step: load" ∷ []

-- Every gate fails, in one directory.
abbrev failing : Machine
failing = record {
  make = λ config. ended (codes "artifacts=/w/artifacts/r");
  parts = λ path. codes "/" ∷ codes "artifacts" ∷ codes "r" ∷ [];
  is_dir = λ dir. true;
  decision = λ dir. decision_lines;
}

-- No gate ends in time.
abbrev slow : Machine
slow = record {
  make = λ config. expired;
  parts = λ path. [];
  is_dir = λ dir. false;
  decision = λ dir. [];
}

classify-reason_example :
    (classify decision_lines ≡ fail → blocked_reason decision_lines ≡ none)
    × (classify decision_lines ≡ blocked → blocked_reason decision_lines ≢ none)
classify-reason_example = classify-reason decision_lines

abbrev one_run : List Run
one_run =
    record { config = "control"; status = fail; run_dir = none; decision = some []; reason = none }
    ∷ []

summarize_iff_example :
    (summarize one_run ≡ comparable)
    ↔ (All (λ run. run.status ≢ blocked) one_run × IsLast "control" fail one_run)
summarize_iff_example = summarize_iff one_run

compared : main failing ("control" ∷ []) false ≡ ok 0
unfolding main run_all run_config host_run_dir parse_artifact_path words after_prefix classify
    blocked_reason parse_decision lstrip strip partition assign field_of first_blocked status_of
    summarize summary_rows select configs str_eq contains is_space
compared = refl

main-zero_example :
    All
      (λ config.
        ((run_config failing config).status ≡ pass) ⊎ ((run_config failing config).status ≡ fail))
      (select ("control" ∷ []) configs)
    × (status_of "control" (map (run_config failing) (select ("control" ∷ []) configs)) ≡ some fail)
main-zero_example = main-zero failing ("control" ∷ []) false compared

chosen : select ("control" ∷ []) configs ≡ record { name = "control"; make_env = [] } ∷ []
unfolding select configs str_eq contains
chosen = refl

main-key_error_example : main slow ("control" ∷ []) true ≡ err key_error
unfolding configs str_eq contains
main-key_error_example =
    main-key_error slow ("control" ∷ []) true (record { name = "control"; make_env = [] }) [] refl
      chosen refl

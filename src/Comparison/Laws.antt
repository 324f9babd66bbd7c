-- ===== src/Comparison/Laws.antt =====
-- What the comparison's verdict means, and what a gate that gives no run directory does to it.
use my_ad.Prelude.{
  String, ◌≡◌, ◌≢◌, ◌↔◌, ◌⊎◌, inl, inr, refl, sym, ap, ◌∙◌, Bool, true, false, not, ◌&&◌, none,
  some, List, [], ◌∷◌, ◌++◌, map, ok, err, arith, All, Bool-cases, all, contains, subst, &&-eq-true,
  Option-cases, str_eq, str_eq_iff,
}
use my_ad.Comparison.Decision.{Status, pass, fail, blocked, not_run, classify, blocked_reason}
use my_ad.PyText.{Text}
use my_ad.Comparison.Runs.{
  Config, configs, expired, Machine, Run, run_config, skip, is_blocked, run_all, Overall,
  blocked_by, no_baseline, comparable, first_blocked, status_of, summarize, key_error, summary_rows,
  select, exit_code, main,
}

-- A run that fails has no reason for being blocked, and one that is blocked has one.
pub classify-reason :
    (lines : List Text)
    → (classify lines ≡ fail → blocked_reason lines ≡ none)
      × (classify lines ≡ blocked → blocked_reason lines ≢ none)
unfolding classify blocked_reason
classify-reason lines = (λ h. ground arith, λ h k. ground arith)

not_blocked : {s t : Status} → s ≡ t → t ≢ blocked → s ≢ blocked
not_blocked e n b = n (sym e ∙ b)

blocked_of : (s : Status) → is_blocked s ≡ true → s ≡ blocked
blocked_of blocked h = refl
blocked_of pass h = cc
blocked_of fail h = cc
blocked_of not_run h = cc

verdict_of : (s : Status) → s ≢ blocked → s ≢ not_run → (s ≡ pass) ⊎ (s ≡ fail)
verdict_of pass b n = inl refl
verdict_of fail b n = inr refl
verdict_of blocked b n = absurd (b refl)
verdict_of not_run b n = absurd (n refl)

-- One run more, by the status of the run.
first_blocked_cons :
    (run : Run) (runs : List Run) (s : Status)
    → run.status ≡ s
    → (first_blocked runs ≡ none) ↔ All (λ r. r.status ≢ blocked) runs
    → (first_blocked (run ∷ runs) ≡ none)
      ↔ ((run.status ≢ blocked) × All (λ r. r.status ≢ blocked) runs)
unfolding first_blocked
first_blocked_cons run runs blocked e ih =
    (λ h. cc (rw (first_blocked, e) at h), λ a. absurd (a.0 e))
first_blocked_cons run runs pass e ih = (
  λ h. (not_blocked e (λ p. cc), ih.0 (rw (first_blocked, e) at h)),
  λ a. rw (first_blocked, e) (ih.1 a.1),
)
first_blocked_cons run runs fail e ih = (
  λ h. (not_blocked e (λ p. cc), ih.0 (rw (first_blocked, e) at h)),
  λ a. rw (first_blocked, e) (ih.1 a.1),
)
first_blocked_cons run runs not_run e ih = (
  λ h. (not_blocked e (λ p. cc), ih.0 (rw (first_blocked, e) at h)),
  λ a. rw (first_blocked, e) (ih.1 a.1),
)

first_blocked-none :
    (runs : List Run) → (first_blocked runs ≡ none) ↔ All (λ run. run.status ≢ blocked) runs
first_blocked-none [] = (λ h. tt, λ a. unfold first_blocked in refl)
first_blocked-none (run ∷ runs) =
    first_blocked_cons run runs run.status refl (first_blocked-none runs)

-- The last run of that name has the status: the runs after it have other names.
pub record IsLast (name : String) (status : Status) (runs : List Run) : Type 0 where
  pub before : List Run
  pub run : Run
  pub after : List Run
  pub split : runs ≡ before ++ run ∷ after
  pub named : run.config ≡ name
  pub ended : run.status ≡ status
  pub last : All (λ r. r.config ≢ name) after

no_run_iff :
    (name : String) (runs : List Run)
    → (status_of name runs ≡ none) ↔ All (λ r. r.config ≢ name) runs
unfolding status_of
no_run_iff name [] = (λ h. tt, λ a. refl)
no_run_iff name (run ∷ runs) = elim (Option-cases (status_of name runs)) [
  | inr (s, e) ↦ (λ h. cc (rw (status_of, e) at h), λ a. cc (e, (no_run_iff name runs).1 a.1))
  | inl e ↦ elim (Bool-cases (str_eq run.config name)) [
    | inl n ↦
        (λ h. cc (rw (status_of, e, n) at h), λ a. absurd (a.0 ((str_eq_iff run.config name).0 n)))
    | inr n ↦ (
      λ h. (λ q. cc (n, (str_eq_iff run.config name).1 q), (no_run_iff name runs).0 e),
      λ a. rw (status_of, e, n) refl,
    )
  ]
]

status_of-IsLast :
    (name : String) (s : Status) (runs : List Run)
    → status_of name runs ≡ some s
    → IsLast name s runs
unfolding status_of
status_of-IsLast name s [] h = cc
status_of-IsLast name s (run ∷ runs) h = elim (Option-cases (status_of name runs)) [
  | inr (t, e) ↦
      let l = status_of-IsLast name t runs e in
      record {
        before = run ∷ l.before;
        run = l.run;
        after = l.after;
        split = ap (λ (x : List Run). run ∷ x) l.split;
        named = l.named;
        ended = l.ended ∙ some_injective (rw (status_of, e) at h);
        last = l.last;
      }
  | inl e ↦ elim (Bool-cases (str_eq run.config name)) [
    | inr n ↦ cc (rw (status_of, e, n) at h)
    | inl n ↦ record {
      before = [];
      run = run;
      after = runs;
      split = refl;
      named = (str_eq_iff run.config name).0 n;
      ended = some_injective (rw (status_of, e, n) at h);
      last = (no_run_iff name runs).0 e;
    }
  ]
]
  where
    some_injective : {x y : Status} → some x ≡ some y → x ≡ y
    some_injective q = cc

status_of-append :
    (name : String) (before : List Run) (run : Run) (after : List Run)
    → run.config ≡ name
    → All (λ r. r.config ≢ name) after
    → status_of name (before ++ run ∷ after) ≡ some run.status
unfolding status_of
status_of-append name [] run after n a =
    rw (status_of, (no_run_iff name after).1 a, (str_eq_iff run.config name).1 n) refl
status_of-append name (r ∷ before) run after n a =
    rw (status_of, status_of-append name before run after n a) refl

IsLast-status_of :
    (name : String) (s : Status) (runs : List Run)
    → IsLast name s runs
    → status_of name runs ≡ some s
IsLast-status_of name s runs l =
    ap (status_of name) l.split
    ∙ status_of-append name l.before l.run l.after l.named l.last
    ∙ ap (λ (t : Status). some t) l.ended

comparable_iff :
    (runs : List Run)
    → (summarize runs ≡ comparable)
      ↔ (All (λ run. run.status ≢ blocked) runs × (status_of "control" runs ≡ some fail))
comparable_iff runs = (
  λ h. let (clear, control) = sound h in ((first_blocked-none runs).0 clear, control),
  λ (clear, control). complete ((first_blocked-none runs).1 clear) control,
)
  where
    sound :
        summarize runs ≡ comparable
        → (first_blocked runs ≡ none) × (status_of "control" runs ≡ some fail)
    sound h = unfold summarize in ground arith

    complete :
        first_blocked runs ≡ none
        → status_of "control" runs ≡ some fail
        → summarize runs ≡ comparable
    complete a b = unfold summarize in rw (a, summarize, b)

-- The whole is comparable exactly when no run was blocked and there is a run of the configuration
-- named "control", the last of which failed.
pub summarize_iff :
    (runs : List Run)
    → (summarize runs ≡ comparable)
      ↔ (All (λ run. run.status ≢ blocked) runs × IsLast "control" fail runs)
summarize_iff runs =
    let (to, from) = comparable_iff runs in
    (
      λ h. let (clear, control) = to h in (clear, status_of-IsLast "control" fail runs control),
      λ (clear, control). from (clear, IsLast-status_of "control" fail runs control),
    )

module _ (machine : Machine) where
  run_all-go :
      (keep_going : Bool) (config : Config) (rest : List Config)
      → (is_blocked (run_config machine config).status && not keep_going) ≡ false
      → run_all machine keep_going (config ∷ rest)
        ≡ run_config machine config ∷ run_all machine keep_going rest
  unfolding run_all
  run_all-go keep_going config rest e = rw e refl

  run_all-stop :
      (keep_going : Bool) (config : Config) (rest : List Config)
      → (is_blocked (run_config machine config).status && not keep_going) ≡ true
      → run_all machine keep_going (config ∷ rest) ≡ run_config machine config ∷ map skip rest
  unfolding run_all
  run_all-stop keep_going config rest e = rw e refl

  -- A run that was made is not skipped.
  run_config-ran : (config : Config) → (run_config machine config).status ≢ not_run
  unfolding run_config classify
  run_config-ran config h = ground arith

  -- With no blocked run, no configuration was skipped.
  run_all-clear :
      (keep_going : Bool) (selected : List Config)
      → All (λ run. run.status ≢ blocked) (run_all machine keep_going selected)
      → run_all machine keep_going selected ≡ map (run_config machine) selected
  run_all-clear keep_going [] h = unfold run_all in refl
  run_all-clear keep_going (config ∷ rest) h =
      elim (Bool-cases (is_blocked (run_config machine config).status && not keep_going)) [
        | inl stop ↦
            let a : All (λ run. run.status ≢ blocked) (run_config machine config ∷ map skip rest) =
              subst (All (λ run. run.status ≢ blocked)) (run_all-stop keep_going config rest stop)
                h in
            absurd (a.0 (blocked_of (run_config machine config).status ((&&-eq-true _ _).0 stop).0))
        | inr go ↦
            let a : All (λ run. run.status ≢ blocked)
                (run_config machine config ∷ run_all machine keep_going rest) =
              subst (All (λ run. run.status ≢ blocked)) (run_all-go keep_going config rest go) h in
            run_all-go keep_going config rest go
            ∙ ap (λ (l : List Run). run_config machine config ∷ l)
                (run_all-clear keep_going rest a.1)
      ]

  -- The command exits with 0 only if every selected configuration was run and gave a verdict on
  -- the product, PASS or FAIL, and the control run, which is one of them, failed.
  pub main-zero :
      (wanted : List String) (keep_going : Bool)
      → main machine wanted keep_going ≡ ok 0
      → All
          (λ config.
            ((run_config machine config).status ≡ pass)
            ⊎ ((run_config machine config).status ≡ fail))
          (select wanted configs)
        × (status_of "control" (map (run_config machine) (select wanted configs)) ≡ some fail)
  main-zero wanted keep_going h =
      let (clear, control) = (comparable_iff _).0 (zero_comparable h) in
      let ran = run_all-clear keep_going (select wanted configs) clear in
      (
        verdicts (select wanted configs) (subst (All (λ run. run.status ≢ blocked)) ran clear),
        ap (status_of "control") (sym ran) ∙ control,
      )
    where
      comparable_of : (o : Overall) → exit_code o ≡ 0 → o ≡ comparable
      comparable_of comparable e = refl
      comparable_of (blocked_by r) e = absurd (omega arith)
      comparable_of (no_baseline s) e = absurd (omega arith)

      zero_comparable :
          main machine wanted keep_going ≡ ok 0
          → summarize (run_all machine keep_going (select wanted configs)) ≡ comparable
      zero_comparable e =
          comparable_of (summarize (run_all machine keep_going (select wanted configs)))
            (unfold main in ground arith)

      verdicts :
          (l : List Config)
          → All (λ run. run.status ≢ blocked) (map (run_config machine) l)
          → All
              (λ config.
                ((run_config machine config).status ≡ pass)
                ⊎ ((run_config machine config).status ≡ fail))
              l
      verdicts [] a = tt
      verdicts (c ∷ l) a = (verdict_of _ a.0 (run_config-ran c), verdicts l a.1)

  first_raises :
      (config : Config) (rest : List Config) (keep_going : Bool)
      → machine.make config ≡ expired
      → summary_rows (run_all machine keep_going (config ∷ rest)) ≡ err key_error
  unfolding summary_rows
  first_raises config rest keep_going late =
      elim (Bool-cases (is_blocked (run_config machine config).status && not keep_going)) [
        | inl stop ↦ rw (run_all-stop keep_going config rest stop, no_decision) refl
        | inr go ↦ rw (run_all-go keep_going config rest go, no_decision) refl
      ]
    where
      no_decision : (run_config machine config).decision ≡ none
      no_decision = unfold run_config in rw late refl

  -- With known configuration names, a first one whose gate does not finish in time leaves a record
  -- with no decision, and
  -- the table of the summary then raises KeyError, whatever the other runs did.
  pub main-key_error :
      (wanted : List String) (keep_going : Bool) (config : Config) (rest : List Config)
      → all (λ name. contains name (map (λ c. c.name) configs)) wanted ≡ true
      → select wanted configs ≡ config ∷ rest
      → machine.make config ≡ expired
      → main machine wanted keep_going ≡ err key_error
  main-key_error wanted keep_going config rest known chosen late =
      unfold main in rw (known, chosen, first_raises config rest keep_going late) refl

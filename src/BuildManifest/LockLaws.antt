-- ===== src/BuildManifest/LockLaws.antt =====
-- capture_build_manifest.py: the pins that source.lock can hold, and what a report without drift says.
use my_ad.Prelude.{
  String, ◌≡◌, ◌↔◌, ◌⊎◌, refl, sym, ap, ◌∙◌, subst, true, false, not, Option, none, some, List, [],
  ◌∷◌, Result, ok, >>=-eq-ok, require-then, ok_injective, Bool-cases, Option-cases, inl, inr, All,
  codes, if◌then◌else◌,
}
use my_ad.Json.{Value, null, bool, int, float, str, arr, obj, constant, Fields}
use my_ad.PyText.{Text, find}
use my_ad.PyText.Laws.{same_refl, same_eq, AreFresh}
use my_ad.BuildManifest.Fault.{ManifestFault, bad_commit, repeated_source, no_usable_commits}
use my_ad.BuildManifest.Lock.{
  is_commit, is_pinned, Reading, pin_source, read_commit, read_line, read_lines, LockFile, no_lock,
  not_a_file, lock_lines, source_lock_sources, lock_source_repos, DriftReport, head_of, is_head,
  state_of, is_drifted, drift_entries, drifted_names, source_lock_drift, is_top, source_of,
  commit_of,
}

-- No source is pinned twice, and every pin is a commit of 40 lowercase hexadecimal digits.
abbrev pub ArePins : List (Text × Text) → Type 0
ArePins pins = AreFresh pins × All (λ (p : Text × Text). is_commit p.1 ≡ true) pins

not_pinned :
    (name : Text) (pins : List (Text × Text))
    → not (is_pinned name pins) ≡ true
    → find name pins ≡ none
not_pinned name pins h = elim (Option-cases (find name pins)) [
  | inl e ↦ e
  | inr (v, e) ↦ cc (rw (not, e) at h)
]

pin_source-ArePins :
    (name value : Text) (reading next : Reading)
    → ArePins reading.pins
    → pin_source name value reading ≡ ok next
    → ArePins next.pins
unfolding pin_source
pin_source-ArePins name value reading next inv h =
    let (commit, h1) = (require-then (is_commit value) bad_commit _).0 h in
    let (new, h2) = (require-then (not (is_pinned name reading.pins)) repeated_source _).0 h1 in
    subst (λ (r : Reading). ArePins r.pins) (ok_injective h2)
      ((not_pinned name reading.pins new, inv.0), (commit, inv.1))

-- A reading that is returned as it is, or with another place in the file, has the same pins.
unchanged :
    (pins : List (Text × Text)) (reading next : Reading)
    → reading.pins ≡ pins
    → ArePins pins
    → ◌≡◌ {A = Result ManifestFault Reading} (ok reading) (ok next)
    → ArePins next.pins
unchanged pins reading next e inv h =
    subst (λ (r : Reading). ArePins r.pins) (ok_injective h) (rw e inv)

read_commit-ArePins :
    (line : Text) (reading next : Reading)
    → ArePins reading.pins
    → read_commit line reading ≡ ok next
    → ArePins next.pins
read_commit-ArePins line reading next inv h =
    by_cases reading.current (commit_of line) (Bool-cases reading.in_sources) h
  where
    by_cases :
        (current commit : Option Text)
        → (reading.in_sources ≡ true) ⊎ (reading.in_sources ≡ false)
        → (elim current [
          | none ↦ ok reading
          | some name ↦ elim commit [
            | none ↦ ok reading
            | some value ↦ if reading.in_sources then pin_source name value reading else ok reading
          ]
        ])
          ≡ ok next
        → ArePins next.pins
    by_cases none commit c e = unchanged reading.pins reading next refl inv e
    by_cases (some name) none c e = unchanged reading.pins reading next refl inv e
    by_cases (some name) (some value) (inl c) e =
        pin_source-ArePins name value reading next inv (simp c at e)
    by_cases (some name) (some value) (inr c) e =
        unchanged reading.pins reading next refl inv (simp c at e)

read_line-ArePins :
    (line : Text) (reading next : Reading)
    → ArePins reading.pins
    → read_line line reading ≡ ok next
    → ArePins next.pins
unfolding read_line
read_line-ArePins line reading next inv h =
    by_cases (Bool-cases (is_top line)) (Option-cases (source_of line))
      (Bool-cases reading.in_sources)
  where
    by_cases :
        (is_top line ≡ true) ⊎ (is_top line ≡ false)
        → (source_of line ≡ none) ⊎ ((name : Text) × (source_of line ≡ some name))
        → (reading.in_sources ≡ true) ⊎ (reading.in_sources ≡ false)
        → ArePins next.pins
    by_cases (inl t) s i = unchanged reading.pins _ next refl inv (simp t at h)
    by_cases (inr t) (inl s) i = read_commit-ArePins line reading next inv (simp (t, s) at h)
    by_cases (inr t) (inr (name, s)) (inl i) =
        unchanged reading.pins _ next refl inv (simp (t, s, i) at h)
    by_cases (inr t) (inr (name, s)) (inr i) =
        read_commit-ArePins line reading next inv (simp (t, s, i) at h)

read_lines-ArePins :
    (lines : List Text) (reading next : Reading)
    → ArePins reading.pins
    → read_lines lines reading ≡ ok next
    → ArePins next.pins
unfolding read_lines
read_lines-ArePins [] reading next inv h = unchanged reading.pins reading next refl inv h
read_lines-ArePins (line ∷ lines) reading next inv h =
    let (middle, a, h1) = >>=-eq-ok (read_line line reading) _ h in
    read_lines-ArePins lines middle next (read_line-ArePins line reading middle inv a) h1

-- Whatever text stands in source.lock, the pins that `_source_lock_sources` returns name each source
-- once and pin it to 40 lowercase hexadecimal digits.
pub source_lock_sources-ArePins :
    (lock : LockFile) (pins : List (Text × Text))
    → source_lock_sources lock ≡ ok (some pins)
    → ArePins pins
unfolding source_lock_sources
source_lock_sources-ArePins no_lock pins h = cc
source_lock_sources-ArePins not_a_file pins h = cc
source_lock_sources-ArePins (lock_lines lines) pins h =
    let (reading, a, h1) = >>=-eq-ok (read_lines lines _) _ h in
    subst ArePins (some_injective (ok_injective h1)) (read_lines-ArePins lines _ reading (tt, tt) a)
  where
    some_injective : {x y : List (Text × Text)} → some x ≡ some y → x ≡ y
    some_injective e = cc

-- The source has no pin, its repository no recorded commit, or the commit is the pinned one.
abbrev pub KeepsPin : List (Text × Text) → Fields → String × String → Type 0
KeepsPin pins repositories (lock_name, repo_name) =
    (commit : Text)
    → find (codes lock_name) pins ≡ some commit
    → (head_of repo_name repositories ≡ null)
      ⊎ ((head : String) × (head_of repo_name repositories ≡ str head) × (codes head ≡ commit))

abbrev Agreement : Text → Value → Type 0
Agreement commit head = (head ≡ null) ⊎ ((s : String) × (head ≡ str s) × (codes s ≡ commit))

is_head_iff : (commit : Text) (s : String) → (is_head commit (str s) ≡ true) ↔ (codes s ≡ commit)
is_head_iff commit s = (λ h. sym (same_eq commit (codes s) h), λ e. rw e (same_refl commit))

different :
    (commit : Text) (head : Value)
    → is_head commit head ≡ false
    → ¬ ((s : String) × (head ≡ str s) × (codes s ≡ commit))
different commit head h (s, e, f) = cc (h, ap (is_head commit) e, (is_head_iff commit s).1 f)

drifted_iff :
    (commit : Text) (head : Value)
    → (is_drifted (state_of (some commit) head) ≡ false) ↔ Agreement commit head
unfolding state_of
drifted_iff commit null = (λ h. inl refl, λ a. refl)
drifted_iff commit (str s) = elim (Bool-cases (is_head commit (str s))) [
  | inl e ↦ (λ h. inr (s, refl, (is_head_iff commit s).0 e), λ a. rw e refl)
  | inr e ↦ (
    λ h. cc (rw e at h),
    λ a. elim a [ inl n ↦ cc | inr w ↦ absurd (different commit (str s) e w) ],
  )
]
drifted_iff commit (bool b) =
    (λ h. cc, λ a. elim a [ inl n ↦ cc | inr w ↦ absurd (different commit (bool b) refl w) ])
drifted_iff commit (int n) =
    (λ h. cc, λ a. elim a [ inl e ↦ cc | inr w ↦ absurd (different commit (int n) refl w) ])
drifted_iff commit (float x) =
    (λ h. cc, λ a. elim a [ inl n ↦ cc | inr w ↦ absurd (different commit (float x) refl w) ])
drifted_iff commit (arr xs) =
    (λ h. cc, λ a. elim a [ inl n ↦ cc | inr w ↦ absurd (different commit (arr xs) refl w) ])
drifted_iff commit (obj fs) =
    (λ h. cc, λ a. elim a [ inl n ↦ cc | inr w ↦ absurd (different commit (obj fs) refl w) ])
drifted_iff commit (constant c) =
    (λ h. cc, λ a. elim a [ inl n ↦ cc | inr w ↦ absurd (different commit (constant c) refl w) ])

report_drifted :
    (pins : List (Text × Text)) (repositories : Fields) (lock : LockFile) (report : DriftReport)
    → source_lock_sources lock ≡ ok (some pins)
    → source_lock_drift lock repositories ≡ ok report
    → report.drifted ≡ drifted_names (drift_entries pins repositories lock_source_repos)
unfolding source_lock_drift drifted_names drift_entries state_of find
report_drifted [] repositories lock report found h =
    let (_, h1) = (require-then _ no_usable_commits _).0 (rw (source_lock_drift, found) at h) in
    sym (ap (λ (r : DriftReport). r.drifted) (ok_injective h1))
report_drifted (p ∷ pins) repositories lock report found h =
    sym (ap (λ (r : DriftReport). r.drifted) (ok_injective (rw (source_lock_drift, found) at h)))

module _ (pins : List (Text × Text)) (repositories : Fields) where
  -- One entry drifts exactly when its source does not keep its pin.
  entry_iff :
      (lock_name repo_name : String)
      → (is_drifted (state_of (find (codes lock_name) pins) (head_of repo_name repositories))
          ≡ false)
        ↔ KeepsPin pins repositories (lock_name, repo_name)
  unfolding state_of
  entry_iff lock_name repo_name = elim (Option-cases (find (codes lock_name) pins)) [
    | inl e ↦ (λ h commit f. cc (e, f), λ k. rw e refl)
    | inr (commit, e) ↦
        let (to, from) = drifted_iff commit (head_of repo_name repositories) in
        (
          λ h other f.
              subst (λ (t : Text). Agreement t (head_of repo_name repositories))
                (some_injective (sym e ∙ f))
                (to (
                  subst
                    (λ (o : Option Text).
                      is_drifted (state_of o (head_of repo_name repositories)) ≡ false)
                    e h)),
          λ k.
              ap (λ (o : Option Text). is_drifted (state_of o (head_of repo_name repositories))) e
              ∙ from (k commit e),
        )
  ]
    where
      some_injective : {x y : Text} → some x ≡ some y → x ≡ y
      some_injective e = cc

  entries_iff :
      (names : List (String × String))
      → (drifted_names (drift_entries pins repositories names) ≡ [])
        ↔ All (KeepsPin pins repositories) names
  unfolding drifted_names drift_entries
  entries_iff [] = (λ h. tt, λ a. refl)
  entries_iff ((lock_name, repo_name) ∷ names) =
      let (here_to, here_from) = entry_iff lock_name repo_name in
      let (later_to, later_from) = entries_iff names in
      let state = state_of (find (codes lock_name) pins) (head_of repo_name repositories) in
      elim (Bool-cases (is_drifted state)) [
        | inl e ↦ (λ h. cc (rw e at h), λ a. cc (e, here_from a.0))
        | inr e ↦ (λ h. (here_to e, later_to (rw e at h)), λ a. rw e (later_from a.1))
      ]

  -- A report on a readable lock names no drifted source exactly when, for each of the two covered
  -- sources that the lock pins and whose repository has a recorded HEAD, this HEAD is the pinned commit.
  pub source_lock_drift_iff :
      (lock : LockFile) (report : DriftReport)
      → source_lock_sources lock ≡ ok (some pins)
      → source_lock_drift lock repositories ≡ ok report
      → (report.drifted ≡ []) ↔ All (KeepsPin pins repositories) lock_source_repos
  source_lock_drift_iff lock report found h =
      let same = report_drifted pins repositories lock report found h in
      let (to, from) = entries_iff lock_source_repos in (λ e. to (sym same ∙ e), λ a. same ∙ from a)

-- ===== src/DriverEntries/Instructions.antt =====
-- analyze_vulkan_driver_entries.py: the loop of `spirv_entries` and the division of a module into
-- instructions.
use my_ad.Prelude.{
  ℕ, zero, suc, ◌≤◌, ◌≡◌, ◌↔◌, refl, sym, ap, ◌∙◌, subst, true, some, List, [], ◌∷◌, ◌++◌, Result,
  ok, ◌>>=◌, >>=-eq-ok, require-then, leb, length, length-append, Option-cases, inl, inr, arith,
}
use my_ad.DriverEntries.Spirv.{
  SpirvFault, bad_instruction, EntryPoint, split_at, word_count, entry_of, walk,
}

-- Instructions one after the other: each names its own number of words, which is at least 1.
pub data AreInstructions : List ℕ → List (List ℕ) → Type 0 where
  none_left : AreInstructions [] []
  one_more :
      {words rest : List ℕ} {instructions : List (List ℕ)} (head : ℕ) (operands : List ℕ)
      → word_count head ≡ length (head ∷ operands)
      → (head ∷ operands) ++ rest ≡ words
      → AreInstructions rest instructions
      → AreInstructions words ((head ∷ operands) ∷ instructions)

-- The entry points of all instructions, in their order.
abbrev pub entries_of : List (List ℕ) → Result SpirvFault (List EntryPoint)
entries_of [] = ok []
entries_of (instruction ∷ instructions) =
    entry_of instruction >>= λ entries. entries_of instructions >>= λ more. ok (entries ++ more)

split_at_sound :
    (n : ℕ) (words : List ℕ) (p : List ℕ × List ℕ)
    → split_at n words ≡ some p
    → (p.0 ++ p.1 ≡ words) × (length p.0 ≡ n)
unfolding split_at
split_at_sound zero words p h =
    subst (λ (q : List ℕ × List ℕ). (q.0 ++ q.1 ≡ words) × (length q.0 ≡ 0)) (some_injective h)
      (refl, refl)
  where
    some_injective : {x y : List ℕ × List ℕ} → some x ≡ some y → x ≡ y
    some_injective e = cc
split_at_sound (suc n) [] p h = cc
split_at_sound (suc n) (w ∷ words) p h = elim (Option-cases (split_at n words)) [
  | inl e ↦ cc (rw e at h)
  | inr (q, e) ↦
      let (joined, count) = split_at_sound n words q e in
      subst (λ (r : List ℕ × List ℕ). (r.0 ++ r.1 ≡ w ∷ words) × (length r.0 ≡ suc n))
        (some_injective (rw e at h)) (ap (λ (l : List ℕ). w ∷ l) joined, omega (arith, count))
]
  where
    some_injective : {x y : List ℕ × List ℕ} → some x ≡ some y → x ≡ y
    some_injective e = cc

split_at-append :
    (taken rest : List ℕ) → split_at (length taken) (taken ++ rest) ≡ some (taken, rest)
unfolding split_at
split_at-append [] rest = refl
split_at-append (w ∷ taken) rest = rw (split_at-append taken rest) refl

-- The instructions of accepted words, and what they declare.
pub record IsModule (words : List ℕ) (entries : List EntryPoint) : Type 0 where
  pub instructions : List (List ℕ)
  pub divided : AreInstructions words instructions
  pub declared : entries_of instructions ≡ ok entries

walk_step :
    (fuel head : ℕ) (words instruction rest : List ℕ)
    → leb 1 (word_count head) ≡ true
    → split_at (word_count head) (head ∷ words) ≡ some (instruction, rest)
    → walk (suc fuel) (head ∷ words)
      ≡ (entry_of instruction >>= λ entries. walk fuel rest >>= λ more. ok (entries ++ more))
unfolding walk
walk_step fuel head words instruction rest a b = rw (a, b) refl

-- An instruction that was split off starts with its first word.
first_word :
    (n head : ℕ) (words : List ℕ) (p : List ℕ × List ℕ)
    → leb 1 n ≡ true
    → split_at n (head ∷ words) ≡ some p
    → (operands : List ℕ) × (p.0 ≡ head ∷ operands)
unfolding split_at
first_word zero head words p a h = absurd (ground arith)
first_word (suc n) head words p a h = elim (Option-cases (split_at n words)) [
  | inl e ↦ cc (rw e at h)
  | inr (q, e) ↦ (q.0, sym (ap (λ (r : List ℕ × List ℕ). r.0) (some_injective (rw e at h))))
]
  where
    some_injective : {x y : List ℕ × List ℕ} → some x ≡ some y → x ≡ y
    some_injective e = cc

walk_end : (fuel : ℕ) → walk fuel [] ≡ ok []
unfolding walk
walk_end zero = refl
walk_end (suc fuel) = refl

walk_sound :
    (fuel : ℕ) (words : List ℕ) {entries : List EntryPoint}
    → walk fuel words ≡ ok entries
    → IsModule words entries
unfolding walk
walk_sound fuel [] h = record { instructions = []; divided = none_left; declared = h }
walk_sound zero (head ∷ words) h = cc
walk_sound (suc fuel) (head ∷ words) {entries} h =
    let (positive, h1) = (require-then (leb 1 (word_count head)) bad_instruction _).0 h in
    elim (Option-cases (split_at (word_count head) (head ∷ words))) [
      | inl e ↦ cc (rw e at h1)
      | inr (p, e) ↦
          let (operands, starts) = first_word (word_count head) head words p positive e in
          let (joined, count) = split_at_sound (word_count head) (head ∷ words) p e in
          let stepped = sym (walk_step fuel head words p.0 p.1 positive e) ∙ h in
          let (here, a, h2) = >>=-eq-ok (entry_of p.0) _ stepped in
          let (more, b, h3) = >>=-eq-ok (walk fuel p.1) _ h2 in
          let rest = walk_sound fuel p.1 b in
          record {
            instructions = (head ∷ operands) ∷ rest.instructions;
            divided =
                one_more head operands (sym count ∙ ap (λ (l : List ℕ). length l) starts)
                  (ap (λ (l : List ℕ). l ++ p.1) (sym starts) ∙ joined) rest.divided;
            declared = let first = sym (ap entry_of starts) ∙ a in rw (first, rest.declared) h3;
          }
    ]

leb-suc : (n : ℕ) → leb 1 (suc n) ≡ true
leb-suc n = ground arith

-- Every amount of fuel that reaches the number of words is enough.
walk_complete :
    (fuel : ℕ) {words : List ℕ} {instructions : List (List ℕ)}
    → AreInstructions words instructions
    → length words ≤ fuel
    → walk fuel words ≡ entries_of instructions
walk_complete fuel none_left h = walk_end fuel
walk_complete zero (one_more {words} head operands count joined rest) h =
    let counted = ap (λ (l : List ℕ). length l) joined in absurd (omega (arith, counted, h))
walk_complete (suc fuel)
      (one_more {words} {rest = later} {instructions = is} head operands count joined rest) h =
    let counted =
      sym (length-append (head ∷ operands) later) ∙ ap (λ (l : List ℕ). length l) joined in
    let shorter = walk_complete fuel rest (omega (arith, counted, h)) in
    let positive = ap (λ (n : ℕ). leb 1 n) count ∙ leb-suc (length operands) in
    let divided =
      ap (λ (n : ℕ). split_at n ((head ∷ operands) ++ later)) count
      ∙ split_at-append (head ∷ operands) later in
    ap (λ (l : List ℕ). walk (suc fuel) l) (sym joined)
    ∙ walk_step fuel head (operands ++ later) (head ∷ operands) later positive divided
    ∙ ap
        (λ (r : Result SpirvFault (List EntryPoint)).
          entry_of (head ∷ operands) >>= λ entries. r >>= λ more. ok (entries ++ more))
        shorter

-- With as much fuel as there are words, the loop accepts words with some entry points exactly when
-- the words divide into instructions, each of the length its first word names, and the entry points
-- are those that the instructions declare, in order; fuel does not run out, and none is left over.
pub walk_iff :
    (fuel : ℕ) (words : List ℕ) (entries : List EntryPoint)
    → length words ≤ fuel
    → (walk fuel words ≡ ok entries) ↔ IsModule words entries
walk_iff fuel words entries h =
    (λ e. walk_sound fuel words e, λ m. walk_complete fuel m.divided h ∙ m.declared)

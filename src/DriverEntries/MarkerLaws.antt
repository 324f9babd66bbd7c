-- ===== src/DriverEntries/MarkerLaws.antt =====
-- analyze_vulkan_driver_entries.py: what an accepted snapshot of a render pass holds.
use my_ad.Prelude.{
  ℕ, zero, suc, ◌+◌, ◌≤◌, ◌<◌, String, ◌≡◌, ◌⊎◌, inl, inr, refl, sym, ap, ◌∙◌, subst, Bool, true,
  false, not, ◌&&◌, ◌||◌, ◌==◌, some, List, [], ◌++◌, ok, >>=-eq-ok, require-then, require-eq-ok,
  ok_injective, &&-eq-true, Bool-cases, Option-cases, codes, leb, ==→eq, if◌then◌else◌, arith,
}
use my_ad.Prelude.Int.{ℤ, pos, negsuc}
use my_ad.PyText.{Text, Dict, field_of, to_int}
use my_ad.PyText.Laws.{same_refl}
use my_ad.DriverEntries.Markers.{
  MarkerFault, bad_bounds, missing_subpass, missing_references, missing_resolve, missing_depth,
  says, check_kind, check_resolves, number_at, range_of, count_parts, missing_attachment,
  missing_dependency, has, inner_lines, read_fields, decimal, number_or, bounded, has_range,
  is_attachment, has_attachments, check_subpass, check_subpasses, check_complete, RenderPass,
  check_identity, counts_of, check_parts, check_snapshot, render_pass_snapshot,
}

eq_or_lt : (a b : ℕ) → a ≤ b → (a ≡ b) ⊎ (a < b)
eq_or_lt a b h = elim (Bool-cases (a == b)) [
  | inl e ↦ inl (==→eq a b e)
  | inr e ↦ inr (ground (arith, e))
]

-- Every index of a range has its field.
has_range-at :
    (prefix : Text) (dict : Dict) (n i : ℕ)
    → has_range prefix dict n ≡ true
    → i < n
    → has (prefix ++ decimal i) dict ≡ true
unfolding has_range
has_range-at prefix dict zero i h l = absurd (omega (arith, l))
has_range-at prefix dict (suc n) i h l =
    let (here, rest) =
      (&&-eq-true (has (prefix ++ decimal n) dict) (has_range prefix dict n)).0 h in
    elim (eq_or_lt i n (omega (arith, l))) [
      | inl e ↦ ap (λ (k : ℕ). has (prefix ++ decimal k) dict) e ∙ here
      | inr m ↦ has_range-at prefix dict n i rest m
    ]

has_attachments-at :
    (dict : Dict) (n i : ℕ) → has_attachments dict n ≡ true → i < n → is_attachment dict i ≡ true
unfolding has_attachments
has_attachments-at dict zero i h l = absurd (omega (arith, l))
has_attachments-at dict (suc n) i h l =
    let (here, rest) = (&&-eq-true (is_attachment dict n) (has_attachments dict n)).0 h in
    elim (eq_or_lt i n (omega (arith, l))) [
      | inl e ↦ ap (is_attachment dict) e ∙ here
      | inr m ↦ has_attachments-at dict n i rest m
    ]

check_subpasses-at :
    (dict : Dict) (index n i : ℕ)
    → check_subpasses dict index n ≡ ok tt
    → index ≤ i
    → i < index + n
    → check_subpass dict (codes "subpass" ++ decimal i) ≡ ok tt
unfolding check_subpasses
check_subpasses-at dict index zero i h l u = absurd (omega (arith, l, u))
check_subpasses-at dict index (suc n) i h l u =
    let (_, here, rest) = >>=-eq-ok (check_subpass dict (codes "subpass" ++ decimal index)) _ h in
    elim (eq_or_lt index i l) [
      | inl e ↦ ap (λ (k : ℕ). check_subpass dict (codes "subpass" ++ decimal k)) (sym e) ∙ here
      | inr m ↦ check_subpasses-at dict (suc index) n i rest m (omega (arith, u))
    ]

bounded_sound :
    (fault : MarkerFault) (low high : ℕ) (value : ℤ) (n : ℕ)
    → bounded fault low high value ≡ ok n
    → (value ≡ pos n) × (low ≤ n) × (n ≤ high)
bounded_sound fault low high (pos k) n h =
    let (a, b) = (require-then (leb low k && leb k high) fault _).0 h in
    let (x, y) = (&&-eq-true (leb low k) (leb k high)).0 a in
    subst (λ (m : ℕ). (pos k ≡ pos m) × (low ≤ m) × (m ≤ high)) (ok_injective b)
      (refl, leb→le low k x, leb→le k high y)
  where
    leb→le : (p q : ℕ) → leb p q ≡ true → p ≤ q
    leb→le p q e = ground (arith, e)
bounded_sound fault low high (negsuc k) n h = cc

-- The field is there, and holds a number from the first bound to the second.
pub record HoldsNumber (dict : Dict) (key : Text) (low high n : ℕ) : Type 0 where
  pub text : Text
  pub stored : field_of key dict ≡ some text
  pub number : to_int text ≡ some (pos n)
  pub lower : low ≤ n
  pub upper : n ≤ high

-- A field with each index below the count.
abbrev pub HasEach : Dict → Text → ℕ → Type 0
HasEach dict prefix count = (i : ℕ) → i < count → has (prefix ++ decimal i) dict ≡ true

-- One kind of references: their number, and a field for each.
pub record HasReferences (dict : Dict) (prefix : Text) (kind suffix : String) : Type 0 where
  pub count : ℕ
  pub counted : HoldsNumber dict (prefix ++ codes kind) 0 64 count
  pub each : HasEach dict (prefix ++ codes suffix) count

-- A whole subpass.
pub record IsSubpass (dict : Dict) (prefix : Text) : Type 0 where
  pub flags : has (prefix ++ codes "_flags") dict ≡ true
  pub bind_point : has (prefix ++ codes "_bind_point") dict ≡ true
  pub inputs : HasReferences dict prefix "_inputs" "_input"
  pub colors : HasReferences dict prefix "_colors" "_color"
  pub preserves : HasReferences dict prefix "_preserves" "_preserve"
  pub resolves :
      field_of (prefix ++ codes "_resolves") dict ≡ some (codes "1")
      → HasEach dict (prefix ++ codes "_resolve") colors.count
  pub depth :
      field_of (prefix ++ codes "_depth") dict ≡ some (codes "1")
      → has (prefix ++ codes "_depth_ref") dict ≡ true

number_or-HoldsNumber :
    (fault : MarkerFault) (key : Text) (dict : Dict) (low high : ℕ) (value : ℤ) (n : ℕ)
    → number_or (negsuc 0) key dict ≡ ok value
    → bounded fault low high value ≡ ok n
    → HoldsNumber dict key low high n
number_or-HoldsNumber fault key dict low high value n h b =
    let (same_number, lower, upper) = bounded_sound fault low high value n b in
    elim (Option-cases (field_of key dict)) [
      | inl e ↦
          absurd
            (no_negative (ok_injective {E = MarkerFault} (rw (number_or, e) at h) ∙ same_number))
      | inr (text, e) ↦ elim (Option-cases (to_int text)) [
        | inl f ↦ cc (rw (number_or, e, f) at h)
        | inr (m, f) ↦ record {
          text = text;
          stored = e;
          number =
              f
              ∙ ap (λ (x : ℤ). some x)
                  (ok_injective {E = MarkerFault} (rw (number_or, e, f) at h) ∙ same_number);
          lower = lower;
          upper = upper;
        }
      ]
    ]
  where
    no_negative : negsuc 0 ≡ pos n → ⊥
    no_negative q = cc

check_kind-HasReferences :
    (dict : Dict) (prefix : Text) (kind suffix : String)
    → check_kind dict prefix (kind, suffix) ≡ ok tt
    → HasReferences dict prefix kind suffix
check_kind-HasReferences dict prefix kind suffix h =
    let (value, a, h1) = >>=-eq-ok (number_or (negsuc 0) (prefix ++ codes kind) dict) _ h in
    let (count, b, h2) = >>=-eq-ok (bounded missing_references 0 64 value) _ h1 in
    let c = require-eq-ok (has_range (prefix ++ codes suffix) dict count) missing_references h2 in
    record {
      count = count;
      counted =
          number_or-HoldsNumber missing_references (prefix ++ codes kind) dict 0 64 value count a b;
      each = λ i l. has_range-at (prefix ++ codes suffix) dict count i c l;
    }

says_of :
    (key : Text) (value : String) (dict : Dict)
    → field_of key dict ≡ some (codes value)
    → says key value dict ≡ true
says_of key value dict e = rw (says, e) (same_refl (codes value))

check_resolves-HasEach :
    (dict : Dict) (prefix : Text) (count : ℕ)
    → HoldsNumber dict (prefix ++ codes "_colors") 0 64 count
    → check_resolves dict prefix ≡ ok tt
    → field_of (prefix ++ codes "_resolves") dict ≡ some (codes "1")
    → HasEach dict (prefix ++ codes "_resolve") count
check_resolves-HasEach dict prefix count c h e i l =
    let said = says_of (prefix ++ codes "_resolves") "1" dict e in
    let (value, a, h1) = >>=-eq-ok (number_at (prefix ++ codes "_colors") dict) _ (rw said at h) in
    let known : number_at (prefix ++ codes "_colors") dict ≡ ok (pos count) =
      rw (number_at, c.stored, c.number) refl in
    let same_value = ok_injective (sym a ∙ known) in
    let found =
      require-eq-ok (has_range (prefix ++ codes "_resolve") dict (range_of value)) missing_resolve
        h1 in
    has_range-at (prefix ++ codes "_resolve") dict count i
      (ap (λ (v : ℤ). has_range (prefix ++ codes "_resolve") dict (range_of v)) (sym same_value)
        ∙ found)
      l

check_subpass-IsSubpass :
    (dict : Dict) (prefix : Text) → check_subpass dict prefix ≡ ok tt → IsSubpass dict prefix
unfolding check_subpass
check_subpass-IsSubpass dict prefix h =
    let (a, h1) =
      (require-then
          (has (prefix ++ codes "_flags") dict && has (prefix ++ codes "_bind_point") dict)
          missing_subpass _).0
        h in
    let (flags, bind_point) =
      (&&-eq-true (has (prefix ++ codes "_flags") dict)
          (has (prefix ++ codes "_bind_point") dict)).0
        a in
    let (_, b, h2) = >>=-eq-ok (check_kind dict prefix ("_inputs", "_input")) _ h1 in
    let (_, c, h3) = >>=-eq-ok (check_kind dict prefix ("_colors", "_color")) _ h2 in
    let (_, d, h4) = >>=-eq-ok (check_kind dict prefix ("_preserves", "_preserve")) _ h3 in
    let (_, e, h5) = >>=-eq-ok (check_resolves dict prefix) _ h4 in
    let f = require-eq-ok _ missing_depth h5 in
    let colors = check_kind-HasReferences dict prefix "_colors" "_color" c in
    record {
      flags = flags;
      bind_point = bind_point;
      inputs = check_kind-HasReferences dict prefix "_inputs" "_input" b;
      colors = colors;
      preserves = check_kind-HasReferences dict prefix "_preserves" "_preserve" d;
      resolves = λ q i l. check_resolves-HasEach dict prefix colors.count colors.counted e q i l;
      depth = λ q.
          implied (says (prefix ++ codes "_depth") "1" dict)
            (has (prefix ++ codes "_depth_ref") dict) f
            (says_of (prefix ++ codes "_depth") "1" dict q);
    }
  where
    implied : (p q : Bool) → (not p || q) ≡ true → p ≡ true → q ≡ true
    implied true q f g = f
    implied false q f g = cc

-- A field of nine values between commas.
abbrev pub HasNine : Dict → Text → Type 0
HasNine dict key = (text : Text) × (field_of key dict ≡ some text) × (count_parts text ≡ 9)

is_attachment-HasNine :
    (dict : Dict) (i : ℕ)
    → is_attachment dict i ≡ true
    → HasNine dict (codes "attachment" ++ decimal i)
is_attachment-HasNine dict i h =
    elim (Option-cases (field_of (codes "attachment" ++ decimal i) dict)) [
      | inl e ↦ cc (rw (is_attachment, e) at h)
      | inr (text, e) ↦ (text, e, ==→eq (count_parts text) 9 (rw (is_attachment, e) at h))
    ]

-- The parts that a complete snapshot has: nine values for each attachment, every subpass whole, and
-- the dependencies.
pub record HasParts (dict : Dict) (pass : RenderPass) : Type 0 where
  pub attachment_at :
      (i : ℕ) → i < pass.attachments → HasNine dict (codes "attachment" ++ decimal i)
  pub subpass_at : (i : ℕ) → i < pass.subpasses → IsSubpass dict (codes "subpass" ++ decimal i)
  pub dependency_at : HasEach dict (codes "dependency") pass.dependencies

check_complete-HasParts :
    (dict : Dict) (pass : RenderPass)
    → check_complete dict pass.attachments pass.subpasses pass.dependencies ≡ ok tt
    → HasParts dict pass
unfolding check_complete
check_complete-HasParts dict pass h =
    let a = pass.attachments in
    let s = pass.subpasses in
    let d = pass.dependencies in
    let (x, h1) = (require-then (has_attachments dict a) missing_attachment _).0 h in
    let (_, y, h2) = >>=-eq-ok (check_subpasses dict 0 s) _ h1 in
    let z = require-eq-ok (has_range (codes "dependency") dict d) missing_dependency h2 in
    record {
      attachment_at = λ i l. is_attachment-HasNine dict i (has_attachments-at dict a i x l);
      subpass_at = λ i l.
          check_subpass-IsSubpass dict (codes "subpass" ++ decimal i)
            (check_subpasses-at dict 0 s i y (omega arith) (omega (arith, l)));
      dependency_at = λ i l. has_range-at (codes "dependency") dict d i z l;
    }

-- The counts are those of the fields, in their bounds, and the flag is that of the field.
pub record AreCounts (dict : Dict) (pass : RenderPass) : Type 0 where
  pub attachments : HoldsNumber dict (codes "attachments") 0 64 pass.attachments
  pub subpasses : HoldsNumber dict (codes "subpasses") 1 8 pass.subpasses
  pub dependencies : HoldsNumber dict (codes "dependencies") 0 64 pass.dependencies
  pub flag : pass.is_complete ≡ says (codes "capture_complete") "1" dict

-- An accepted snapshot: its fields, its counts, and its parts where it says that it is complete.
pub record IsRenderPass (lines : List Text) (pass : RenderPass) : Type 0 where
  pub inner : List Text
  pub framed : inner_lines lines ≡ some inner
  pub dict : Dict
  pub parsed : read_fields true [] inner ≡ ok dict
  pub counts : AreCounts dict pass
  pub whole : field_of (codes "capture_complete") dict ≡ some (codes "1") → HasParts dict pass

counts_of-AreCounts :
    (dict : Dict) (pass : RenderPass) → counts_of dict ≡ ok pass → AreCounts dict pass
unfolding counts_of
counts_of-AreCounts dict pass h =
    let (a, i, h1) = >>=-eq-ok (number_or (negsuc 0) (codes "attachments") dict) _ h in
    let (s, j, h2) = >>=-eq-ok (number_or (negsuc 0) (codes "subpasses") dict) _ h1 in
    let (d, k, h3) = >>=-eq-ok (number_or (negsuc 0) (codes "dependencies") dict) _ h2 in
    let (attachments, u, h4) = >>=-eq-ok (bounded bad_bounds 0 64 a) _ h3 in
    let (subpasses, v, h5) = >>=-eq-ok (bounded bad_bounds 1 8 s) _ h4 in
    let (dependencies, w, h6) = >>=-eq-ok (bounded bad_bounds 0 64 d) _ h5 in
    subst (AreCounts dict) (ok_injective h6) (record {
      attachments =
          number_or-HoldsNumber bad_bounds (codes "attachments") dict 0 64 a attachments i u;
      subpasses = number_or-HoldsNumber bad_bounds (codes "subpasses") dict 1 8 s subpasses j v;
      dependencies =
          number_or-HoldsNumber bad_bounds (codes "dependencies") dict 0 64 d dependencies k w;
      flag = refl;
    })

check_parts-HasParts :
    (dict : Dict) (pass : RenderPass)
    → check_parts dict pass ≡ ok tt
    → pass.is_complete ≡ true
    → HasParts dict pass
unfolding check_parts
check_parts-HasParts dict pass h e = check_complete-HasParts dict pass (
    ap
      (λ (b : Bool).
        if b then check_complete dict pass.attachments pass.subpasses pass.dependencies else ok tt)
      (sym e)
    ∙ h)

module _ (handle : Text) where
  -- The counts of an accepted snapshot of a render pass are the numbers of its fields: at most 64
  -- attachments, 1 to 8 subpasses and at most 64 dependencies. Where its field "capture_complete" is
  -- 1, every attachment has nine values, every dependency is there, and every subpass has its flags,
  -- its bind point, at most 64 references of each kind with a field for each, a resolve reference for
  -- each color if it says that it resolves, and a depth reference if it says that it has one.
  pub render_pass_snapshot-IsRenderPass :
      (lines : List Text) (pass : RenderPass)
      → render_pass_snapshot handle lines ≡ ok pass
      → IsRenderPass lines pass
  unfolding render_pass_snapshot check_snapshot
  render_pass_snapshot-IsRenderPass lines pass h = elim (Option-cases (inner_lines lines)) [
    | inl e ↦ cc (rw (render_pass_snapshot, e) at h)
    | inr (inner, e) ↦
        let (dict, p, h1) =
          >>=-eq-ok (read_fields true [] inner) _ (rw (render_pass_snapshot, e) at h) in
        let (_, _, h2) = >>=-eq-ok (check_identity handle dict) _ h1 in
        let (found, c, h3) = >>=-eq-ok (counts_of dict) _ h2 in
        let (_, x, h4) = >>=-eq-ok (check_parts dict found) _ h3 in
        let counts = counts_of-AreCounts dict found c in
        subst (IsRenderPass lines) (ok_injective h4) (record {
          inner = inner;
          framed = e;
          dict = dict;
          parsed = p;
          counts = counts;
          whole = λ q.
              check_parts-HasParts dict found x
                (counts.flag ∙ says_of (codes "capture_complete") "1" dict q);
        })
  ]

-- ===== src/BuildManifest/EnvironmentLaws.antt =====
-- capture_build_manifest.py: no secret variable gets into a manifest, and a runtime that passes is ARM64.
use my_ad.Prelude.{
  String, ◌≡◌, ◌≢◌, ◌↔◌, inl, inr, refl, sym, ap, subst, Bool, true, false, ◌||◌, ||-eq-true, List,
  [], ◌∷◌, ◌++◌, Bool-cases, codes, Among, any, eq→==,
}
use my_ad.PyText.{Text}
use my_ad.ForkDelta.Delta.{starts_with}
use my_ad.ForkProvenance.Report.{precedes}
use my_ad.BuildManifest.Environment.{
  secret_words, folded, search, is_secret, is_allowed, Variables, insert_variable, sort_variables,
  select_variables, environment,
}

starts_with-append : (word after : Text) → starts_with word (word ++ after) ≡ true
unfolding starts_with
starts_with-append [] after = refl
starts_with-append (c ∷ word) after = rw (eq→== c c refl, starts_with-append word after) refl

search_start : (word text : Text) → starts_with word text ≡ true → search word text ≡ true
unfolding search
search_start word [] h = h
search_start word (c ∷ s) h = (||-eq-true (starts_with word (c ∷ s)) _).1 (inl h)

neither : (a b : Bool) → (a || b) ≡ false → (a ≡ false) × (b ≡ false)
neither true b h = cc
neither false b h = (refl, h)

-- A search finds a word wherever it stands.
search-append : (word before after : Text) → search word (before ++ (word ++ after)) ≡ true
unfolding search
search-append word (c ∷ before) after =
    (||-eq-true (starts_with word (c ∷ before ++ (word ++ after))) _).1
      (inr (search-append word before after))
search-append word [] after = search_start word (word ++ after) (starts_with-append word after)

-- The variables that are sorted are those that were there.
insert_iff :
    (x : String × String) (key value : String) (variables : Variables)
    → Among x (insert_variable key value variables) ↔ Among x ((key, value) ∷ variables)
unfolding insert_variable
insert_iff x key value [] = (λ m. m, λ m. m)
insert_iff x key value ((k, v) ∷ variables) = elim (Bool-cases (precedes (codes key) (codes k))) [
  | inl e ↦ rw e (λ m. m, λ m. m)
  | inr e ↦
      let (to, from) = insert_iff x key value variables in
      rw e (
        λ m. elim m [
          | inl h ↦ inr (inl h)
          | inr l ↦ elim (to l) [ inl h ↦ inl h | inr r ↦ inr (inr r) ]
        ],
        λ m. elim m [
          | inl h ↦ inr (from (inl h))
          | inr l ↦ elim l [ inl h ↦ inl h | inr r ↦ inr (from (inr r)) ]
        ],
      )
]

sort_iff :
    (x : String × String) (variables : Variables)
    → Among x (sort_variables variables) ↔ Among x variables
unfolding sort_variables
sort_iff x [] = (λ m. m, λ m. m)
sort_iff x ((key, value) ∷ variables) =
    let (to, from) = insert_iff x key value (sort_variables variables) in
    let (down, up) = sort_iff x variables in
    (
      λ m. elim (to m) [ inl h ↦ inl h | inr r ↦ inr (down r) ],
      λ m. from (elim m [ inl h ↦ inl h | inr r ↦ inr (up r) ]),
    )

-- A variable that a manifest may hold: allowed by its name, in which no secret word stands.
abbrev pub IsPublic : String → Type 0
IsPublic key =
    (is_allowed key ≡ true)
    × ((word : String)
        → Among word secret_words
        → (before after : Text) → folded key ≢ before ++ (codes word ++ after))

no_word :
    (text : Text) (words : List String)
    → any (λ word. search (codes word) text) words ≡ false
    → (word : String) → Among word words
    → (before after : Text) → text ≢ before ++ (codes word ++ after)
no_word text [] h word m before after e = elim m [ ]
no_word text (w ∷ words) h word (inl same) before after e = cc (
  ap (λ (x : String). search (codes x) text) same,
  ap (search (codes word)) e,
  search-append (codes word) before after,
  (neither (search (codes w) text) _ h).0,
)
no_word text (w ∷ words) h word (inr m) before after e =
    no_word text words (neither (search (codes w) text) _ h).1 word m before after e

clear-IsPublic : (key : String) → is_secret key ≡ false → is_allowed key ≡ true → IsPublic key
unfolding is_secret
clear-IsPublic key s a =
    (a, λ word m before after. no_word (folded key) secret_words s word m before after)

select-IsPublic :
    (variables : Variables) (key value : String)
    → Among (key, value) (select_variables variables).values
    → Among (key, value) variables × IsPublic key
unfolding select_variables
select-IsPublic [] key value m = elim m [ ]
select-IsPublic ((k, v) ∷ variables) key value m = elim (Bool-cases (is_secret k)) [
  | inl s ↦ later (select-IsPublic variables key value (rw s at m))
  | inr s ↦ elim (Bool-cases (is_allowed k)) [
    | inr a ↦ later (select-IsPublic variables key value (rw (s, a) at m))
    | inl a ↦ elim (rw (s, a) at m) [
      | inl e ↦
          (inl e, subst IsPublic (sym (ap (λ (x : String × String). x.0) e)) (clear-IsPublic k s a))
      | inr r ↦ later (select-IsPublic variables key value r)
    ]
  ]
]
  where
    later :
        Among (key, value) variables × IsPublic key
        → Among (key, value) ((k, v) ∷ variables) × IsPublic key
    later (l, p) = (inr l, p)

-- Every variable of the environment that a manifest holds is one of the process, is allowed by its
-- name, and its name, compared without regard to case, contains no secret word at any place.
pub environment-IsPublic :
    (variables : Variables) (key value : String)
    → Among (key, value) (environment variables).values
    → Among (key, value) variables × IsPublic key
unfolding environment
environment-IsPublic variables key value m =
    let (there, public) = select-IsPublic (sort_variables variables) key value m in
    ((sort_iff (key, value) variables).0 there, public)

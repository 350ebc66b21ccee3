-- ===== src/Domain/Match.antt =====
-- The joined regex of a rule list matches a name exactly when a valid rule does.
use sakamoto_snort.Common.{
  ℕ, ◌≡◌, ◌≢◌, refl, sym, ap, ◌∙◌, inl, inr, Bool, true, false, ◌||◌, List, [], ◌∷◌, ◌++◌, Option,
  none, some, is_some, Bool-cases, Option-cases, In, All, arith,
}
use sakamoto_snort.Domain.Rules.{
  RegexLib, Rule, valid_texts, append_texts, joined, rebuild, match_name, match_first_rule_id,
}
use sakamoto_snort.Domain.First.{hits, IsFirst, match_first_rule_id-IsFirst}

-- What is used of `std::regex`: the empty expression matches no name with a byte in it, and two
-- extended expressions with `|` between them match what either matches.
pub record RegexLaws (lib : RegexLib) : Type 0 where
  pub empty_none : (name : List ℕ) → name ≢ [] → lib.regex_match name lib.empty ≡ false
  pub nil_none :
      (name : List ℕ) (c : lib.Compiled)
      → name ≢ []
      → lib.compile [] ≡ some c
      → lib.regex_match name c ≡ false
  pub alternation :
      (s t : List ℕ) (a b : lib.Compiled)
      → lib.compile s ≡ some a
      → lib.compile t ≡ some b
      → (c : lib.Compiled) × (lib.compile (s ++ (124 ∷ t)) ≡ some c)
        × ((name : List ℕ)
            → lib.regex_match name c ≡ lib.regex_match name a || lib.regex_match name b)

module _ (lib : RegexLib) where
  -- The rules of `Rule::create`: the valid ones compile.
  abbrev pub AreCreated : List Rule → Type 0
  AreCreated = All (λ r. r.valid ≡ is_some (lib.compile r.regex_text))

  -- Some text of the list matches by itself.
  abbrev any_text : List ℕ → List (List ℕ) → Bool
  any_text name [] = false
  any_text name (t ∷ ts) =
      elim (lib.compile t) [ none ↦ false | some c ↦ lib.regex_match name c ] || any_text name ts

  abbrev any_hit : List ℕ → List Rule → Bool
  any_hit name [] = false
  any_hit name (r ∷ rs) = hits lib name r || any_hit name rs

or_true : (b : Bool) → b || true ≡ true
or_true true = refl
or_true false = refl

module _ (lib : RegexLib) (laws : RegexLaws lib) where
  append_texts-any :
      (name acc : List ℕ) (a : lib.Compiled) (ts : List (List ℕ))
      → lib.compile acc ≡ some a
      → All (λ t. (c : lib.Compiled) × (lib.compile t ≡ some c)) ts
      → (c : lib.Compiled) × (lib.compile (append_texts lib acc ts) ≡ some c)
        × (lib.regex_match name c ≡ lib.regex_match name a || any_text lib name ts)
  unfolding append_texts
  append_texts-any name acc a [] e h = (a, e, ground arith)
  append_texts-any name acc a (t ∷ ts) e ((b, f), h) =
      let (c, g, m) = laws.alternation acc t a b e f in
      let (d, k, n) = append_texts-any name (acc ++ (124 ∷ t)) c ts g h in
      (d, k, n ∙ rw (m name, f) ground arith)

  joined-any :
      (name : List ℕ) (ts : List (List ℕ))
      → name ≢ []
      → All (λ t. (c : lib.Compiled) × (lib.compile t ≡ some c)) ts
      → lib.regex_match name (elim (lib.compile (joined lib ts)) [ none ↦ lib.empty | some c ↦ c ])
        ≡ any_text lib name ts
  joined-any name [] ne h = elim (Option-cases (lib.compile [])) [
    | inl e ↦ rw e (laws.empty_none name ne)
    | inr (c, e) ↦ rw e (laws.nil_none name c ne e)
  ]
  joined-any name (t ∷ ts) ne ((a, e), h) =
      let (c, f, m) = append_texts-any name t a ts e h in rw (f, e) m

module _ (lib : RegexLib) where
  valid_texts-compile :
      (rules : List Rule)
      → AreCreated lib rules
      → All (λ t. (c : lib.Compiled) × (lib.compile t ≡ some c)) (valid_texts lib rules)
  unfolding valid_texts
  valid_texts-compile [] h = tt
  valid_texts-compile (r ∷ rs) (e, h) = elim (Bool-cases r.valid) [
    | inr off ↦ rw off (valid_texts-compile rs h)
    | inl on ↦
        rw on
          (elim (Option-cases (lib.compile r.regex_text))
            as (λ _.
              ((c : lib.Compiled) × (lib.compile r.regex_text ≡ some c))
              × All (λ t. (c : lib.Compiled) × (lib.compile t ≡ some c)) (valid_texts lib rs)) [
                | inl bad ↦ absurd (let no : true ≡ false = sym on ∙ e ∙ ap is_some bad in cc)
                | inr (c, good) ↦ ((c, good), valid_texts-compile rs h)
              ])
  ]

  any_text-valid :
      (name : List ℕ) (rules : List Rule)
      → any_text lib name (valid_texts lib rules) ≡ any_hit lib name rules
  unfolding valid_texts
  any_text-valid name [] = refl
  any_text-valid name (r ∷ rs) = elim (Bool-cases r.valid) [
    | inr off ↦ rw off (any_text-valid name rs)
    | inl on ↦ rw (on, any_text-valid name rs) refl
  ]

  hit_any :
      (name : List ℕ) (rules : List Rule) (s : Rule)
      → In s rules
      → hits lib name s ≡ true
      → any_hit lib name rules ≡ true
  hit_any name [] s h hit = absurd h
  hit_any name (r ∷ rs) s (inl e) hit = rw (sym e, hit) refl
  hit_any name (r ∷ rs) s (inr h) hit = rw (hit_any name rs s h hit) (or_true (hits lib name r))

  first_any :
      (name : List ℕ) (rules : List Rule) (o : Option ℕ)
      → IsFirst lib name rules o
      → any_hit lib name rules ≡ is_some o
  first_any name [] none h = refl
  first_any name [] (some i) ((r, h, _, _), _) = absurd h
  first_any name (r ∷ rs) none (miss, h) = rw (miss, first_any name rs none h) refl
  first_any name (r ∷ rs) (some i) ((s, h, e, hit), least) = hit_any name (r ∷ rs) s h hit

-- Under the laws of the regex library, and for rules that `Rule::create` made, the rebuilt joined
-- regex matches a non-empty name exactly when the attribution names a rule.
pub match_name-match_first_rule_id :
    (lib : RegexLib) (laws : RegexLaws lib) (name : List ℕ) (rules : List Rule)
    → name ≢ []
    → AreCreated lib rules
    → match_name lib (rebuild lib rules) name
      ≡ is_some (match_first_rule_id lib (rebuild lib rules) name)
unfolding match_name rebuild
match_name-match_first_rule_id lib laws name rules ne h =
    joined-any lib laws name (valid_texts lib rules) ne (valid_texts-compile lib rules h)
    ∙ any_text-valid lib name rules
    ∙ first_any lib name rules _ (match_first_rule_id-IsFirst lib name rules)

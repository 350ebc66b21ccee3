-- ===== src/Domain/Explained.antt =====
-- The explanation of a decision on a domain ends in that decision.
use sakamoto_snort.Common.{
  ℕ, suc, ◌≤◌, ◌≡◌, ◌≢◌, refl, sym, ap, ◌∙◌, inl, inr, Bool, true, not, List, [], ◌∷◌, some,
  is_some, ltb, leb, Bool-cases, Option-cases, All, Ordered, sort, sort-Ordered, All-sort,
  insert_sorted, length, arith,
}
use sakamoto_snort.Domain.Rules.{
  RegexLib, Rule, CustomRules, rebuild, attribution, by_id, first_match, match_name,
  match_first_rule_id,
}
use sakamoto_snort.Domain.Match.{RegexLaws, AreCreated, match_name-match_first_rule_id}
use sakamoto_snort.Domain.Priority.{
  Settled, settled, stages-settle, decision-settle, decision-color,
}
use sakamoto_snort.Domain.Policy.{
  Color, Domain, Lists, App, Decision, decided, exists, blocked_with_source_and_rule_id,
}
use sakamoto_snort.Domain.Debug.{
  candidates, cap_candidates, matching_rules, matching_entries, first_id, is_empty, color_of,
  rules_of, run_stages, evaluate_debug,
}

sort-Ordered_id : (xs : List ℕ) → Ordered (λ a b. a ≤ b) xs → sort ltb xs ≡ xs
unfolding sort insert_sorted
sort-Ordered_id [] o = refl
sort-Ordered_id (x ∷ []) o = refl
sort-Ordered_id (x ∷ y ∷ ys) o = rw (sort-Ordered_id (y ∷ ys) o.1) (ground arith)

first_id-cap : (xs : List ℕ) → first_id (cap_candidates xs).0 ≡ first_id xs
unfolding cap_candidates
first_id-cap [] = refl
first_id-cap (x ∷ xs) = elim (Bool-cases (leb (suc (length xs)) 64)) [
  | inl small ↦ rw small refl
  | inr large ↦ rw large refl
]

is_empty-first_id : (xs : List ℕ) → is_empty xs ≡ not (is_some (first_id xs))
is_empty-first_id [] = refl
is_empty-first_id (x ∷ xs) = refl

module _ (lib : RegexLib) (known : ℕ → Bool) where
  candidates-first :
      (name : List ℕ) (es : List (ℕ × lib.Compiled))
      → All (λ e. known e.0 ≡ true) es
      → first_id (candidates lib known name es) ≡ first_match lib name es
  unfolding candidates first_match
  candidates-first name [] k = refl
  candidates-first name ((i, c) ∷ es) (k, ks) = elim (Bool-cases (lib.regex_match name c)) [
    | inl hit ↦ rw (hit, k) refl
    | inr miss ↦ rw miss (candidates-first name es ks)
  ]

  candidates-All :
      (P : ℕ → Type 0) (name : List ℕ) (es : List (ℕ × lib.Compiled))
      → All (λ e. P e.0) es
      → All P (candidates lib known name es)
  unfolding candidates
  candidates-All P name [] h = tt
  candidates-All P name ((i, c) ∷ es) (p, ps) = elim (Bool-cases (lib.regex_match name c)) [
    | inr miss ↦ rw miss (candidates-All P name es ps)
    | inl hit ↦ elim (Bool-cases (known i)) [
      | inl k ↦ rw (hit, k) (p, candidates-All P name es ps)
      | inr u ↦ rw (hit, u) (candidates-All P name es ps)
    ]
  ]

  candidates-Ordered :
      (name : List ℕ) (es : List (ℕ × lib.Compiled))
      → Ordered (λ a b. a.0 ≤ b.0) es
      → Ordered (λ a b. a ≤ b) (candidates lib known name es)
  unfolding candidates
  candidates-Ordered name [] o = tt
  candidates-Ordered name ((i, c) ∷ es) (p, ps) = elim (Bool-cases (lib.regex_match name c)) [
    | inr miss ↦ rw miss (candidates-Ordered name es ps)
    | inl hit ↦ elim (Bool-cases (known i)) [
      | inl k ↦ rw (hit, k) (candidates-All (λ j. i ≤ j) name es p, candidates-Ordered name es ps)
      | inr u ↦ rw (hit, u) (candidates-Ordered name es ps)
    ]
  ]

  -- The rules of a list as they stand after a rebuild, each known to the rules' manager.
  abbrev pub IsBuilt : CustomRules lib → Type 0
  IsBuilt c =
      (c ≡ rebuild lib c.rules) × AreCreated lib c.rules × All (λ r. known r.id ≡ true) c.rules

  attribution-known :
      (rules : List Rule)
      → All (λ r. known r.id ≡ true) rules
      → All (λ e. known e.0 ≡ true) (attribution lib rules)
  unfolding attribution
  attribution-known [] h = tt
  attribution-known (r ∷ rs) (k, h) = elim (Bool-cases r.valid) [
    | inr off ↦ rw off (attribution-known rs h)
    | inl on ↦ elim (Option-cases (lib.compile r.regex_text)) [
      | inl bad ↦ rw (on, bad) (attribution-known rs h)
      | inr (c, good) ↦ rw (on, good) (k, attribution-known rs h)
    ]
  ]

  -- The first candidate of a rebuilt list is the attributed rule.
  rebuilt-first :
      (d : Domain) (rules : List Rule)
      → All (λ r. known r.id ≡ true) rules
      → first_id (rules_of lib known (rebuild lib rules) (some d))
        ≡ match_first_rule_id lib (rebuild lib rules) d.name
  unfolding matching_rules match_first_rule_id rebuild
  rebuilt-first d rules k =
      let es = sort (by_id lib) (attribution lib rules) in
      let ordered =
        sort-Ordered (by_id lib) (λ a b. a.0 ≤ b.0) (λ a b c h k. omega arith)
          (λ a b h. ground arith) (λ a b h. ground arith) (attribution lib rules) in
      first_id-cap (sort ltb (candidates lib known d.name es))
      ∙ ap first_id (sort-Ordered_id _ (candidates-Ordered d.name es ordered))
      ∙ candidates-first d.name es
          (All-sort (by_id lib) (λ e. known e.0 ≡ true) _ (attribution-known rules k))

  built-first :
      (d : Domain) (c : CustomRules lib)
      → IsBuilt c
      → first_id (rules_of lib known c (some d)) ≡ match_first_rule_id lib c d.name
  built-first d c (e, _, k) =
      ap (λ b. first_id (rules_of lib known b (some d))) e
      ∙ rebuilt-first d c.rules k
      ∙ ap (λ b. match_first_rule_id lib b d.name) (sym e)

  built-match_name :
      (laws : RegexLaws lib) (d : Domain) (c : CustomRules lib)
      → d.name ≢ []
      → IsBuilt c
      → match_name lib c d.name ≡ is_some (match_first_rule_id lib c d.name)
  built-match_name laws d c ne (e, created, _) =
      ap (λ b. match_name lib b d.name) e
      ∙ match_name-match_first_rule_id lib laws d.name c.rules ne created
      ∙ ap (λ b. is_some (match_first_rule_id lib b d.name)) (sym e)

  entries-exists :
      (ks : List ℕ) (d : Domain) → not (is_empty (matching_entries ks (some d))) ≡ exists ks d
  unfolding matching_entries
  entries-exists ks d = ground arith

  abbrev colored : Color → Settled → Decision lib
  colored c s = decided lib s.0 c s.1 s.2

  recolored : (r : Decision lib) (c : Color) → r.color ≡ c → colored c (settled lib r) ≡ r
  recolored r c e = rw (sym e) refl

  -- For a domain with a name, lists whose snapshots are built from created and known rules, and a
  -- regex library that keeps the laws, the explanation of the stages ends in the decision of
  -- `blockedWithSourceAndRuleId`: the same verdict, source and rule, and the same color.
  pub evaluate_debug-agrees :
      (laws : RegexLaws lib) (enabled : Bool) (m : Lists lib) (a : App lib) (d : Domain)
      → d.name ≢ []
      → IsBuilt a.own.white_rules
      → IsBuilt a.own.black_rules
      → IsBuilt m.white_rules
      → IsBuilt m.black_rules
      → evaluate_debug lib known enabled m a (some d)
        ≡ blocked_with_source_and_rule_id lib enabled m a (some d)
  unfolding evaluate_debug run_stages
  evaluate_debug-agrees laws enabled m a d ne w b mw mb =
      let stages =
        stages-settle (matching_entries a.own.custom_white (some d))
          (matching_entries a.own.custom_black (some d))
          (rules_of lib known a.own.white_rules (some d))
          (rules_of lib known a.own.black_rules (some d)) (matching_entries m.custom_white (some d))
          (rules_of lib known m.white_rules (some d)) (matching_entries m.custom_black (some d))
          (rules_of lib known m.black_rules (some d)) a.app_mask d.block_mask enabled
          a.use_custom_list in
      let code =
        decision-settle lib enabled m a d _ _ _ _ (built-match_name laws d a.own.white_rules ne w)
          (built-match_name laws d a.own.black_rules ne b)
          (built-match_name laws d m.white_rules ne mw)
          (built-match_name laws d m.black_rules ne mb) refl refl refl refl in
      let tests =
        rw
          (
            sym (entries-exists a.own.custom_white d),
            sym (entries-exists a.own.custom_black d),
            sym (entries-exists m.custom_white d),
            sym (entries-exists m.custom_black d),
            sym (built-first d a.own.white_rules w),
            sym (built-first d a.own.black_rules b),
            sym (built-first d m.white_rules mw),
            sym (built-first d m.black_rules mb),
          )
          at code in
      ap (colored (color_of enabled (some d))) (stages ∙ sym tests)
      ∙ recolored (blocked_with_source_and_rule_id lib enabled m a (some d))
          (color_of enabled (some d)) (decision-color lib enabled m a d)

-- ===== src/Domain/First.antt =====
-- The rule that a match is attributed to: the valid matching rule with the least id.
use sakamoto_snort.Common.{
  ℕ, ◌≤◌, ◌≡◌, refl, sym, ap, ◌∙◌, ◌⊎◌, inl, inr, Bool, true, false, ◌&&◌, List, [], ◌∷◌, Option,
  none, some, Bool-cases, Option-cases, In, All, All-In, All-mono, All-tabulate, Ordered, sort,
  sort-Ordered, sort-In, In-sort, arith,
}
use sakamoto_snort.Domain.Rules.{
  RegexLib, Rule, attribution, by_id, rebuild, first_match, match_first_rule_id,
}

module _ (lib : RegexLib) where
  -- A rule that counts for a name: valid, and its own text matches.
  abbrev pub hits : List ℕ → Rule → Bool
  hits name r =
      r.valid && elim (lib.compile r.regex_text) [ none ↦ false | some c ↦ lib.regex_match name c ]

  -- What the attribution of a name must be.
  abbrev pub IsFirst : List ℕ → List Rule → Option ℕ → Type 0
  IsFirst name rules none = All (λ r. hits name r ≡ false) rules
  IsFirst name rules (some i) =
      ((r : Rule) × In r rules × (r.id ≡ i) × (hits name r ≡ true))
      × All (λ r. hits name r ≡ true → i ≤ r.id) rules

  abbrev Entry : Type 0
  Entry = ℕ × lib.Compiled

  abbrev Source : ℕ → lib.Compiled → List Rule → Type 0
  Source i c rules =
      (r : Rule) × In r rules × (r.id ≡ i) × (r.valid ≡ true) × (lib.compile r.regex_text ≡ some c)

  attribution-later :
      (i : ℕ) (c : lib.Compiled) (r : Rule) (rs : List Rule) → Source i c rs → Source i c (r ∷ rs)
  attribution-later i c r rs (s, h, e, v, f) = (s, inr h, e, v, f)

  abbrev compiled : Entry → lib.Compiled
  compiled e = e.1

  abbrev entry_id : Entry → ℕ
  entry_id e = e.0

  attribution-head :
      (i : ℕ) (c d : lib.Compiled) (r : Rule) (rs : List Rule)
      → ◌≡◌ {A = Entry} (i, c) (r.id, d)
      → r.valid ≡ true
      → lib.compile r.regex_text ≡ some d
      → Source i c (r ∷ rs)
  attribution-head i c d r rs same v e =
      let first : r.id ≡ i = ap entry_id (sym same) in
      let second : d ≡ c = ap compiled (sym same) in (r, inl refl, first, v, e ∙ ap some second)

  attribution-In :
      (i : ℕ) (c : lib.Compiled) (rules : List Rule)
      → In (i, c) (attribution lib rules)
      → Source i c rules
  unfolding attribution
  attribution-In i c [] h = absurd h
  attribution-In i c (r ∷ rs) h = elim (Bool-cases r.valid) [
    | inr v ↦ attribution-later i c r rs (attribution-In i c rs (rw v at h))
    | inl v ↦ elim (Option-cases (lib.compile r.regex_text)) [
      | inl e ↦ attribution-later i c r rs (attribution-In i c rs (rw (v, e) at h))
      | inr (d, e) ↦
          let h' : ◌≡◌ {A = Entry} (i, c) (r.id, d) ⊎ In (i, c) (attribution lib rs) =
            rw (v, e) at h in
          elim h' [
            | inl same ↦ attribution-head i c d r rs same v e
            | inr later ↦ attribution-later i c r rs (attribution-In i c rs later)
          ]
    ]
  ]

  In-attribution :
      (r : Rule) (c : lib.Compiled) (rules : List Rule)
      → In r rules
      → r.valid ≡ true
      → lib.compile r.regex_text ≡ some c
      → In (r.id, c) (attribution lib rules)
  unfolding attribution
  In-attribution r c [] h v e = absurd h
  In-attribution r c (s ∷ rs) (inl same) v e =
      let v' : s.valid ≡ true = rw (sym same) v in
      let e' : lib.compile s.regex_text ≡ some c = rw (sym same) e in
      rw (v', e') (inl (rw same refl))
  In-attribution r c (s ∷ rs) (inr h) v e = elim (Bool-cases s.valid) [
    | inr off ↦ rw off (In-attribution r c rs h v e)
    | inl on ↦ elim (Option-cases (lib.compile s.regex_text)) [
      | inl bad ↦ rw (on, bad) (In-attribution r c rs h v e)
      | inr (d, good) ↦ rw (on, good) (inr (In-attribution r c rs h v e))
    ]
  ]

  -- The same for the compiled entries.
  abbrev IsLeast : List ℕ → List Entry → Option ℕ → Type 0
  IsLeast name es none = All (λ e. lib.regex_match name e.1 ≡ false) es
  IsLeast name es (some i) =
      ((c : lib.Compiled) × In (i, c) es × (lib.regex_match name c ≡ true))
      × All (λ e. lib.regex_match name e.1 ≡ true → i ≤ e.0) es

  is_later :
      (name : List ℕ) (i : ℕ) (c : lib.Compiled) (es : List Entry)
      → lib.regex_match name c ≡ false
      → (o : Option ℕ) → IsLeast name es o
      → IsLeast name ((i, c) ∷ es) o
  is_later name i c es miss none h = (miss, h)
  is_later name i c es miss (some j) ((d, h, hit), least) =
      ((d, inr h, hit), (λ hit'. absurd (cc), least))

  first_match-IsLeast :
      (name : List ℕ) (es : List Entry)
      → Ordered (λ a b. a.0 ≤ b.0) es
      → IsLeast name es (first_match lib name es)
  unfolding first_match
  first_match-IsLeast name [] o = tt
  first_match-IsLeast name ((i, c) ∷ es) o = elim (Bool-cases (lib.regex_match name c)) [
    | inl hit ↦ rw hit ((c, inl refl, hit), (λ _. omega arith, All-mono _ _ (λ e le _. le) es o.0))
    | inr miss ↦
        rw miss
          (is_later name i c es miss (first_match lib name es) (first_match-IsLeast name es o.1))
  ]

  entry_hits :
      (name : List ℕ) (r : Rule) (c : lib.Compiled)
      → r.valid ≡ true
      → lib.compile r.regex_text ≡ some c
      → hits name r ≡ lib.regex_match name c
  entry_hits name r c v e = rw (v, e) refl

  hits-entry :
      (name : List ℕ) (r : Rule)
      → hits name r ≡ true
      → (c : lib.Compiled) × (r.valid ≡ true) × (lib.compile r.regex_text ≡ some c)
  hits-entry name r h = elim (Bool-cases r.valid) [
    | inr off ↦ absurd (let bad : false ≡ true = rw off at h in cc)
    | inl on ↦ elim (Option-cases (lib.compile r.regex_text)) [
      | inl none_ ↦ absurd (let bad : false ≡ true = rw (on, none_) at h in cc)
      | inr (c, e) ↦ (c, on, e)
    ]
  ]

  -- What holds of the entries of the attribution holds of the rules.
  least_of_rules :
      (name : List ℕ) (rules : List Rule) (o : Option ℕ)
      → IsLeast name (sort (by_id lib) (attribution lib rules)) o
      → IsFirst name rules o
  least_of_rules name rules none h = All-tabulate _ rules (λ r i. elim (Bool-cases (hits name r)) [
    | inr miss ↦ miss
    | inl hit ↦
        let (c, v, e) = hits-entry name r hit in
        let there = In-sort (by_id lib) (r.id, c) _ (In-attribution r c rules i v e) in
        let miss = All-In (λ e. lib.regex_match name e.1 ≡ false) (r.id, c) _ h there in
        entry_hits name r c v e ∙ miss
  ])
  least_of_rules name rules (some i) ((c, there, hit), least) =
      let (r, h, e, v, f) = attribution-In i c rules (sort-In (by_id lib) (i, c) _ there) in
      (
        (r, h, e, entry_hits name r c v f ∙ hit),
        All-tabulate _ rules (λ s j hs.
            let (d, v', f') = hits-entry name s hs in
            let there' = In-sort (by_id lib) (s.id, d) _ (In-attribution s d rules j v' f') in
            All-In (λ e. lib.regex_match name e.1 ≡ true → i ≤ e.0) (s.id, d) _ least there'
              (sym (entry_hits name s d v' f') ∙ hs)),
      )

  -- After a rebuild a name is attributed to the valid matching rule with the least id, and to none
  -- exactly when no valid rule matches, in whatever order the rules are walked.
  pub match_first_rule_id-IsFirst :
      (name : List ℕ) (rules : List Rule)
      → IsFirst name rules (match_first_rule_id lib (rebuild lib rules) name)
  unfolding match_first_rule_id rebuild
  match_first_rule_id-IsFirst name rules = least_of_rules name rules _ (
      first_match-IsLeast name _ (
        sort-Ordered (by_id lib) (λ a b. a.0 ≤ b.0) (λ a b c h k. omega arith)
          (λ a b h. ground arith) (λ a b h. ground arith) (attribution lib rules)))

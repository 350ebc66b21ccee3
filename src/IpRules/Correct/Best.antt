-- ===== src/IpRules/Correct/Best.antt =====
-- `Bucket::bestEnforce` and `bestWould`: the rule they return is one of the bucket's that matches,
-- and has the highest priority among those.
use sakamoto_snort.Common.{
  ◌≡◌, refl, sym, ap, ◌∙◌, ◌⊎◌, inl, inr, true, false, List, [], ◌∷◌, Option, none, some, arith,
  Bool-cases, Option-cases, In, All-In, Ordered, ℤ, ◌≤ℤ◌, ltb_ℤ, sort, sort-Ordered,
}
use sakamoto_snort.IpRules.Rule.{RuleRef, PacketKey}
use sakamoto_snort.IpRules.Family.{Ip}
use sakamoto_snort.IpRules.Table.{
  Lane, Bucket, exact_of, range_of, rule_less, rule_matches, exact_candidate, range_above,
  range_first, best,
}

abbrev pub Before : {A : Type 0} → RuleRef A → RuleRef A → Type 0
Before a b = b.priority ≤ℤ a.priority

rule_less-Before : {A : Type 0} (a b : RuleRef A) → rule_less a b ≡ true → Before a b
unfolding rule_less
rule_less-Before a b h = ground arith

not_rule_less-Before : {A : Type 0} (a b : RuleRef A) → rule_less a b ≡ false → Before b a
unfolding rule_less
not_rule_less-Before a b h = ground arith

pub sort-Before : {A : Type 0} (rs : List (RuleRef A)) → Ordered Before (sort rule_less rs)
sort-Before =
    sort-Ordered rule_less Before (λ a b c p q. omega arith) rule_less-Before not_rule_less-Before

head_highest :
    {A : Type 0} (r t : RuleRef A) (rs : List (RuleRef A))
    → Ordered Before (r ∷ rs)
    → In t (r ∷ rs)
    → t.priority ≤ℤ r.priority
head_highest r t rs o (inl e) = rw e (omega arith)
head_highest r t rs o (inr i) = All-In (Before r) t rs o.0 i

below_head :
    {A : Type 0} (p : ℤ) (r t : RuleRef A)
    → t.priority ≤ℤ r.priority
    → ltb_ℤ p r.priority ≡ false
    → t.priority ≤ℤ p
below_head p r t h below = ground arith

module _ {A : Type 0} ⦃ip : Ip A⦄ (k : PacketKey A) where
  not_head :
      (r t : RuleRef A) (rs : List (RuleRef A))
      → rule_matches r k ≡ false
      → In t (r ∷ rs)
      → rule_matches t k ≡ true
      → In t rs
  not_head r t rs e (inl same) m =
      let clash : true ≡ false = sym m ∙ ap (λ x. rule_matches x k) same ∙ e in cc
  not_head r t rs e (inr i) m = i

  -- What a candidate owes to the rules it was chosen from.
  abbrev pub Covers : RuleRef A → Option (RuleRef A) → Type 0
  Covers t r = (c : RuleRef A) × (r ≡ some c) × (t.priority ≤ℤ c.priority)

  range_first-In :
      (rs : List (RuleRef A)) (c : RuleRef A)
      → range_first rs k ≡ some c
      → In c rs × (rule_matches c k ≡ true)
  unfolding range_first
  range_first-In [] c h = cc
  range_first-In (r ∷ rs) c h = elim (Bool-cases (rule_matches r k)) [
    | inl e ↦ ground arith
    | inr e ↦ let (i, m) = range_first-In rs c (rw e at h) in (inr i, m)
  ]

  range_first-Covers :
      (rs : List (RuleRef A)) (t : RuleRef A)
      → Ordered Before rs
      → In t rs
      → rule_matches t k ≡ true
      → Covers t (range_first rs k)
  unfolding range_first
  range_first-Covers [] t o i m = absurd i
  range_first-Covers (r ∷ rs) t o i m = elim (Bool-cases (rule_matches r k)) [
    | inl e ↦ rw e (r, refl, head_highest r t rs o i)
    | inr e ↦ rw e (range_first-Covers rs t o.1 (not_head r t rs e i m) m)
  ]

  range_above-In :
      (p : ℤ) (rs : List (RuleRef A)) (c : RuleRef A)
      → range_above p rs k ≡ some c
      → In c rs × (rule_matches c k ≡ true) × (p ≤ℤ c.priority)
  unfolding range_above
  range_above-In p [] c h = cc
  range_above-In p (r ∷ rs) c h = elim (Bool-cases (ltb_ℤ p r.priority)) [
    | inl above ↦ elim (Bool-cases (rule_matches r k)) [
      | inl e ↦
          let same : some r ≡ some c = rw (above, e) at h in
          let eq : r ≡ c = cc in (inl (sym eq), rw (← eq) e, rw (← eq) (ground arith))
      | inr e ↦ let (i, m, q) = range_above-In p rs c (rw (above, e) at h) in (inr i, m, q)
    ]
    | inr below ↦ let none_eq : ◌≡◌ {A = Option (RuleRef A)} none (some c) = rw below at h in cc
  ]

  -- A matching rule above the priority is beaten only by one that is as high.
  range_above-Covers :
      (p : ℤ) (rs : List (RuleRef A)) (t : RuleRef A)
      → Ordered Before rs
      → In t rs
      → rule_matches t k ≡ true
      → Covers t (range_above p rs k) ⊎ (t.priority ≤ℤ p)
  unfolding range_above
  range_above-Covers p [] t o i m = absurd i
  range_above-Covers p (r ∷ rs) t o i m = elim (Bool-cases (ltb_ℤ p r.priority)) [
    | inl above ↦ elim (Bool-cases (rule_matches r k)) [
      | inl e ↦ rw (above, e) (inl (r, refl, head_highest r t rs o i))
      | inr e ↦ rw (above, e) (range_above-Covers p rs t o.1 (not_head r t rs e i m) m)
    ]
    | inr below ↦ inr (below_head p r t (head_highest r t rs o i) below)
  ]

  exact_candidate-In :
      (rs : List (RuleRef A)) (c : RuleRef A)
      → exact_candidate rs k ≡ some c
      → In c rs × (rule_matches c k ≡ true)
  unfolding exact_candidate
  exact_candidate-In [] c h = cc
  exact_candidate-In (r ∷ rs) c h = elim (Bool-cases (rule_matches r k)) [
    | inl e ↦
        let same : some r ≡ some c = rw e at h in let eq : r ≡ c = cc in (inl (sym eq), rw (← eq) e)
    | inr e ↦ let none_eq : ◌≡◌ {A = Option (RuleRef A)} none (some c) = rw e at h in cc
  ]

  -- Where all exact rules match alike, testing the first one is enough.
  exact_candidate-Covers :
      (rs : List (RuleRef A)) (t : RuleRef A)
      → Ordered Before rs
      → ((a : RuleRef A) → In a rs → rule_matches a k ≡ rule_matches t k)
      → In t rs
      → rule_matches t k ≡ true
      → Covers t (exact_candidate rs k)
  unfolding exact_candidate
  exact_candidate-Covers [] t o alike i m = absurd i
  exact_candidate-Covers (r ∷ rs) t o alike i m =
      rw (alike r (inl refl) ∙ m) (r, refl, head_highest r t rs o i)

  pub best-In :
      (lane : Lane) (b : Bucket A) (c : RuleRef A)
      → best lane b k ≡ some c
      → (In c (exact_of lane b) ⊎ In c (range_of lane b)) × (rule_matches c k ≡ true)
  unfolding best
  best-In lane b c h = elim (Option-cases (exact_candidate (exact_of lane b) k)) [
    | inl nil ↦ let (i, m) = range_first-In (range_of lane b) c (rw (nil, best) at h) in (inr i, m)
    | inr (e, is) ↦ elim (Option-cases (range_above e.priority (range_of lane b) k)) [
      | inl nil ↦
          let (i, m) = exact_candidate-In (exact_of lane b) c (is ∙ (rw (is, best, nil) at h)) in
          (inl i, m)
      | inr (r, is') ↦
          let (i, m, _) =
            range_above-In e.priority (range_of lane b) c (is' ∙ (rw (is, best, is') at h)) in
          (inr i, m)
    ]
  ]

  pub best-Covers :
      (lane : Lane) (b : Bucket A) (t : RuleRef A)
      → Ordered Before (exact_of lane b)
      → Ordered Before (range_of lane b)
      → (In t (exact_of lane b)
          → (a : RuleRef A) → In a (exact_of lane b)
          → rule_matches a k ≡ rule_matches t k)
      → In t (exact_of lane b) ⊎ In t (range_of lane b)
      → rule_matches t k ≡ true
      → Covers t (best lane b k)
  unfolding best
  best-Covers lane b t oe or alike (inl i) m =
      let (e, is, le) = exact_candidate-Covers (exact_of lane b) t oe (alike i) i m in
      elim (Option-cases (range_above e.priority (range_of lane b) k)) [
        | inl nil ↦ rw (is, best, nil) (e, refl, le)
        | inr (r, is') ↦
            let (_, _, up) = range_above-In e.priority (range_of lane b) r is' in
            rw (is, best, is') (r, refl, omega arith)
      ]
  best-Covers lane b t oe or alike (inr i) m =
      elim (Option-cases (exact_candidate (exact_of lane b) k)) [
        | inl nil ↦ rw (nil, best) (range_first-Covers (range_of lane b) t or i m)
        | inr (e, is) ↦ elim (range_above-Covers e.priority (range_of lane b) t or i m) [
          | inl (r, is', le) ↦ rw (is, best, is') (r, refl, le)
          | inr le ↦ elim (Option-cases (range_above e.priority (range_of lane b) k)) [
            | inl nil ↦ rw (is, best, nil) (e, refl, le)
            | inr (r, is') ↦
                let (_, _, up) = range_above-In e.priority (range_of lane b) r is' in
                rw (is, best, is') (r, refl, omega arith)
          ]
        ]
      ]

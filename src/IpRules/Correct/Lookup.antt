-- ===== src/IpRules/Correct/Lookup.antt =====
-- The loop of `lookupBestEnforce` and `lookupBestWould`: with the subtables in descending order of
-- their maximum, stopping early loses no rule of higher priority.
use sakamoto_snort.Common.{
  ℕ, zero, suc, ◌<◌, ◌≡◌, refl, sym, ap, ◌∙◌, ◌⊎◌, inl, inr, Bool, true, false, not, ◌&&◌, ◌||◌,
  List, [], ◌∷◌, Option, none, some, arith, if◌then◌else◌, is_some, Bool-cases, Option-cases, In,
  All, All-In, Ordered, ℤ, ◌≤ℤ◌, ◌<ℤ◌, ltb_ℤ, eqb_ℤ, length, get_elem?, get_elem?-In,
}
use sakamoto_snort.IpRules.Rule.{RuleRef, PacketKey}
use sakamoto_snort.IpRules.Family.{Ip}
use sakamoto_snort.IpRules.Table.{
  Lane, Subtable, max_of, no_priority, candidate, improve, lookup_loop,
}
use sakamoto_snort.IpRules.Compile.{subtable_at}
use sakamoto_snort.IpRules.Correct.Best.{Covers}

pub get_elem?-subtable_at :
    {A : Type 0} (sts : List (Subtable A)) (i : ℕ)
    → i < length sts
    → get_elem? sts i ≡ some (subtable_at sts i)
get_elem?-subtable_at [] i h = absurd (omega arith)
get_elem?-subtable_at (x ∷ sts) zero h = refl
get_elem?-subtable_at (x ∷ sts) (suc i) h = get_elem?-subtable_at sts i (omega arith)

pub subtable_at_lem :
    {A : Type 0} (sts : List (Subtable A)) (i : ℕ) (st : Subtable A)
    → get_elem? sts i ≡ some st
    → subtable_at sts i ≡ st
subtable_at_lem [] i st h = cc
subtable_at_lem (x ∷ sts) zero st h = cc
subtable_at_lem (x ∷ sts) (suc i) st h = subtable_at_lem sts i st h

highest_first :
    (f : ℕ → ℤ) (i j : ℕ) (is : List ℕ)
    → Ordered (λ a b. f b ≤ℤ f a) (i ∷ is)
    → In j (i ∷ is)
    → f j ≤ℤ f i
highest_first f i j is o (inl e) = rw e (omega arith)
highest_first f i j is o (inr h) = All-In (λ b. f b ≤ℤ f i) j is o.0 h

module _ {A : Type 0} where
  -- The priority that the loop carries is that of its best rule.
  abbrev pub Holds : RuleRef A → Option (RuleRef A) × ℤ → Type 0
  Holds b s = (s.0 ≡ some b) × (s.1 ≡ b.priority)

  abbrev pub Tracks : Option (RuleRef A) × ℤ → Type 0
  Tracks s = (s.0 ≡ none) ⊎ ((b : RuleRef A) × Holds b s)

  improve-keeps :
      (b : RuleRef A) (o : Option (RuleRef A)) (s : Option (RuleRef A) × ℤ)
      → Holds b s
      → (d : RuleRef A) × Holds d (improve o s) × (b.priority ≤ℤ d.priority)
  unfolding improve
  improve-keeps b none s h = (b, h, omega arith)
  improve-keeps b (some c) (o, p) h = elim (Bool-cases (ltb_ℤ p c.priority)) [
    | inl up ↦ rw (h.0, up) (c, (refl, refl), rw (← h.1) (ground arith))
    | inr down ↦ rw (h.0, down) (b, (refl, h.1), omega arith)
  ]

  improve-takes :
      (c : RuleRef A) (s : Option (RuleRef A) × ℤ)
      → Tracks s
      → (d : RuleRef A) × Holds d (improve (some c) s) × (c.priority ≤ℤ d.priority)
  unfolding improve
  improve-takes c (o, p) (inl e) = rw e (c, (refl, refl), omega arith)
  improve-takes c (o, p) (inr (b, h)) = elim (Bool-cases (ltb_ℤ p c.priority)) [
    | inl up ↦ rw (h.0, up) (c, (refl, refl), omega arith)
    | inr down ↦ rw (h.0, down) (b, (refl, h.1), rw (← h.1) (ground arith))
  ]

  improve-Tracks :
      (o : Option (RuleRef A)) (s : Option (RuleRef A) × ℤ) → Tracks s → Tracks (improve o s)
  improve-Tracks none s h = unfold improve in h
  improve-Tracks (some c) s h = let (d, hd, _) = improve-takes c s h in inr (d, hd)

  improve-P :
      (P : RuleRef A → Type 0) (o : Option (RuleRef A)) (s : Option (RuleRef A) × ℤ)
      → ((d : RuleRef A) → o ≡ some d → P d)
      → ((d : RuleRef A) → s.0 ≡ some d → P d)
      → (d : RuleRef A) → (improve o s).0 ≡ some d
      → P d
  unfolding improve
  improve-P P none s f g d h = g d h
  improve-P P (some c) (o, p) f g d h = elim (Bool-cases (not (is_some o) || ltb_ℤ p c.priority)) [
    | inl up ↦ f d (rw up at h)
    | inr down ↦ g d (rw down at h)
  ]

  stops :
      (P : RuleRef A → Type 0) (c : RuleRef A) (o : Option (RuleRef A)) (x y : Bool)
      (r : Option (RuleRef A))
      → (o ≡ some c → P c)
      → (r ≡ some c → P c)
      → (if x then o else if y then o else r) ≡ some c
      → P c
  stops P c o true y r f g h = f h
  stops P c o false true r f g h = f h
  stops P c o false false r f g h = g h

  -- The loop either stops, with the best so far, or goes on.
  either_way :
      ⦃ip : Ip A⦄ (k : PacketKey A) (t : RuleRef A) (o : Option (RuleRef A)) (x y : Bool)
      (r : Option (RuleRef A))
      → Covers k t o
      → Covers k t r
      → Covers k t (if x then o else if y then o else r)
  either_way k t o true y r p q = p
  either_way k t o false true r p q = p
  either_way k t o false false r p q = q

  unless :
      ⦃ip : Ip A⦄ (k : PacketKey A) (t : RuleRef A) (o : Option (RuleRef A)) (x y : Bool)
      (r : Option (RuleRef A))
      → ¬ (x ≡ true)
      → (y ≡ true → Covers k t o)
      → Covers k t r
      → Covers k t (if x then o else if y then o else r)
  unless k t o true y r f g h = absurd (f refl)
  unless k t o false true r f g h = g refl
  unless k t o false false r f g h = h

  -- The first early return: what is left has the least priority of all.
  not_least :
      (t : RuleRef A) (m : ℤ)
      → t.priority ≤ℤ m
      → no_priority <ℤ t.priority
      → ¬ (eqb_ℤ m no_priority ≡ true)
  not_least t m le lo e = ground arith

  -- The second early return: the best so far beats what is left.
  beaten :
      ⦃ip : Ip A⦄ (k : PacketKey A) (t : RuleRef A) (s : Option (RuleRef A) × ℤ) (m : ℤ)
      → Tracks s
      → t.priority ≤ℤ m
      → (is_some s.0 && ltb_ℤ m s.1) ≡ true
      → Covers k t s.0
  beaten k t (o, p) m (inl nil) le h = let no_best : false ≡ true = rw nil at h in cc
  beaten k t (o, p) m (inr (b, (is_b, is_p))) le h = (b, is_b, rw (← is_p) (ground arith))

module _ {A : Type 0} ⦃ip : Ip A⦄ (lane : Lane) (sts : List (Subtable A)) (k : PacketKey A) where
  abbrev pub max_at : ℕ → ℤ
  max_at i = max_of lane (subtable_at sts i)

  loop-keeps :
      (order : List ℕ) (b : RuleRef A) (s : Option (RuleRef A) × ℤ)
      → Holds b s
      → Covers k b (lookup_loop lane sts order k s)
  unfolding lookup_loop
  loop-keeps [] b s h = (b, h.0, omega arith)
  loop-keeps (i ∷ is) b s h = elim (Option-cases (get_elem? sts i)) [
    | inl nil ↦ rw (nil, lookup_loop) (b, h.0, omega arith)
    | inr (st, e) ↦
        let (d, hd, le) = improve-keeps b (candidate lane st k) s h in
        let (c, is_c, le') = loop-keeps is d (improve (candidate lane st k) s) hd in
        rw (e, lookup_loop)
          (either_way k b s.0 (eqb_ℤ (max_of lane st) no_priority) _ _ (b, h.0, omega arith)
            (c, is_c, omega arith))
  ]

  pub loop-P :
      (P : RuleRef A → Type 0) (order : List ℕ) (s : Option (RuleRef A) × ℤ) (c : RuleRef A)
      → ((st : Subtable A) (d : RuleRef A) → In st sts → candidate lane st k ≡ some d → P d)
      → ((d : RuleRef A) → s.0 ≡ some d → P d)
      → lookup_loop lane sts order k s ≡ some c
      → P c
  unfolding lookup_loop
  loop-P P [] s c cand start h = start c h
  loop-P P (i ∷ is) s c cand start h = elim (Option-cases (get_elem? sts i)) [
    | inl nil ↦ start c (rw (nil, lookup_loop) at h)
    | inr (st, e) ↦
        stops P c s.0 (eqb_ℤ (max_of lane st) no_priority)
          (is_some s.0 && ltb_ℤ (max_of lane st) s.1)
          (lookup_loop lane sts is k (improve (candidate lane st k) s)) (start c)
          (loop-P P is (improve (candidate lane st k) s) c cand (
            improve-P P (candidate lane st k) s (λ d q. cand st d (get_elem?-In st sts i e) q)
              start))
          (rw (e, lookup_loop) at h)
  ]

  -- A rule of a subtable that the loop has still to reach is found, or beaten.
  pub loop-Covers :
      (order : List ℕ) (s : Option (RuleRef A) × ℤ) (t : RuleRef A) (i₀ : ℕ) (st₀ : Subtable A)
      → All (λ i. i < length sts) order
      → Ordered (λ i j. max_at j ≤ℤ max_at i) order
      → Tracks s
      → In i₀ order
      → get_elem? sts i₀ ≡ some st₀
      → Covers k t (candidate lane st₀ k)
      → t.priority ≤ℤ max_of lane st₀
      → no_priority <ℤ t.priority
      → Covers k t (lookup_loop lane sts order k s)
  unfolding lookup_loop
  loop-Covers [] s t i₀ st₀ valid sorted tr i e cand le lo = absurd i
  loop-Covers (i ∷ is) s t i₀ st₀ valid sorted tr at₀ e cand le lo =
      let st : Subtable A = subtable_at sts i in
      let bound : max_at i₀ ≤ℤ max_at i = highest_first max_at i i₀ is sorted at₀ in
      let same : max_at i₀ ≡ max_of lane st₀ = ap (max_of lane) (subtable_at_lem sts i₀ st₀ e) in
      let le₀ : t.priority ≤ℤ max_at i₀ = rw same le in
      rw (get_elem?-subtable_at sts i valid.0, lookup_loop)
        (unless k t s.0 (eqb_ℤ (max_of lane st) no_priority)
          (is_some s.0 && ltb_ℤ (max_of lane st) s.1)
          (lookup_loop lane sts is k (improve (candidate lane st k) s))
          (λ x. not_least t (max_of lane st) (omega arith) lo x)
          (beaten k t s (max_of lane st) tr (omega arith))
          (elim at₀ [
            | inl here ↦
                let (c, is_c, le_c) = cand in
                let same_st : st ≡ st₀ =
                  ap (subtable_at sts) (sym here) ∙ subtable_at_lem sts i₀ st₀ e in
                let (d, holds, le_d) = improve-takes c s tr in
                let (r, is_r, le_r) = loop-keeps is d (improve (some c) s) holds in
                rw (same_st, is_c) (r, is_r, omega arith)
            | inr later ↦
                loop-Covers is (improve (candidate lane st k) s) t i₀ st₀ valid.1 sorted.1
                  (improve-Tracks (candidate lane st k) s tr) later e cand le lo
          ]))

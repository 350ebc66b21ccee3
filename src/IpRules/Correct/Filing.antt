-- ===== src/IpRules/Correct/Filing.antt =====
-- What `compile` files where: every filed rule comes from an enabled rule with the uid, signature
-- and masked key of its place, and is within its subtable's maximum; and every enabled rule is filed.
use sakamoto_snort.Common.{
  ℕ, ◌≡◌, refl, subst, inl, inr, Bool, true, false, List, [], ◌∷◌, arith, if◌then◌else◌, ltb, ◌==◌,
  ==_iff, Bool-cases, In, In-append_left, In-append_right, All, All-mono, All-append, ℤ, ◌≤ℤ◌,
  upsert, All-upsert,
}
use sakamoto_snort.IpRules.Rule.{RuleRef, has_range_ports}
use sakamoto_snort.IpRules.Family.{Ip}
use sakamoto_snort.IpRules.Signature.{
  MaskSig, MaskedKey, sig_eq, sig_eq→eq, sig_less, key_eq, key_eq→eq, mask_sig_for_rule,
  masked_key_from_rule,
}
use sakamoto_snort.IpRules.Table.{
  Lane, enforcing, would, Bucket, Subtable, exact_of, range_of, max_of,
}
use sakamoto_snort.IpRules.Compile.{
  RuleState, RulesMap, family_eq, lane_of, empty_bucket, empty_subtable, Tables, push, rule_ref,
  file_rule, file_at,
}

-- The vector of a bucket that a rule goes to.
abbrev pub vec : {A : Type 0} → Lane → Bool → Bucket A → List (RuleRef A)
vec lane ranged b = if ranged then range_of lane b else exact_of lane b

module _ {A : Type 0} where
  pub In-push :
      (r : RuleRef A) (lane lane' : Lane) (ranged ranged' : Bool) (r' : RuleRef A) (b : Bucket A)
      → In r (vec lane ranged b)
      → In r (vec lane ranged (push lane' ranged' r' b))
  unfolding push
  In-push r enforcing enforcing true true r' b h = In-append_left r b.range_enforce (r' ∷ []) h
  In-push r enforcing enforcing false false r' b h = In-append_left r b.exact_enforce (r' ∷ []) h
  In-push r would would true true r' b h = In-append_left r b.range_would (r' ∷ []) h
  In-push r would would false false r' b h = In-append_left r b.exact_would (r' ∷ []) h
  In-push r enforcing enforcing true false r' b h = h
  In-push r enforcing enforcing false true r' b h = h
  In-push r would would true false r' b h = h
  In-push r would would false true r' b h = h
  In-push r enforcing would ranged true r' b h = h
  In-push r enforcing would ranged false r' b h = h
  In-push r would enforcing ranged true r' b h = h
  In-push r would enforcing ranged false r' b h = h

  pub In-push_self :
      (lane : Lane) (ranged : Bool) (r : RuleRef A) (b : Bucket A)
      → In r (vec lane ranged (push lane ranged r b))
  unfolding push
  In-push_self enforcing true r b = In-append_right r b.range_enforce (r ∷ []) (inl refl)
  In-push_self enforcing false r b = In-append_right r b.exact_enforce (r ∷ []) (inl refl)
  In-push_self would true r b = In-append_right r b.range_would (r ∷ []) (inl refl)
  In-push_self would false r b = In-append_right r b.exact_would (r ∷ []) (inl refl)

  -- A predicate of the rules of a bucket, by the vector that they stand in.
  abbrev pub Each : (Lane → Bool → RuleRef A → Type 0) → Bucket A → Type 0
  Each P b = (lane : Lane) (ranged : Bool) → All (P lane ranged) (vec lane ranged b)

  Each-push :
      (P : Lane → Bool → RuleRef A → Type 0) (lane : Lane) (ranged : Bool) (r : RuleRef A)
      (b : Bucket A)
      → P lane ranged r
      → Each P b
      → Each P (push lane ranged r b)
  unfolding push
  Each-push P enforcing true r b p e enforcing true =
      All-append (P enforcing true) b.range_enforce (r ∷ []) (e enforcing true) (p, tt)
  Each-push P enforcing false r b p e enforcing false =
      All-append (P enforcing false) b.exact_enforce (r ∷ []) (e enforcing false) (p, tt)
  Each-push P would true r b p e would true =
      All-append (P would true) b.range_would (r ∷ []) (e would true) (p, tt)
  Each-push P would false r b p e would false =
      All-append (P would false) b.exact_would (r ∷ []) (e would false) (p, tt)
  Each-push P enforcing true r b p e enforcing false = e enforcing false
  Each-push P enforcing false r b p e enforcing true = e enforcing true
  Each-push P would true r b p e would false = e would false
  Each-push P would false r b p e would true = e would true
  Each-push P enforcing true r b p e would x = e would x
  Each-push P enforcing false r b p e would x = e would x
  Each-push P would true r b p e enforcing x = e enforcing x
  Each-push P would false r b p e enforcing x = e enforcing x

  Each-mono :
      (P Q : Lane → Bool → RuleRef A → Type 0)
      → ((lane : Lane) (ranged : Bool) (r : RuleRef A) → P lane ranged r → Q lane ranged r)
      → (b : Bucket A) → Each P b
      → Each Q b
  Each-mono P Q f b e lane ranged =
      All-mono (P lane ranged) (Q lane ranged) (f lane ranged) (vec lane ranged b) (e lane ranged)

abbrev pub IsActive : {A : Type 0} → Ip A → RuleState → Type 0
IsActive ip st = (st.def.enabled ≡ true) × (family_eq st.def.family ip.family ≡ true)

module _ {A : Type 0} (ip : Ip A) (rules : RulesMap) where
  -- The rule state that a filed rule was made from, and what puts it where it is.
  pub record Filed (uid : ℕ) (s : MaskSig) (mk : MaskedKey A) (lane : Lane) (ranged : Bool)
      (r : RuleRef A) : Type 0 where
    pub id : ℕ
    pub state : RuleState
    pub listed : In (id, state) rules
    pub active : IsActive ip state
    pub made : r ≡ rule_ref ⦃ip = ip⦄ state
    pub at_uid : state.def.uid ≡ uid
    pub at_sig : mask_sig_for_rule ip state.def ≡ s
    pub at_key : masked_key_from_rule ⦃ip = ip⦄ s state.def ≡ mk
    pub in_lane : lane_of state.def ≡ lane
    pub in_vec : has_range_ports state.def ≡ ranged

  abbrev pub InPlace : ℕ → MaskSig → MaskedKey A → (Lane → ℤ) → Lane → Bool → RuleRef A → Type 0
  InPlace uid s mk m lane ranged r = Filed uid s mk lane ranged r × (r.priority ≤ℤ m lane)

  abbrev pub BucketOk : ℕ → MaskSig → (Lane → ℤ) → MaskedKey A × Bucket A → Type 0
  BucketOk uid s m e = Each (InPlace uid s e.0 m) e.1

  abbrev pub SubtableOk : ℕ → MaskSig × Subtable A → Type 0
  SubtableOk uid e = (e.1.sig ≡ e.0) × All (BucketOk uid e.0 (λ lane. max_of lane e.1)) e.1.buckets

  abbrev pub TablesOk : Tables A → Type 0
  TablesOk = All (λ e. All (SubtableOk e.0) e.1)

le_trans_ℤ : {A : Type 0} (r : RuleRef A) (m n : ℤ) → r.priority ≤ℤ m → m ≤ℤ n → r.priority ≤ℤ n
le_trans_ℤ r m n h k = omega arith

abbrev pub sig_of : {A : Type 0} → Ip A → RuleState → MaskSig
sig_of ip st = mask_sig_for_rule ip st.def

abbrev pub key_of : {A : Type 0} (ip : Ip A) → RuleState → MaskedKey A
key_of ip st = masked_key_from_rule ⦃ip = ip⦄ (sig_of ip st) st.def

module _ {A : Type 0} ⦃ip : Ip A⦄ (rules : RulesMap) (i : ℕ) (st : RuleState)
    (listed : In (i, st) rules) (active : IsActive ip st) where
  filed :
      Filed ip rules st.def.uid
        (sig_of ip st)
        (key_of ip st)
        (lane_of st.def)
        (has_range_ports st.def)
        (rule_ref st)
  filed = record {
    id = i;
    state = st;
    listed = listed;
    active = active;
    made = refl;
    at_uid = refl;
    at_sig = refl;
    at_key = refl;
    in_lane = refl;
    in_vec = refl;
  }

  -- The maxima only grow, and take in the rule that is filed.
  max-grows : (lane : Lane) (t : Subtable A) → max_of lane t ≤ℤ max_of lane (file_rule st t)
  unfolding file_rule
  max-grows enforcing t = ground arith
  max-grows would t = ground arith

  max-covers : (t : Subtable A) → st.def.priority ≤ℤ max_of (lane_of st.def) (file_rule st t)
  unfolding file_rule
  max-covers t = elim (Bool-cases st.def.enforce) [
    | inl e ↦ rw e (ground arith)
    | inr e ↦ rw e (ground arith)
  ]

  raise :
      (t : Subtable A)
      → All (BucketOk ip rules st.def.uid (sig_of ip st) (λ lane. max_of lane t)) t.buckets
      → All
          (BucketOk ip rules st.def.uid (sig_of ip st) (λ lane. max_of lane (file_rule st t)))
          t.buckets
  raise t ok =
      All-mono (BucketOk ip rules st.def.uid (sig_of ip st) (λ lane. max_of lane t))
        (BucketOk ip rules st.def.uid (sig_of ip st) (λ lane. max_of lane (file_rule st t)))
        (λ e each.
          Each-mono (InPlace ip rules st.def.uid (sig_of ip st) e.0 (λ lane. max_of lane t))
            (InPlace ip rules st.def.uid (sig_of ip st) e.0 (λ lane. max_of lane (file_rule st t)))
            (λ lane ranged r p. (
              p.0,
              le_trans_ℤ r (max_of lane t) (max_of lane (file_rule st t)) p.1 (max-grows lane t),
            ))
            e.1 each)
        t.buckets ok

  -- Filing under the rule's key keeps every bucket right.
  upsert-BucketOk :
      (m : Lane → ℤ) (bs : List (MaskedKey A × Bucket A))
      → st.def.priority ≤ℤ m (lane_of st.def)
      → All (BucketOk ip rules st.def.uid (sig_of ip st) m) bs
      → All (BucketOk ip rules st.def.uid (sig_of ip st) m) (
          upsert key_eq
            (λ a b. false)
            empty_bucket
            (push (lane_of st.def) (has_range_ports st.def) (rule_ref st))
            (key_of ip st)
            bs)
  upsert-BucketOk m bs le ok =
      All-upsert key_eq (λ a b. false) (BucketOk ip rules st.def.uid (sig_of ip st) m) empty_bucket
        (push (lane_of st.def) (has_range_ports st.def) (rule_ref st)) (key_of ip st) bs
        (λ j b same each.
          subst
            (λ mk.
              Each (InPlace ip rules st.def.uid (sig_of ip st) mk m) b
              → Each (InPlace ip rules st.def.uid (sig_of ip st) mk m)
                  (push (lane_of st.def) (has_range_ports st.def) (rule_ref st) b))
            (key_eq→eq (key_of ip st) j same) (here b) each)
        (here empty_bucket (λ lane ranged. nothing lane ranged)) ok
    where
      here :
          (b : Bucket A)
          → Each (InPlace ip rules st.def.uid (sig_of ip st) (key_of ip st) m) b
          → Each
              (InPlace ip rules st.def.uid (sig_of ip st) (key_of ip st) m)
              (push (lane_of st.def) (has_range_ports st.def) (rule_ref st) b)
      here b =
          Each-push (InPlace ip rules st.def.uid (sig_of ip st) (key_of ip st) m) (lane_of st.def)
            (has_range_ports st.def) (rule_ref st) b (filed, unfold rule_ref in le)

      nothing : Each (InPlace ip rules st.def.uid (sig_of ip st) (key_of ip st) m) empty_bucket
      nothing enforcing true = tt
      nothing enforcing false = tt
      nothing would true = tt
      nothing would false = tt

  file_rule-SubtableOk :
      (t : Subtable A)
      → All (BucketOk ip rules st.def.uid (sig_of ip st) (λ lane. max_of lane t)) t.buckets
      → SubtableOk ip rules st.def.uid (sig_of ip st, file_rule st t)
  file_rule-SubtableOk t ok = (
    unfold file_rule in refl,
    unfold file_rule in
        upsert-BucketOk (λ lane. max_of lane (file_rule st t)) t.buckets (max-covers t)
          (raise t ok),
  )

  pub file_at-TablesOk :
      (tables : Tables A) → TablesOk ip rules tables → TablesOk ip rules (file_at tables st)
  file_at-TablesOk tables ok =
      unfold file_at in
      All-upsert ◌==◌ ltb (λ e. All (SubtableOk ip rules e.0) e.1) []
        (upsert sig_eq sig_less empty_subtable (file_rule st) (sig_of ip st)) st.def.uid tables
        (λ j subs same sub_ok.
          subst
            (λ u.
              All (SubtableOk ip rules u) subs
              → All (SubtableOk ip rules u)
                  (upsert sig_eq sig_less empty_subtable (file_rule st) (sig_of ip st) subs))
            ((==_iff st.def.uid j).0 same) (here subs) sub_ok)
        (here [] tt) ok
    where
      here :
          (subs : List (MaskSig × Subtable A))
          → All (SubtableOk ip rules st.def.uid) subs
          → All
              (SubtableOk ip rules st.def.uid)
              (upsert sig_eq sig_less empty_subtable (file_rule st) (sig_of ip st) subs)
      here subs =
          All-upsert sig_eq sig_less (SubtableOk ip rules st.def.uid) empty_subtable (file_rule st)
            (sig_of ip st) subs
            (λ j t same t_ok.
              subst
                (λ s.
                  SubtableOk ip rules st.def.uid (s, t)
                  → SubtableOk ip rules st.def.uid (s, file_rule st t))
                (sig_eq→eq (sig_of ip st) j same) (λ o. file_rule-SubtableOk t o.1) t_ok)
            (file_rule-SubtableOk empty_subtable tt)

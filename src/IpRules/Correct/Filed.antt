-- ===== src/IpRules/Correct/Filed.antt =====
-- Every enabled rule of the family is in the bucket that `compile`'s tables have for it.
use sakamoto_snort.Common.{
  ℕ, ◌≡◌, refl, sym, ap, subst, ◌⊎◌, inl, inr, true, false, List, [], ◌∷◌, arith, ltb, ◌==◌, ==_iff,
  ==_refl, Bool-cases, In, find_or, upsert, find_or-upsert, find_or-upsert_self,
}
use sakamoto_snort.IpRules.Rule.{has_range_ports}
use sakamoto_snort.IpRules.Family.{Ip}
use sakamoto_snort.IpRules.Signature.{
  MaskSig, MaskedKey, sig_eq, sig_eq→eq, sig_eq_refl, sig_less, key_eq, key_eq→eq, key_eq_refl,
}
use sakamoto_snort.IpRules.Table.{Bucket, Subtable}
use sakamoto_snort.IpRules.Compile.{
  RuleState, RulesMap, family_eq, lane_of, empty_bucket, empty_subtable, Tables, push, rule_ref,
  file_rule, file_at, add_rule, add_rules,
}
use sakamoto_snort.IpRules.Correct.Filing.{
  vec, In-push, In-push_self, IsActive, sig_of, key_of, TablesOk, file_at-TablesOk,
}

pub ==→eq : (a b : ℕ) → (a == b) ≡ true → a ≡ b
==→eq a b = (==_iff a b).0

-- A rule stands in the place that the tables give its uid, signature and key.
module _ {A : Type 0} ⦃ip : Ip A⦄ where
  abbrev pub bucket_at : Tables A → ℕ → MaskSig → MaskedKey A → Bucket A
  bucket_at tables uid s mk =
      find_or key_eq empty_bucket mk
        (find_or sig_eq empty_subtable s (find_or ◌==◌ [] uid tables)).buckets

  abbrev pub IsFiled : RuleState → Tables A → Type 0
  IsFiled st tables = In (rule_ref st) (
      vec (lane_of st.def) (has_range_ports st.def)
        (bucket_at tables st.def.uid (sig_of ip st) (key_of ip st)))

  abbrev InBucket : RuleState → Bucket A → Type 0
  InBucket st b = In (rule_ref st) (vec (lane_of st.def) (has_range_ports st.def) b)

  abbrev InSubtable : RuleState → Subtable A → Type 0
  InSubtable st t = InBucket st (find_or key_eq empty_bucket (key_of ip st) t.buckets)

  abbrev InSubtables : RuleState → List (MaskSig × Subtable A) → Type 0
  InSubtables st subs = InSubtable st (find_or sig_eq empty_subtable (sig_of ip st) subs)

  file_rule-files : (st : RuleState) (t : Subtable A) → InSubtable st (file_rule st t)
  unfolding file_rule
  file_rule-files st t =
      subst (InBucket st)
        (sym (
          find_or-upsert_self key_eq (λ a b. false) key_eq→eq key_eq_refl empty_bucket
            (push (lane_of st.def) (has_range_ports st.def) (rule_ref st)) (key_of ip st)
            t.buckets))
        (In-push_self (lane_of st.def) (has_range_ports st.def) (rule_ref st)
          (find_or key_eq empty_bucket (key_of ip st) t.buckets))

  file_rule-keeps :
      (st st' : RuleState) (t : Subtable A) → InSubtable st t → InSubtable st (file_rule st' t)
  unfolding file_rule
  file_rule-keeps st st' t =
      find_or-upsert key_eq (λ a b. false) key_eq→eq key_eq_refl (InBucket st) empty_bucket
        (push (lane_of st'.def) (has_range_ports st'.def) (rule_ref st')) (key_of ip st')
        (key_of ip st) t.buckets
        (λ b.
          In-push (rule_ref st) (lane_of st.def) (lane_of st'.def) (has_range_ports st.def)
            (has_range_ports st'.def) (rule_ref st') b)

  file_at-IsFiled : (st : RuleState) (tables : Tables A) → IsFiled st (file_at tables st)
  file_at-IsFiled st tables =
      unfold file_at in
      subst (InSubtables st)
        (sym (
          find_or-upsert_self ◌==◌ ltb ==→eq ==_refl []
            (upsert sig_eq sig_less empty_subtable (file_rule st) (sig_of ip st)) st.def.uid
            tables))
        (subst (InSubtable st)
          (sym (
            find_or-upsert_self sig_eq sig_less sig_eq→eq sig_eq_refl empty_subtable (file_rule st)
              (sig_of ip st) (find_or ◌==◌ [] st.def.uid tables)))
          (file_rule-files st
            (find_or sig_eq empty_subtable (sig_of ip st) (find_or ◌==◌ [] st.def.uid tables))))

  file_at-keeps :
      (st st' : RuleState) (tables : Tables A) → IsFiled st tables → IsFiled st (file_at tables st')
  file_at-keeps st st' tables =
      unfold file_at in
      find_or-upsert ◌==◌ ltb ==→eq ==_refl (InSubtables st) []
        (upsert sig_eq sig_less empty_subtable (file_rule st') (sig_of ip st')) st'.def.uid
        st.def.uid tables
        (λ subs.
          find_or-upsert sig_eq sig_less sig_eq→eq sig_eq_refl (InSubtable st) empty_subtable
            (file_rule st') (sig_of ip st') (sig_of ip st) subs (file_rule-keeps st st'))

  add_rule-active :
      (st : RuleState) (tables : Tables A) → IsActive ip st → add_rule tables st ≡ file_at tables st
  unfolding add_rule
  add_rule-active st tables active = ground arith

  add_rule-skips :
      (st : RuleState) (tables : Tables A)
      → (st.def.enabled ≡ false) ⊎ (family_eq st.def.family ip.family ≡ false)
      → add_rule tables st ≡ tables
  unfolding add_rule
  add_rule-skips st tables h = ground arith

  -- A property of the tables that every active rule keeps is one that every rule keeps.
  add_rule-P :
      (P : Tables A → Type 0) (st : RuleState) (tables : Tables A)
      → (IsActive ip st → P (file_at tables st))
      → P tables
      → P (add_rule tables st)
  add_rule-P P st tables f p = elim (Bool-cases st.def.enabled) [
    | inr off ↦ subst P (sym (add_rule-skips st tables (inl off))) p
    | inl on ↦ elim (Bool-cases (family_eq st.def.family ip.family)) [
      | inl mine ↦ subst P (sym (add_rule-active st tables (on, mine))) (f (on, mine))
      | inr other ↦ subst P (sym (add_rule-skips st tables (inr other))) p
    ]
  ]

  add_rules-TablesOk :
      (all rules : RulesMap) (tables : Tables A)
      → ((e : ℕ × RuleState) → In e rules → In e all)
      → TablesOk ip all tables
      → TablesOk ip all (add_rules tables rules)
  unfolding add_rules
  add_rules-TablesOk all [] tables sub ok = ok
  add_rules-TablesOk all ((i, st) ∷ rules) tables sub ok =
      add_rules-TablesOk all rules (add_rule tables st) (λ e h. sub e (inr h))
        (add_rule-P (TablesOk ip all) st tables
          (λ active. file_at-TablesOk all i st (sub (i, st) (inl refl)) active tables ok) ok)

  add_rules-keeps :
      (st : RuleState) (rules : RulesMap) (tables : Tables A)
      → IsFiled st tables
      → IsFiled st (add_rules tables rules)
  unfolding add_rules
  add_rules-keeps st [] tables h = h
  add_rules-keeps st ((i, st') ∷ rules) tables h =
      add_rules-keeps st rules (add_rule tables st')
        (add_rule-P (IsFiled st) st' tables (λ active. file_at-keeps st st' tables h) h)

  pub add_rules-IsFiled :
      (i : ℕ) (st : RuleState) (rules : RulesMap) (tables : Tables A)
      → IsActive ip st
      → In (i, st) rules
      → IsFiled st (add_rules tables rules)
  unfolding add_rules
  add_rules-IsFiled i st [] tables active h = absurd h
  add_rules-IsFiled i st ((j, st') ∷ rules) tables active (inl e) =
      let same : st ≡ st' = ap (λ p. p.1) e in
      add_rules-keeps st rules (add_rule tables st')
        (rw (← same) (rw (add_rule-active st tables active) (file_at-IsFiled st tables)))
  add_rules-IsFiled i st ((j, st') ∷ rules) tables active (inr h) =
      add_rules-IsFiled i st rules (add_rule tables st') active h

pub compiled-TablesOk :
    {A : Type 0} (ip : Ip A) (rules : RulesMap) → TablesOk ip rules (add_rules ⦃ip = ip⦄ [] rules)
compiled-TablesOk ip rules = add_rules-TablesOk ⦃ip = ip⦄ rules rules [] (λ e h. h) tt

-- ===== src/IpRules/Correct/Winner.antt =====
-- The lookups over the compiled views against the list of rules.
use sakamoto_snort.Common.{
  ℕ, ◌≡◌, ap, ◌∙◌, subst, inl, inr, Bool, true, false, List, [], map, Option, none, some, ◌==◌,
  Option-cases, In, In-map, All, All-In, ℤ, find, find-In, sort-In,
}
use sakamoto_snort.IpRules.Rule.{RuleRef, PacketKey}
use sakamoto_snort.IpRules.Family.{Ip}
use sakamoto_snort.IpRules.Signature.{MaskSig, MaskedKey, key_eq, masked_key_from_packet}
use sakamoto_snort.IpRules.Table.{
  Lane, Bucket, Subtable, UidView, exact_of, range_of, max_of, order_of, rule_less, sort_all,
  rule_matches, best, candidate, lookup_loop, lookup_best, no_priority,
}
use sakamoto_snort.IpRules.Compile.{
  RuleState, RulesMap, lane_of, rule_ref, add_rules, sort_subtable, uid_view, compile_views,
  contains_uid, uids_using_ct,
}
use sakamoto_snort.IpRules.Correct.Best.{best-In}
use sakamoto_snort.IpRules.Correct.Lookup.{loop-P}
use sakamoto_snort.IpRules.Correct.Filing.{IsActive, Filed, SubtableOk, BucketOk, InPlace}
use sakamoto_snort.IpRules.Correct.Filed.{compiled-TablesOk}
use sakamoto_snort.IpRules.Correct.Views.{exact-sort_all, range-sort_all, subtables-uid_view}

module _ {A : Type 0} ⦃ip : Ip A⦄ (rules : RulesMap) (k : PacketKey A) where
  -- A rule that may decide the packet in a lane.
  pub record IsCandidate (lane : Lane) (st : RuleState) : Type 0 where
    pub id : ℕ
    pub listed : In (id, st) rules
    pub active : IsActive ip st
    pub in_lane : lane_of st.def ≡ lane
    pub matched : rule_matches (rule_ref st) k ≡ true

  abbrev pub ComesFromRule : Lane → RuleRef A → Type 0
  ComesFromRule lane c = (st : RuleState) × IsCandidate lane st × (c ≡ rule_ref st)

  from_Filed :
      (lane : Lane) (ranged : Bool) (uid : ℕ) (s : MaskSig) (mk : MaskedKey A) (c : RuleRef A)
      → Filed ip rules uid s mk lane ranged c
      → rule_matches c k ≡ true
      → ComesFromRule lane c
  from_Filed lane ranged uid s mk c f m = (
    f.state,
    record {
      id = f.id;
      listed = f.listed;
      active = f.active;
      in_lane = f.in_lane;
      matched = subst (λ r. rule_matches r k ≡ true) f.made m;
    },
    f.made,
  )

  from_Bucket :
      (lane : Lane) (uid : ℕ) (s : MaskSig) (m : Lane → ℤ) (mk : MaskedKey A) (b : Bucket A)
      (c : RuleRef A)
      → BucketOk ip rules uid s m (mk, b)
      → best lane (sort_all b) k ≡ some c
      → ComesFromRule lane c
  from_Bucket lane uid s m mk b c ok h =
      let (place, matched) = best-In k lane (sort_all b) c h in
      elim place [
        | inl e ↦
            from_Filed lane false uid s mk c
              (All-In (InPlace ip rules uid s mk m lane false) c (exact_of lane b) (ok lane false)
                (sort-In rule_less c (exact_of lane b) (subst (In c) (exact-sort_all lane b) e))).0
              matched
        | inr e ↦
            from_Filed lane true uid s mk c
              (All-In (InPlace ip rules uid s mk m lane true) c (range_of lane b) (ok lane true)
                (sort-In rule_less c (range_of lane b) (subst (In c) (range-sort_all lane b) e))).0
              matched
      ]

  from_Subtable :
      (lane : Lane) (uid : ℕ) (s : MaskSig) (t : Subtable A) (c : RuleRef A)
      → SubtableOk ip rules uid (s, t)
      → candidate lane (sort_subtable t) k ≡ some c
      → ComesFromRule lane c
  unfolding candidate sort_subtable
  from_Subtable lane uid s t c ok h =
      elim (Option-cases (find key_eq (masked_key_from_packet t.sig k) (sort_subtable t).buckets)) [
        | inl nil ↦
            let clash : ◌≡◌ {A = Option (RuleRef A)} none (some c) = rw (nil, candidate) at h in cc
        | inr (b, e) ↦
            let (j, listed, _) =
              find-In key_eq (masked_key_from_packet t.sig k) b (sort_subtable t).buckets e in
            let (entry, listed', same) =
              In-map (λ e. (e.0, sort_all e.1)) (j, b) t.buckets listed in
            let b_is : b ≡ sort_all entry.1 = ap (λ p. p.1) same in
            from_Bucket lane uid s (λ l. max_of l t) entry.0 entry.1 c
              (All-In (BucketOk ip rules uid s (λ l. max_of l t)) entry t.buckets ok.1 listed')
              (subst (λ x. best lane x k ≡ some c) b_is (rw (e, candidate) at h))
      ]

  from_Subtables :
      (lane : Lane) (uid : ℕ) (subs : List (MaskSig × Subtable A)) (order : List ℕ) (c : RuleRef A)
      → All (SubtableOk ip rules uid) subs
      → lookup_loop lane (map (λ e. sort_subtable e.1) subs) order k (none, no_priority) ≡ some c
      → ComesFromRule lane c
  from_Subtables lane uid subs order c ok h =
      loop-P lane (map (λ e. sort_subtable e.1) subs) k (ComesFromRule lane) order
        (none, no_priority) c
        (λ t d i cand.
          let (e, listed, same) = In-map (λ e. sort_subtable e.1) t subs i in
          from_Subtable lane uid e.0 e.1 d (All-In (SubtableOk ip rules uid) e subs ok listed)
            (subst (λ x. candidate lane x k ≡ some d) same cand))
        (λ d e. absurd cc) h

  -- A found rule is one of the list: enabled, of the lane, and matching the packet.
  pub lookup_best-ComesFromRule :
      (lane : Lane) (c : RuleRef A)
      → lookup_best lane (compile_views rules) k ≡ some c
      → ComesFromRule lane c
  unfolding lookup_best compile_views
  lookup_best-ComesFromRule lane c h =
      let views : List (ℕ × UidView A) = compile_views rules in
      elim (Option-cases (find ◌==◌ k.uid views)) [
        | inl nil ↦
            let clash : ◌≡◌ {A = Option (RuleRef A)} none (some c) = rw (nil, lookup_best) at h in
            cc
        | inr (view, e) ↦
            let (u, listed, _) = find-In ◌==◌ k.uid view views e in
            let (entry, listed', same) =
              In-map (λ e. (e.0, uid_view (contains_uid e.0 (uids_using_ct ip.family rules)) e.1))
                (u, view) (add_rules [] rules) listed in
            let ct : Bool = contains_uid entry.0 (uids_using_ct ip.family rules) in
            let view_is : view ≡ uid_view ct entry.1 = ap (λ p. p.1) same in
            let run : lookup_loop lane view.subtables (order_of lane view) k (none, no_priority)
                ≡ some c =
              rw (e, lookup_best) at h in
            from_Subtables lane entry.0 entry.1 (order_of lane view) c
              (All-In (λ e. All (SubtableOk ip rules e.0) e.1) entry (add_rules [] rules)
                (compiled-TablesOk ip rules) listed')
              (subst
                (λ sts. lookup_loop lane sts (order_of lane view) k (none, no_priority) ≡ some c)
                (ap (λ v. v.subtables) view_is ∙ subtables-uid_view ct entry.1) run)
      ]

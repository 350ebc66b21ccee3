-- ===== src/IpRules/Correct/Found.antt =====
-- The lookups over the compiled views find every matching rule of their lane, or a higher one.
use sakamoto_snort.Common.{
  ℕ, ◌≡◌, refl, sym, ap, ◌∙◌, subst, ◌⊎◌, inl, inr, Bool, true, false, List, [], map, none, some,
  ◌==◌, In, map-In, In-get_elem?, All, All-In, ℤ, ◌≤ℤ◌, ◌<ℤ◌, find, find_or, find-In, find-map,
  found, In-sort, sort-In,
}
use sakamoto_snort.IpRules.Rule.{RuleRef, PacketKey, has_range_ports}
use sakamoto_snort.IpRules.Family.{Ip}
use sakamoto_snort.IpRules.Signature.{
  MaskSig, MaskedKey, sig_eq, sig_eq→eq, key_eq, key_eq→eq, masked_key_from_packet,
}
use sakamoto_snort.IpRules.Table.{
  Lane, enforcing, would, Bucket, Subtable, UidView, exact_of, range_of, max_of, order_of,
  rule_less, sort_all, rule_matches, best, candidate, lookup_loop, lookup_best, no_priority,
}
use sakamoto_snort.IpRules.Compile.{
  RuleState, RulesMap, lane_of, empty_bucket, empty_subtable, Tables, rule_ref, add_rules,
  sort_subtable, sorted_order, uid_view, compile_views, contains_uid, uids_using_ct,
}
use sakamoto_snort.IpRules.Correct.Match.{
  IsRule, IsPacket, filed_match, rule_matches-filed, rule_matches-key,
}
use sakamoto_snort.IpRules.Correct.Best.{Covers, sort-Before, best-Covers}
use sakamoto_snort.IpRules.Correct.Lookup.{loop-Covers}
use sakamoto_snort.IpRules.Correct.Filing.{
  vec, IsActive, sig_of, key_of, Filed, SubtableOk, BucketOk, InPlace,
}
use sakamoto_snort.IpRules.Correct.Filed.{==→eq, add_rules-IsFiled, compiled-TablesOk}
use sakamoto_snort.IpRules.Correct.Views.{
  exact-sort_all, range-sort_all, max-sort_subtable, sorted_order-valid, In-sorted_order,
  sorted_order-Ordered, order-uid_view, subtables-uid_view,
}

vec-empty :
    {A : Type 0} (r : RuleRef A) (lane : Lane) (ranged : Bool)
    → ¬ In r (vec lane ranged empty_bucket)
vec-empty r enforcing true h = h
vec-empty r enforcing false h = h
vec-empty r would true h = h
vec-empty r would false h = h

vec-either :
    {A : Type 0} (r : RuleRef A) (lane : Lane) (ranged : Bool) (b : Bucket A)
    → In r (vec lane ranged b)
    → In r (exact_of lane (sort_all b)) ⊎ In r (range_of lane (sort_all b))
vec-either r lane true b h =
    inr (rw (range-sort_all lane b) (In-sort rule_less r (range_of lane b) h))
vec-either r lane false b h =
    inl (rw (exact-sort_all lane b) (In-sort rule_less r (exact_of lane b) h))

module _ {A : Type 0} ⦃ip : Ip A⦄ (rules : RulesMap) (k : PacketKey A)
    (valid : All (λ e. IsRule ip e.1.def) rules) (packet : IsPacket ip k) where
  -- The exact rules of a bucket match alike.
  exact_alike :
      (uid : ℕ) (s : MaskSig) (mk : MaskedKey A) (lane : Lane) (a : RuleRef A)
      → Filed ip rules uid s mk lane false a
      → rule_matches a k ≡ filed_match uid s mk k
  exact_alike uid s mk lane a f =
      let rule : IsRule ip f.state.def =
        All-In (λ e. IsRule ip e.1.def) (f.id, f.state) rules valid f.listed in
      let own : rule_matches (rule_ref f.state) k
          ≡ filed_match f.state.def.uid (sig_of ip f.state) (key_of ip f.state) k =
        rule_matches-filed f.state k rule packet f.in_vec in
      let key_is : key_of ip f.state ≡ mk = rw f.at_sig f.at_key in
      ap (λ r. rule_matches r k) f.made
      ∙ own
      ∙ ap (λ u. filed_match u (sig_of ip f.state) (key_of ip f.state) k) f.at_uid
      ∙ ap (λ x. filed_match uid x (key_of ip f.state) k) f.at_sig
      ∙ ap (λ x. filed_match uid s x k) key_is

  bucket-Covers :
      (lane : Lane) (ranged : Bool) (uid : ℕ) (s : MaskSig) (m : Lane → ℤ) (mk : MaskedKey A)
      (b : Bucket A) (r : RuleRef A)
      → BucketOk ip rules uid s m (mk, b)
      → In r (vec lane ranged b)
      → rule_matches r k ≡ true
      → Covers k r (best lane (sort_all b) k)
  bucket-Covers lane ranged uid s m mk b r ok i matched =
      best-Covers k lane (sort_all b) r (rw (exact-sort_all lane b) (sort-Before (exact_of lane b)))
        (rw (range-sort_all lane b) (sort-Before (range_of lane b)))
        (λ at_r a at_a. alike a at_a ∙ sym (alike r at_r)) (vec-either r lane ranged b i) matched
    where
      alike :
          (a : RuleRef A)
          → In a (exact_of lane (sort_all b))
          → rule_matches a k ≡ filed_match uid s mk k
      alike a at_a =
          exact_alike uid s mk lane a
            (All-In (InPlace ip rules uid s mk m lane false) a (exact_of lane b) (ok lane false)
              (sort-In rule_less a (exact_of lane b) (subst (In a) (exact-sort_all lane b) at_a))).0

  abbrev AtKey : RuleState → Lane → Bool → Subtable A → Type 0
  AtKey st lane ranged t =
      In (rule_ref st) (vec lane ranged (find_or key_eq empty_bucket (key_of ip st) t.buckets))

  AtKey-none :
      (st : RuleState) (lane : Lane) (ranged : Bool) → ¬ AtKey st lane ranged empty_subtable
  unfolding find_or find
  AtKey-none st lane ranged h = vec-empty (rule_ref {A = A} st) lane ranged h

  AtKey-nothing :
      (st : RuleState) (lane : Lane) (ranged : Bool)
      → ¬ AtKey st lane ranged (find_or sig_eq empty_subtable (sig_of ip st) [])
  unfolding find_or find
  AtKey-nothing st lane ranged h = vec-empty (rule_ref {A = A} st) lane ranged h

  candidate-at :
      (lane : Lane) (t : Subtable A) (s : MaskSig) (mk : MaskedKey A) (b : Bucket A)
      → t.sig ≡ s
      → masked_key_from_packet s k ≡ mk
      → find key_eq mk (sort_subtable t).buckets ≡ some b
      → candidate lane (sort_subtable t) k ≡ best lane b k
  unfolding candidate sort_subtable
  candidate-at lane t s mk b is_sig is_key e = rw (is_sig, is_key, e, candidate)

  find-sort_subtable :
      (mk : MaskedKey A) (t : Subtable A) (b : Bucket A)
      → find key_eq mk t.buckets ≡ some b
      → find key_eq mk (sort_subtable t).buckets ≡ some (sort_all b)
  unfolding sort_subtable
  find-sort_subtable mk t b e =
      let (_, e', _, _) = find-map key_eq (λ _ x. sort_all x) mk b t.buckets e in e'

  -- The subtable of the rule's signature has it, or a higher rule, as its candidate.
  subtable-Covers :
      (st : RuleState) (lane : Lane) (ranged : Bool) (t : Subtable A)
      → SubtableOk ip rules st.def.uid (sig_of ip st, t)
      → masked_key_from_packet (sig_of ip st) k ≡ key_of ip st
      → AtKey st lane ranged t
      → rule_matches (rule_ref {A = A} st) k ≡ true
      → Covers k (rule_ref {A = A} st) (candidate lane (sort_subtable t) k)
        × ((rule_ref {A = A} st).priority ≤ℤ max_of lane t)
  subtable-Covers st lane ranged t ok is_key i matched =
      let (b, e, at) =
        found key_eq (λ b. In (rule_ref st) (vec lane ranged b)) empty_bucket (key_of ip st)
          t.buckets (vec-empty (rule_ref {A = A} st) lane ranged) i in
      let (mk, listed, same) = find-In key_eq (key_of ip st) b t.buckets e in
      let b_ok : BucketOk ip rules st.def.uid (sig_of ip st) (λ l. max_of l t) (mk, b) =
        All-In (BucketOk ip rules st.def.uid (sig_of ip st) (λ l. max_of l t)) (mk, b) t.buckets
          ok.1 listed in
      (
        subst (Covers k (rule_ref {A = A} st))
            (sym (
              candidate-at lane t (sig_of ip st) (key_of ip st) (sort_all b) ok.0 is_key
                (find-sort_subtable (key_of ip st) t b e)))
            (bucket-Covers lane ranged st.def.uid (sig_of ip st) (λ l. max_of l t) mk b
              (rule_ref {A = A} st) b_ok at matched),
        (All-In (InPlace ip rules st.def.uid (sig_of ip st) mk (λ l. max_of l t) lane ranged)
            (rule_ref {A = A} st) (vec lane ranged b) (b_ok lane ranged) at).1,
      )

  view-Covers :
      (st : RuleState) (lane : Lane) (ranged ct : Bool) (subs : List (MaskSig × Subtable A))
      → All (SubtableOk ip rules st.def.uid) subs
      → masked_key_from_packet (sig_of ip st) k ≡ key_of ip st
      → AtKey st lane ranged (find_or sig_eq empty_subtable (sig_of ip st) subs)
      → rule_matches (rule_ref {A = A} st) k ≡ true
      → no_priority <ℤ (rule_ref {A = A} st).priority
      → Covers k (rule_ref {A = A} st) (
          lookup_loop lane
            (uid_view ct subs).subtables
            (order_of lane (uid_view ct subs))
            k
            (none, no_priority))
  view-Covers st lane ranged ct subs ok is_key i matched low =
      let (t, e, at) =
        found sig_eq (AtKey st lane ranged) empty_subtable (sig_of ip st) subs
          (AtKey-none st lane ranged) i in
      let (s, listed, same) = find-In sig_eq (sig_of ip st) t subs e in
      let s_is : s ≡ sig_of ip st = sym (sig_eq→eq (sig_of ip st) s same) in
      let t_ok : SubtableOk ip rules st.def.uid (sig_of ip st, t) =
        subst (λ x. SubtableOk ip rules st.def.uid (x, t)) s_is
          (All-In (SubtableOk ip rules st.def.uid) (s, t) subs ok listed) in
      let sts : List (Subtable A) = map (λ e. sort_subtable e.1) subs in
      let (j, lt, at_j) =
        In-get_elem? (sort_subtable t) sts (map-In (λ e. sort_subtable e.1) (s, t) subs listed) in
      let (cand, le) = subtable-Covers st lane ranged t t_ok is_key at matched in
      rw (order-uid_view lane ct subs, subtables-uid_view ct subs)
        (loop-Covers lane sts k (sorted_order lane sts) (none, no_priority) (rule_ref {A = A} st) j
          (sort_subtable t) (sorted_order-valid lane sts) (sorted_order-Ordered lane sts) (inl refl)
          (In-sorted_order lane sts j lt) at_j cand (rw (max-sort_subtable lane t) le) low)

  lookup_best-at :
      (lane : Lane) (views : List (ℕ × UidView A)) (view : UidView A)
      → find ◌==◌ k.uid views ≡ some view
      → lookup_best lane views k
        ≡ lookup_loop lane view.subtables (order_of lane view) k (none, no_priority)
  unfolding lookup_best
  lookup_best-at lane views view e = rw (e, lookup_best)

  find-compile_views :
      (uid : ℕ) (subs : List (MaskSig × Subtable A))
      → find ◌==◌ uid (add_rules [] rules) ≡ some subs
      → (ct : Bool) × (find ◌==◌ uid (compile_views rules) ≡ some (uid_view ct subs))
  unfolding compile_views
  find-compile_views uid subs e =
      let (j, at, _, _) =
        find-map ◌==◌ (λ u x. uid_view (contains_uid u (uids_using_ct ip.family rules)) x) uid subs
          (add_rules [] rules) e in
      (contains_uid j (uids_using_ct ip.family rules), at)

  -- For rules and a packet in range: if an enabled rule of the family matches the packet and is above
  -- the sentinel priority, the lookup of its lane finds a rule of at least its priority.
  pub lookup_best-Covers :
      (i : ℕ) (st : RuleState)
      → In (i, st) rules
      → IsActive ip st
      → rule_matches (rule_ref {A = A} st) k ≡ true
      → no_priority <ℤ st.def.priority
      → Covers k (rule_ref {A = A} st) (lookup_best (lane_of st.def) (compile_views rules) k)
  lookup_best-Covers i st listed active matched low =
      let rule : IsRule ip st.def = All-In (λ e. IsRule ip e.1.def) (i, st) rules valid listed in
      let (at_uid, at_key) = rule_matches-key st k rule packet matched in
      let tables : Tables A = add_rules [] rules in
      let lane : Lane = lane_of st.def in
      let (subs, e, at) =
        found ◌==◌
          (λ subs.
            AtKey st lane (has_range_ports st.def)
              (find_or sig_eq empty_subtable (sig_of ip st) subs))
          [] st.def.uid tables (AtKey-nothing st lane (has_range_ports st.def))
          (add_rules-IsFiled i st rules [] active listed) in
      let (u, at_u, same) = find-In ◌==◌ st.def.uid subs tables e in
      let subs_ok : All (SubtableOk ip rules st.def.uid) subs =
        subst (λ x. All (SubtableOk ip rules x) subs) (sym (==→eq st.def.uid u same))
          (All-In (λ e. All (SubtableOk ip rules e.0) e.1) (u, subs) tables
            (compiled-TablesOk ip rules) at_u) in
      let (ct, at_view) = find-compile_views st.def.uid subs e in
      rw
        (lookup_best-at lane (compile_views rules) (uid_view ct subs) (
          subst (λ x. find ◌==◌ x (compile_views rules) ≡ some (uid_view ct subs))
            (==→eq st.def.uid k.uid at_uid) at_view))
        (view-Covers st lane (has_range_ports st.def) ct subs subs_ok
          (key_eq→eq (masked_key_from_packet (sig_of ip st) k) (key_of ip st) at_key) at matched
          (unfold rule_ref in low))

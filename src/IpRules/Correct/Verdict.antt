-- ===== src/IpRules/Correct/Verdict.antt =====
-- `Snapshot::evaluate` over the compiled views, against a specification on the list of rules that
-- knows neither signatures nor buckets.
use sakamoto_snort.Common.{
  ℕ, ◌≡◌, refl, sym, ap, ◌∙◌, subst, inl, inr, [], ◌∷◌, Option, none, some, Option-cases, All,
  All-In, ◌≤ℤ◌, ◌<ℤ◌,
}
use sakamoto_snort.IpRules.Rule.{RuleRef, PacketKey}
use sakamoto_snort.IpRules.Family.{Ip}
use sakamoto_snort.IpRules.Table.{
  Lane, enforcing, would, lookup_best, no_priority, evaluate, DecisionData, DecisionKind, nomatch,
  would_block, enforce_kind,
}
use sakamoto_snort.IpRules.Compile.{RuleState, RulesMap, rule_ref, compile_views}
use sakamoto_snort.IpRules.Correct.Match.{IsRule, IsPacket}
use sakamoto_snort.IpRules.Correct.Best.{Covers}
use sakamoto_snort.IpRules.Correct.Winner.{IsCandidate, lookup_best-ComesFromRule}
use sakamoto_snort.IpRules.Correct.Found.{lookup_best-Covers}

-- The rule is a candidate, and no candidate of its lane has a higher priority.
abbrev pub IsWinner : {A : Type 0} (ip : Ip A) → RulesMap → PacketKey A → Lane → RuleState → Type 0
IsWinner ip rules k lane st =
    IsCandidate ⦃ip = ip⦄ rules k lane st
    × ((st' : RuleState)
        → IsCandidate ⦃ip = ip⦄ rules k lane st'
        → st'.def.priority ≤ℤ st.def.priority)

abbrev pub NoCandidate : {A : Type 0} (ip : Ip A) → RulesMap → PacketKey A → Lane → Type 0
NoCandidate ip rules k lane = (st : RuleState) → ¬ IsCandidate ⦃ip = ip⦄ rules k lane st

abbrev pub verdict_of : DecisionKind → RuleState → DecisionData
verdict_of kind st = record { kind = kind; rule_id = st.def.rule_id; stats = st.stats }

abbrev pub no_verdict : DecisionData
no_verdict = record { kind = nomatch; rule_id = 0; stats = 0 }

-- What a decision owes to the list of rules.
pub data Decides {A : Type 0} (ip : Ip A) (rules : RulesMap) (k : PacketKey A)
    : DecisionData → Type 0 where
  by_enforcing :
      (st : RuleState)
      → IsWinner ip rules k enforcing st
      → Decides ip rules k (verdict_of (enforce_kind st.def.action) st)
  by_would :
      NoCandidate ip rules k enforcing
      → (st : RuleState) → IsWinner ip rules k would st
      → Decides ip rules k (verdict_of would_block st)
  by_nothing :
      NoCandidate ip rules k enforcing
      → NoCandidate ip rules k would
      → Decides ip rules k no_verdict

-- A rule that the compiled views can find: its fields are in range and it is above the sentinel.
abbrev pub IsUsable : {A : Type 0} → Ip A → ℕ × RuleState → Type 0
IsUsable ip e = IsRule ip e.1.def × (no_priority <ℤ e.1.def.priority)

IsUsable-IsRule :
    {A : Type 0} (ip : Ip A) (rules : RulesMap)
    → All (IsUsable ip) rules
    → All (λ e. IsRule ip e.1.def) rules
IsUsable-IsRule ip [] a = tt
IsUsable-IsRule ip (e ∷ rules) a = (a.0.0, IsUsable-IsRule ip rules a.1)

module _ {A : Type 0} ⦃ip : Ip A⦄ (rules : RulesMap) (k : PacketKey A)
    (usable : All (IsUsable ip) rules) (packet : IsPacket ip k) where
  covered :
      (lane : Lane) (st : RuleState)
      → IsCandidate rules k lane st
      → Covers k (rule_ref st) (lookup_best lane (compile_views rules) k)
  covered lane st c =
      subst (λ l. Covers k (rule_ref st) (lookup_best l (compile_views rules) k)) c.in_lane
        (lookup_best-Covers rules k (IsUsable-IsRule ip rules usable) packet c.id st c.listed
          c.active c.matched (All-In (IsUsable ip) (c.id, st) rules usable c.listed).1)

  priority-rule_ref : (st : RuleState) → (rule_ref {A = A} st).priority ≡ st.def.priority
  unfolding rule_ref
  priority-rule_ref st = refl

  winner :
      (lane : Lane) (r : RuleRef A)
      → lookup_best lane (compile_views rules) k ≡ some r
      → (st : RuleState) × IsWinner ip rules k lane st × (r ≡ rule_ref st)
  unfolding rule_ref
  winner lane r h =
      let (st, c, made) = lookup_best-ComesFromRule rules k lane r h in
      (st, (c, λ st' c'. highest st made st' (covered lane st' c')), made)
    where
      highest :
          (st : RuleState)
          → r ≡ rule_ref st
          → (st' : RuleState) → Covers k (rule_ref st') (lookup_best lane (compile_views rules) k)
          → st'.def.priority ≤ℤ st.def.priority
      highest st made st' (d, is_d, le) =
          let same : some r ≡ some d = sym h ∙ is_d in
          let r_is : r ≡ d = cc in
          let d_is : d.priority ≡ st.def.priority = ap (λ x. x.priority) (sym r_is ∙ made) in
          rw (← d_is) le

  no_candidate :
      (lane : Lane) → lookup_best lane (compile_views rules) k ≡ none → NoCandidate ip rules k lane
  no_candidate lane h st c =
      let (d, is_d, _) = covered lane st c in
      let clash : ◌≡◌ {A = Option (RuleRef A)} none (some d) = sym h ∙ is_d in cc

  -- For rules in range and above the sentinel priority, and a packet with well-formed addresses, the
  -- decision is that of an enforcing rule of highest priority among those that match; if none
  -- matches, "would block" for such a rule of the other lane; and "no match" exactly if no rule
  -- of either lane matches.
  pub evaluate-Decides : Decides ip rules k (evaluate (compile_views rules) k)
  unfolding evaluate
  evaluate-Decides = elim (Option-cases (lookup_best enforcing (compile_views rules) k)) [
    | inr (r, e) ↦
        let (st, w, made) = winner enforcing r e in
        rw (e, evaluate, made) (unfold rule_ref in by_enforcing st w)
    | inl e ↦ elim (Option-cases (lookup_best would (compile_views rules) k)) [
      | inr (r, e') ↦
          let (st, w, made) = winner would r e' in
          rw (e, evaluate, e', made) (unfold rule_ref in by_would (no_candidate enforcing e) st w)
      | inl e' ↦
          rw (e, evaluate, e') (by_nothing (no_candidate enforcing e) (no_candidate would e'))
    ]
  ]

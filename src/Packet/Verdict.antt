-- ===== src/Packet/Verdict.antt =====
-- What holds of every outcome of `make`, whatever the rules, the domain and the conntrack.
use sakamoto_snort.Common.{
  ℕ, ◌≡◌, refl, ap, ◌∙◌, inl, inr, Bool, true, false, not, ◌&&◌, List, [], ◌∷◌, ◌++◌, Option, none,
  some, is_some, if◌then◌else◌, Bool-cases,
}
use sakamoto_snort.IpRules.Table.{DecisionData}
use sakamoto_snort.Conntrack.Update.{CtResult}
use sakamoto_snort.Domain.Policy.{Color, grey}
use sakamoto_snort.Packet.Cases.{after_rules-cases, make-cases}
use sakamoto_snort.Packet.Make.{
  PacketReasonId, iface_block, ip_leak_block, allow_default, ip_rule_allow, ip_rule_block, Request,
  Tracker, Rules, Effect, observe_reason, observe_traffic, update_stats, enforce_hit, would_hit,
  telemetry, telemetry_effects, stats_effects, counted, World, Outcome, current_result,
  iface_outcome, ask_rules, enforce_outcome, domain_outcome, make,
}

abbrev pub accepting : PacketReasonId → Bool
accepting iface_block = false
accepting ip_leak_block = false
accepting allow_default = true
accepting ip_rule_allow = true
accepting ip_rule_block = false

abbrev pub by_rule : PacketReasonId → Bool
by_rule iface_block = false
by_rule ip_leak_block = false
by_rule allow_default = false
by_rule ip_rule_allow = true
by_rule ip_rule_block = true

-- The reasons and the verdicts that the metrics and the app are told.
abbrev pub reasons : List Effect → List PacketReasonId
reasons [] = []
reasons (observe_reason r n ∷ es) = r ∷ reasons es
reasons (observe_traffic i v n ∷ es) = reasons es
reasons (update_stats h b c i k n ∷ es) = reasons es
reasons (enforce_hit d n ∷ es) = reasons es
reasons (would_hit d n ∷ es) = reasons es
reasons (telemetry v r i c ∷ es) = reasons es

abbrev pub verdicts : List Effect → List Bool
verdicts [] = []
verdicts (observe_reason r n ∷ es) = verdicts es
verdicts (observe_traffic i v n ∷ es) = v ∷ verdicts es
verdicts (update_stats h b c i k n ∷ es) = verdicts es
verdicts (enforce_hit d n ∷ es) = verdicts es
verdicts (would_hit d n ∷ es) = verdicts es
verdicts (telemetry v r i c ∷ es) = verdicts es

-- Effects that are neither.
abbrev IsSilent : List Effect → Type 0
IsSilent es = (reasons es ≡ []) × (verdicts es ≡ [])

reasons-append : (xs ys : List Effect) → reasons (xs ++ ys) ≡ reasons xs ++ reasons ys
reasons-append [] ys = refl
reasons-append (observe_reason r n ∷ es) ys = ap (λ rs. r ∷ rs) (reasons-append es ys)
reasons-append (observe_traffic i v n ∷ es) ys = reasons-append es ys
reasons-append (update_stats h b c i k n ∷ es) ys = reasons-append es ys
reasons-append (enforce_hit d n ∷ es) ys = reasons-append es ys
reasons-append (would_hit d n ∷ es) ys = reasons-append es ys
reasons-append (telemetry v r i c ∷ es) ys = reasons-append es ys

verdicts-append : (xs ys : List Effect) → verdicts (xs ++ ys) ≡ verdicts xs ++ verdicts ys
verdicts-append [] ys = refl
verdicts-append (observe_reason r n ∷ es) ys = verdicts-append es ys
verdicts-append (observe_traffic i v n ∷ es) ys = ap (λ vs. v ∷ vs) (verdicts-append es ys)
verdicts-append (update_stats h b c i k n ∷ es) ys = verdicts-append es ys
verdicts-append (enforce_hit d n ∷ es) ys = verdicts-append es ys
verdicts-append (would_hit d n ∷ es) ys = verdicts-append es ys
verdicts-append (telemetry v r i c ∷ es) ys = verdicts-append es ys

-- Told once, with silent effects around.
abbrev Tells : PacketReasonId → Bool → List Effect → Type 0
Tells r v es = (reasons es ≡ r ∷ []) × (verdicts es ≡ v ∷ [])

append-Tells :
    (r : PacketReasonId) (v : Bool) (xs ys : List Effect)
    → Tells r v xs
    → IsSilent ys
    → Tells r v (xs ++ ys)
append-Tells r v xs ys (a, b) (c, d) =
    (reasons-append xs ys ∙ rw (a, c) refl, verdicts-append xs ys ∙ rw (b, d) refl)

append-IsSilent : (xs ys : List Effect) → IsSilent xs → IsSilent ys → IsSilent (xs ++ ys)
append-IsSilent xs ys (a, b) (c, d) =
    (reasons-append xs ys ∙ rw (a, c) refl, verdicts-append xs ys ∙ rw (b, d) refl)

silent-Tells :
    (r : PacketReasonId) (v : Bool) (xs ys : List Effect)
    → IsSilent xs
    → Tells r v ys
    → Tells r v (xs ++ ys)
silent-Tells r v xs ys (a, b) (c, d) =
    (reasons-append xs ys ∙ rw (a, c) refl, verdicts-append xs ys ∙ rw (b, d) refl)

module _ {A : Type 0} (q : Request A) where
  telemetry_effects-IsSilent :
      (v : Bool) (r : PacketReasonId) (i : Option ℕ) (c : CtResult)
      → IsSilent (telemetry_effects q v r i c)
  unfolding telemetry_effects
  telemetry_effects-IsSilent v r i c = elim (Bool-cases q.telemetry_active) [
    | inr off ↦ rw off (refl, refl)
    | inl on ↦ elim (Bool-cases q.has_ct_packet) [
      | inr missing ↦ rw (on, missing) (refl, refl)
      | inl there ↦ rw (on, there) (refl, refl)
    ]
  ]

  stats_effects-IsSilent : (h b : Bool) (c : Color) → IsSilent (stats_effects q h b c)
  unfolding stats_effects
  stats_effects-IsSilent h b c = elim (Bool-cases q.tracked) [
    | inr off ↦ rw off (refl, refl)
    | inl on ↦ rw on (refl, refl)
  ]

-- The parts of an outcome fit each other.
abbrev pub Coherent : Bool → PacketReasonId → Option ℕ → Option ℕ → List Effect → Type 0
Coherent v r id would effects =
    (v ≡ accepting r)
    × (is_some id ≡ by_rule r)
    × ((is_some would && not v) ≡ false)
    × (reasons effects ≡ r ∷ [])
    × (verdicts effects ≡ v ∷ [])

module _ (tracker : Tracker) where
  -- The verdict is that of the reason; the rule's id is told exactly when a rule decided, and a
  -- would-block rule only on an accepted packet; the reason and the verdict are told once each.
  abbrev pub IsCoherent : Outcome tracker → Type 0
  IsCoherent o = Coherent o.verdict o.reason o.rule_id o.would_rule_id o.effects

  module _ {A : Type 0} (q : Request A) where
    quiet :
        (h b : Bool) (c : Color) (v : Bool) (r : PacketReasonId) (i : Option ℕ) (ct : CtResult)
        → IsSilent (stats_effects q h b c ++ telemetry_effects q v r i ct)
    quiet h b c v r i ct =
        append-IsSilent (stats_effects q h b c) (telemetry_effects q v r i ct)
          (stats_effects-IsSilent q h b c) (telemetry_effects-IsSilent q v r i ct)

    iface_outcome-IsCoherent : (w : World tracker) → IsCoherent (iface_outcome tracker q w)
    unfolding iface_outcome
    iface_outcome-IsCoherent w =
        let (a, b) = quiet false true grey false iface_block none _ in
        (refl, refl, refl, ap (λ rs. iface_block ∷ rs) a, ap (λ vs. false ∷ vs) b)

    enforce_outcome-IsCoherent :
        (v : Bool) (d : DecisionData) (view : Option tracker.View) (w : World tracker)
        → IsCoherent (enforce_outcome tracker q v d view w)
    unfolding enforce_outcome
    enforce_outcome-IsCoherent true d view w =
        let (a, b) =
          quiet false false grey true ip_rule_allow (some d.rule_id)
            (current_result tracker view) in
        (refl, refl, refl, ap (λ rs. ip_rule_allow ∷ rs) a, ap (λ vs. true ∷ vs) b)
    enforce_outcome-IsCoherent false d view w =
        let (a, b) =
          quiet false true grey false ip_rule_block (some d.rule_id)
            (current_result tracker view) in
        (refl, refl, refl, ap (λ rs. ip_rule_block ∷ rs) a, ap (λ vs. false ∷ vs) b)

    abbrev would_effects : Option DecisionData → Bool → List Effect
    would_effects none v = []
    would_effects (some d) v = if v then would_hit d q.len ∷ [] else []

    abbrev would_id : Option DecisionData → Bool → Option ℕ
    would_id none v = none
    would_id (some d) v = if v then some d.rule_id else none

    would_effects-IsSilent :
        (would : Option DecisionData) (v : Bool) → IsSilent (would_effects would v)
    would_effects-IsSilent none v = (refl, refl)
    would_effects-IsSilent (some d) true = (refl, refl)
    would_effects-IsSilent (some d) false = (refl, refl)

    would_id-accepted :
        (would : Option DecisionData) (v : Bool) → (is_some (would_id would v) && not v) ≡ false
    would_id-accepted none v = refl
    would_id-accepted (some d) true = refl
    would_id-accepted (some d) false = refl

    abbrev leak_reason : Bool → PacketReasonId
    leak_reason leak = if leak then ip_leak_block else allow_default

    leak_reason-accepting : (leak : Bool) → not leak ≡ accepting (leak_reason leak)
    leak_reason-accepting true = refl
    leak_reason-accepting false = refl

    leak_reason-by_rule : (leak : Bool) → false ≡ by_rule (leak_reason leak)
    leak_reason-by_rule true = refl
    leak_reason-by_rule false = refl

    domain-Coherent :
        (leak : Bool) (color : Color) (would : Option DecisionData) (ct : CtResult)
        → Coherent (not leak) (leak_reason leak) none (would_id would (not leak)) (
            telemetry_effects q (not leak) (leak_reason leak) none ct
            ++ would_effects would (not leak)
            ++ counted q (not leak) (leak_reason leak)
            ++ stats_effects q q.has_valid_ip (not (not leak)) color)
    domain-Coherent leak color would ct =
        let v = not leak in
        let r = leak_reason leak in
        let told = telemetry_effects q v r none ct in
        let seen = would_effects would v in
        let stats = stats_effects q q.has_valid_ip (not v) color in
        let before =
          append-IsSilent told seen (telemetry_effects-IsSilent q v r none ct)
            (would_effects-IsSilent would v) in
        let counts = silent-Tells r v (told ++ seen) (counted q v r) before (refl, refl) in
        let (a, b) =
          append-Tells r v (told ++ seen ++ counted q v r) stats counts
            (stats_effects-IsSilent q q.has_valid_ip (not v) color) in
        (leak_reason-accepting leak, leak_reason-by_rule leak, would_id-accepted would v, a, b)

    domain_outcome-IsCoherent :
        (would : Option DecisionData) (view : Option tracker.View) (w : World tracker)
        → IsCoherent (domain_outcome tracker q would view w)
    unfolding domain_outcome
    domain_outcome-IsCoherent none view w = domain-Coherent _ _ none _
    domain_outcome-IsCoherent (some d) view w = domain-Coherent _ _ (some d) _

    -- For every request, rules and state of the conntrack: the verdict is accept exactly for the two
    -- accepting reasons, a rule is named exactly when a rule decided, a would-block rule is named only
    -- on an accepted packet, and the metrics and the app are told this reason and this verdict, once.
    pub make-IsCoherent :
        (rules : Option (Rules A)) (w : World tracker) → IsCoherent (make tracker q rules w)
    make-IsCoherent rules w =
        make-cases tracker IsCoherent q rules w (iface_outcome-IsCoherent w)
          (domain_outcome-IsCoherent none none w)
          (λ r.
            let (d, view, w') = ask_rules tracker q r w in
            after_rules-cases tracker IsCoherent q d view w'
              (enforce_outcome-IsCoherent true d view w')
              (enforce_outcome-IsCoherent false d view w')
              (domain_outcome-IsCoherent (some d) view w') (domain_outcome-IsCoherent none view w'))

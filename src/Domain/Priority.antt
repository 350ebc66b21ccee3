-- ===== src/Domain/Priority.antt =====
-- The priority that the stages of an explanation and the code of a decision share: the app's lists,
-- its rules, the device's lists and rules, then the masks.
use sakamoto_snort.Common.{
  ℕ, ◌≡◌, refl, Bool, true, false, not, ◌&&◌, List, [], ◌∷◌, Option, none, some, is_some, bit_and,
  ◌==◌, if◌then◌else◌, arith,
}
use sakamoto_snort.Domain.Rules.{RegexLib, match_name, match_first_rule_id}
use sakamoto_snort.Domain.Policy.{
  Domain, Lists, App, Decision, exists, by_mask, device_authorized, device_blocked,
  authorized_rule_id, blocked_rule_id, blocked_with_source_and_rule_id,
}
use sakamoto_snort.Domain.Debug.{
  color_of, first_id, is_empty, run_stage, run_mask_stage, Debug, start,
}
use sakamoto_snort.Telemetry.Records.{
  DomainPolicySource, custom_whitelist, custom_blacklist, custom_rule_white, custom_rule_black,
  domain_device_wide_authorized, domain_device_wide_blocked, mask_fallback,
}

abbrev pub Settled : Type 0
Settled = Bool × DomainPolicySource × Option ℕ

-- What each source finds: whether a list has the domain, and the first rule that matches.
unfoldable pub settle :
    Bool
    → Bool
    → Bool
    → Bool
    → Option ℕ
    → Option ℕ
    → Bool
    → Option ℕ
    → Bool
    → Option ℕ
    → Bool
    → Settled
settle enabled custom x1 x2 o3 o4 x5 o5 x6 o6 masked =
    let fallback : Settled = (masked, mask_fallback, none) in
    let device_black : Settled =
      if x6
      then (true, domain_device_wide_blocked, none)
      else elim o6 [ none ↦ fallback | some i ↦ (true, domain_device_wide_blocked, some i) ] in
    let device : Settled = if x5 then (false, domain_device_wide_authorized, none) else elim o5 [
      | none ↦ device_black
      | some i ↦ (false, domain_device_wide_authorized, some i)
    ] in
    let rules : Settled = elim o3 [
      | some i ↦ (false, custom_rule_white, some i)
      | none ↦ elim o4 [ some i ↦ (true, custom_rule_black, some i) | none ↦ device ]
    ] in
    let lists : Settled =
      if x1
      then (false, custom_whitelist, none)
      else if x2
      then (true, custom_blacklist, none)
      else rules in
    if not enabled then (false, mask_fallback, none) else if not custom then fallback else lists

abbrev pub settled_by : Debug → Settled
settled_by s = (s.blocked, s.source, s.rule_id)

module _ (e1 e2 r3 r4 e5 r5 e6 r6 : List ℕ) (app_mask dom_mask : ℕ) where
  abbrev pub stages_of : Bool → Bool → Debug
  stages_of enabled use_custom =
      let custom = enabled && use_custom in
      let s1 = run_stage custom e1 [] custom_whitelist false start in
      let s2 = run_stage custom e2 [] custom_blacklist true s1 in
      let s3 = run_stage custom [] r3 custom_rule_white false s2 in
      let s4 = run_stage custom [] r4 custom_rule_black true s3 in
      let s5 = run_stage custom e5 r5 domain_device_wide_authorized false s4 in
      let s6 = run_stage custom e6 r6 domain_device_wide_blocked true s5 in
      run_mask_stage enabled app_mask dom_mask s6

abbrev masked_by : ℕ → ℕ → Bool
masked_by app_mask dom_mask = not (bit_and app_mask dom_mask == 0)

pub stages-settle :
    (e1 e2 r3 r4 e5 r5 e6 r6 : List ℕ) (app_mask dom_mask : ℕ) (enabled use_custom : Bool)
    → settled_by (stages_of e1 e2 r3 r4 e5 r5 e6 r6 app_mask dom_mask enabled use_custom)
      ≡ settle enabled use_custom
          (not (is_empty e1))
          (not (is_empty e2))
          (first_id r3)
          (first_id r4)
          (not (is_empty e5))
          (first_id r5)
          (not (is_empty e6))
          (first_id r6)
          (masked_by app_mask dom_mask)
unfolding settle run_stage run_mask_stage
stages-settle e1 e2 r3 r4 e5 r5 e6 r6 a d false u = refl
stages-settle e1 e2 r3 r4 e5 r5 e6 r6 a d true false = refl
stages-settle (x ∷ e1) e2 r3 r4 e5 r5 e6 r6 a d true true = refl
stages-settle [] (x ∷ e2) r3 r4 e5 r5 e6 r6 a d true true = refl
stages-settle [] [] (x ∷ r3) r4 e5 r5 e6 r6 a d true true = refl
stages-settle [] [] [] (x ∷ r4) e5 r5 e6 r6 a d true true = refl
stages-settle [] [] [] [] (x ∷ e5) r5 e6 r6 a d true true = refl
stages-settle [] [] [] [] [] (x ∷ r5) e6 r6 a d true true = refl
stages-settle [] [] [] [] [] [] (x ∷ e6) r6 a d true true = refl
stages-settle [] [] [] [] [] [] [] (x ∷ r6) a d true true = refl
stages-settle [] [] [] [] [] [] [] [] a d true true = refl

module _ (lib : RegexLib) where
  abbrev pub settled : Decision lib → Settled
  settled r = (r.blocked, r.source, r.rule_id)

  pub decision-settle :
      (enabled : Bool) (m : Lists lib) (a : App lib) (d : Domain) (o3 o4 o5 o6 : Option ℕ)
      → match_name lib a.own.white_rules d.name ≡ is_some o3
      → match_name lib a.own.black_rules d.name ≡ is_some o4
      → match_name lib m.white_rules d.name ≡ is_some o5
      → match_name lib m.black_rules d.name ≡ is_some o6
      → match_first_rule_id lib a.own.white_rules d.name ≡ o3
      → match_first_rule_id lib a.own.black_rules d.name ≡ o4
      → match_first_rule_id lib m.white_rules d.name ≡ o5
      → match_first_rule_id lib m.black_rules d.name ≡ o6
      → settled (blocked_with_source_and_rule_id lib enabled m a (some d))
        ≡ settle enabled a.use_custom_list
            (exists a.own.custom_white d)
            (exists a.own.custom_black d)
            o3
            o4
            (exists m.custom_white d)
            o5
            (exists m.custom_black d)
            o6
            (by_mask lib a d)
  unfolding settle blocked_with_source_and_rule_id device_authorized device_blocked
      authorized_rule_id blocked_rule_id
  decision-settle enabled m a d o3 o4 o5 o6 h3 h4 h5 h6 f3 f4 f5 f6 = ground arith

  pub decision-color :
      (enabled : Bool) (m : Lists lib) (a : App lib) (d : Domain)
      → (blocked_with_source_and_rule_id lib enabled m a (some d)).color ≡ color_of enabled (some d)
  unfolding blocked_with_source_and_rule_id
  decision-color enabled m a d = ground arith

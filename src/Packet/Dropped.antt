-- ===== src/Packet/Dropped.antt =====
-- What `make` does to the conntrack for a packet that it drops.
use sakamoto_snort.Common.{
  ℕ, ◌≡◌, refl, inl, inr, Bool, true, false, Option, none, some, if◌then◌else◌, Bool-cases,
}
use sakamoto_snort.IpRules.Table.{DecisionData}
use sakamoto_snort.Conntrack.Update.{CtResult}
use sakamoto_snort.Packet.Cases.{after_rules-cases, make-cases}
use sakamoto_snort.Packet.Make.{
  PacketReasonId, Request, Tracker, Rules, l4_allows_ct, World, Outcome, ensure_view, commit_view,
  observe_flow, iface_outcome, ask_rules, enforce_outcome, domain_outcome, make,
}

module _ (tracker : Tracker) {A : Type 0} (q : Request A) (P : tracker.State → Type 0)
    (kept : (s : tracker.State) → P s → P (tracker.inspect s).1)
    (observed : (reason : PacketReasonId) (id : Option ℕ) (ct : CtResult) (s : tracker.State)
      → q.telemetry_active ≡ true
      → P s
      → P (tracker.observe false reason id ct s)) where
  ensure_view-keeps :
      (view : Option tracker.View) (s : tracker.State) → P s → P (ensure_view tracker q view s).1
  unfolding ensure_view
  ensure_view-keeps (some v) s p = p
  ensure_view-keeps none s p = elim (Bool-cases (l4_allows_ct q.l4_status)) [
    | inr closed ↦ rw closed p
    | inl ok ↦ elim (Bool-cases q.has_ct_packet) [
      | inr missing ↦ rw (ok, missing) p
      | inl there ↦ rw (ok, there) (kept s p)
    ]
  ]

  if_ensured :
      (test : Bool) (view : Option tracker.View) (s : tracker.State)
      → P s
      → P (if test then ensure_view tracker q view s else (view, s)).1
  if_ensured true view s p = ensure_view-keeps view s p
  if_ensured false view s p = p

  uncommitted :
      (verdict : Bool) (view : Option tracker.View) (s : tracker.State)
      → P s
      → verdict ≡ false
      → P (commit_view tracker q verdict view s)
  unfolding commit_view
  uncommitted verdict none s p e = p
  uncommitted verdict (some v) s p e = rw e p

  observe_flow-keeps :
      (verdict : Bool) (reason : PacketReasonId) (id : Option ℕ) (ct : CtResult) (s : tracker.State)
      → verdict ≡ false
      → P s
      → P (observe_flow tracker q verdict reason id ct s)
  unfolding observe_flow
  observe_flow-keeps verdict reason id ct s e p = elim (Bool-cases q.telemetry_active) [
    | inr off ↦ rw off p
    | inl on ↦ elim (Bool-cases q.has_ct_packet) [
      | inr missing ↦ rw (on, missing) p
      | inl there ↦ rw (on, there, e) (observed reason id ct s on p)
    ]
  ]

  abbrev Keeps : Outcome tracker → Type 0
  Keeps o = o.verdict ≡ false → P o.world.ct

  domain_outcome-Keeps :
      (would : Option DecisionData) (view : Option tracker.View) (w : World tracker)
      → P w.ct
      → Keeps (domain_outcome tracker q would view w)
  unfolding domain_outcome
  domain_outcome-Keeps would view w p e =
      observe_flow-keeps _ _ _ _ _ e
        (uncommitted _ _ _ (if_ensured q.telemetry_active view w.ct p) e)

  enforce_outcome-Keeps :
      (verdict : Bool) (d : DecisionData) (view : Option tracker.View) (w : World tracker)
      → P w.ct
      → Keeps (enforce_outcome tracker q verdict d view w)
  unfolding enforce_outcome
  enforce_outcome-Keeps verdict d view w p e =
      observe_flow-keeps verdict _ _ _ _ e (uncommitted verdict view w.ct p e)

  ask_rules-keeps : (r : Rules A) (w : World tracker) → P w.ct → P (ask_rules tracker q r w).2.ct
  unfolding ask_rules
  ask_rules-keeps r w p = if_ensured _ none w.ct p

  iface_outcome-keeps : (w : World tracker) → P w.ct → P (iface_outcome tracker q w).world.ct
  unfolding iface_outcome
  iface_outcome-keeps w p =
      observe_flow-keeps false _ _ _ _ refl (if_ensured q.telemetry_active none w.ct p)

  -- A packet that `make` drops is at most looked up in the conntrack and, while the telemetry is active,
  -- observed there as dropped; it is never committed: what lookups keep of the conntrack's state, and
  -- such observations while the telemetry is active, still holds.
  pub make-keeps :
      (rules : Option (Rules A)) (w : World tracker)
      → P w.ct
      → (make tracker q rules w).verdict ≡ false
      → P (make tracker q rules w).world.ct
  make-keeps rules w p =
      make-cases tracker Keeps q rules w (λ dropped. iface_outcome-keeps w p)
        (domain_outcome-Keeps none none w p)
        (λ r.
          let (d, view, w') = ask_rules tracker q r w in
          let p' = ask_rules-keeps r w p in
          after_rules-cases tracker Keeps q d view w' (enforce_outcome-Keeps true d view w' p')
            (enforce_outcome-Keeps false d view w' p') (domain_outcome-Keeps (some d) view w' p')
            (domain_outcome-Keeps none view w' p'))

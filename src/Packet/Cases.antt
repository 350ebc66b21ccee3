-- ===== src/Packet/Cases.antt =====
-- The branches of `make`: what holds of each holds of the outcome.
use sakamoto_snort.Common.{Bool, true, false, not, Option, none, some, bit_and, ◌==◌, if◌then◌else◌}
use sakamoto_snort.IpRules.Table.{DecisionKind, DecisionData}
use sakamoto_snort.Packet.Make.{
  Request, Tracker, Rules, World, Outcome, iface_outcome, ask_rules, enforce_outcome,
  domain_outcome, after_rules, make,
}

module _ (tracker : Tracker) (Q : Outcome tracker → Type 0) where
  kind_cases :
      (k : DecisionKind) (a b c d : Outcome tracker)
      → Q a
      → Q b
      → Q c
      → Q d
      → Q (elim k as (λ _. Outcome tracker) [
        | DecisionKind.allow ↦ a
        | DecisionKind.block ↦ b
        | DecisionKind.would_block ↦ c
        | DecisionKind.nomatch ↦ d
      ])
  kind_cases DecisionKind.allow a b c d p q r s = p
  kind_cases DecisionKind.block a b c d p q r s = q
  kind_cases DecisionKind.would_block a b c d p q r s = r
  kind_cases DecisionKind.nomatch a b c d p q r s = s

  branch_cases :
      {B : Type 0} (blocked enabled : Bool) (rules : Option B) (x y : Outcome tracker)
      (f : B → Outcome tracker)
      → Q x
      → Q y
      → ((r : B) → Q (f r))
      → Q (if blocked then x else if not enabled then y else elim rules [ none ↦ y | some r ↦ f r ])
  branch_cases true enabled rules x y f p q r = p
  branch_cases false false rules x y f p q r = q
  branch_cases false true none x y f p q r = q
  branch_cases false true (some b) x y f p q r = r b

  module _ {A : Type 0} (q : Request A) where
    pub after_rules-cases :
        (d : DecisionData) (view : Option tracker.View) (w : World tracker)
        → Q (enforce_outcome tracker q true d view w)
        → Q (enforce_outcome tracker q false d view w)
        → Q (domain_outcome tracker q (some d) view w)
        → Q (domain_outcome tracker q none view w)
        → Q (after_rules tracker q d view w)
    unfolding after_rules
    after_rules-cases d view w = kind_cases d.kind _ _ _ _

    pub make-cases :
        (rules : Option (Rules A)) (w : World tracker)
        → Q (iface_outcome tracker q w)
        → Q (domain_outcome tracker q none none w)
        → ((r : Rules A)
            → let (d, view, w') = ask_rules tracker q r w in Q (after_rules tracker q d view w'))
        → Q (make tracker q rules w)
    unfolding make
    make-cases rules w =
        branch_cases (not (bit_and q.app_iface_mask q.iface_kind_bit == 0)) q.ip_rules_enabled rules
          _ _ _

-- ===== src/Domain/Agree.antt =====
-- The three decisions of an app agree.
use sakamoto_snort.Common.{◌≡◌, refl, Bool, Option, none, some, arith}
use sakamoto_snort.Domain.Rules.{RegexLib}
use sakamoto_snort.Domain.Policy.{
  Color, Domain, Lists, App, Decision, app_blocked, blocked_with_source,
  blocked_with_source_and_rule_id,
}
use sakamoto_snort.Telemetry.Records.{DomainPolicySource}

-- A choice between pairs, as one between decisions.
module _ (lib : RegexLib) where
  abbrev pub verdict_of : Decision lib → Bool × Color
  verdict_of r = (r.blocked, r.color)

  abbrev pub sourced_of : Decision lib → Bool × Color × DomainPolicySource
  sourced_of r = (r.blocked, r.color, r.source)

  -- Whatever the lists, the rules, the masks and the domain, `blocked` and `blockedWithSource` return
  -- the verdict, the color and the source of `blockedWithSourceAndRuleId`.
  pub blocked-agrees :
      (enabled : Bool) (m : Lists lib) (a : App lib) (d : Option Domain)
      → (app_blocked lib enabled m a d
          ≡ verdict_of (blocked_with_source_and_rule_id lib enabled m a d))
        × (blocked_with_source lib enabled m a d
            ≡ sourced_of (blocked_with_source_and_rule_id lib enabled m a d))
  unfolding app_blocked blocked_with_source blocked_with_source_and_rule_id
  blocked-agrees enabled m a none = (refl, refl)
  blocked-agrees enabled m a (some d) = (ground arith, ground arith)

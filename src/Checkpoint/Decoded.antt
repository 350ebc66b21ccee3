-- ===== src/Checkpoint/Decoded.antt =====
-- What a text that decodes holds, and what restoring its IP rules then does.
use sakamoto_snort.Common.{◌≡◌, ap, subst, ◌∙◌, true}
use sakamoto_snort.IpRules.Engine.{ApplyResult, restore_policy_snapshot}
use sakamoto_snort.IpRules.Published.{IsPublished, restore_policy_snapshot-IsPublished}
use sakamoto_snort.IpRules.Validate.{restore_policy_snapshot-validate}
use sakamoto_snort.Checkpoint.Json.{JsonLib, ok}
use sakamoto_snort.Checkpoint.Bundle.{Bundle}
use sakamoto_snort.Checkpoint.Fields.{bind-inv, check-inv, ok-inv}
use sakamoto_snort.Checkpoint.Valid.{Platform, validate_bundle}
use sakamoto_snort.Checkpoint.Sound.{IsValidBundle, validate_bundle-IsValidBundle}
use sakamoto_snort.Checkpoint.Codec.{parse_strict_json_object, parse_bundle, decode_bundle}

decoded-validate :
    (lib : JsonLib) (p : Platform) (t : lib.Text) (b : Bundle)
    → decode_bundle lib p t ≡ ok b
    → validate_bundle p b ≡ ok tt
unfolding decode_bundle
decoded-validate lib p t b h =
    let (small, h1) = check-inv _ _ _ _ h in
    let (doc, parsed, h2) = bind-inv (parse_strict_json_object lib t) _ _ h1 in
    let (b', read, h3) = bind-inv (parse_bundle lib doc) _ _ h2 in
    let (u, valid, e) = bind-inv (validate_bundle p b') _ _ h3 in
    subst (λ x. validate_bundle p x ≡ ok tt) (ok-inv b' b e) valid

-- Whatever the text, a bundle that decodes is valid: its version is 1, no app, rule, list or name
-- occurs twice, every rule that a policy names is a rule of the bundle, the next rule id is above
-- all of them, a list has as many names as it says, and restoring its IP rules succeeds and leaves a
-- published engine.
pub decode_bundle-IsValidBundle :
    (lib : JsonLib) (p : Platform) (t : lib.Text) (b : Bundle)
    → IsPublished p.engine
    → decode_bundle lib p t ≡ ok b
    → IsValidBundle p b
      × ((restore_policy_snapshot b.ip_rules p.engine).1.ok ≡ true)
      × IsPublished (restore_policy_snapshot b.ip_rules p.engine).0
decode_bundle-IsValidBundle lib p t b published h =
    let valid = validate_bundle-IsValidBundle p b (decoded-validate lib p t b h) in
    (
      valid,
      ap ApplyResult.ok (restore_policy_snapshot-validate b.ip_rules p.engine) ∙ valid.ip_rules,
      (restore_policy_snapshot-IsPublished b.ip_rules p.engine published).0,
    )

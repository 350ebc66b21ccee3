-- ===== src/Control/Applied.antt =====
-- What `IPRULES.APPLY` does to the engine.
use sakamoto_snort.Common.{
  ℕ, ◌≤◌, ◌≡◌, ◌≢◌, refl, sym, ap, arith, sort, sort-Perm, sort-Ordered, Ordered, ◌∙◌, ◌⊎◌, inl,
  inr, Bool, true, false, List, [], ◌∷◌, map, Bool-cases, if◌then◌else◌,
}
use mathlib.Core.List.{Perm}
use mathlib.Core.List.Perm
use sakamoto_snort.IpRules.Rule.{RuleDef}
use sakamoto_snort.IpRules.Listing.{by_rule_id, rules_of, list_rules}
use sakamoto_snort.IpRules.Installed.{AreRulesOf, replace_rules_for_uid-AreRulesOf}
use sakamoto_snort.IpRules.Engine.{Engine}
use sakamoto_snort.IpRules.Replace.{ApplyRule, replace_rules_for_uid, remove_uid}
use sakamoto_snort.IpRules.Published.{IsPublished}
use sakamoto_snort.IpRules.Replaced.{replace_rules_for_uid-IsReplacement}
use sakamoto_snort.Checkpoint.Json.{JsonLib, Result, ok, err, outside}
use sakamoto_snort.Checkpoint.Masks.{same_bytes}
use sakamoto_snort.Checkpoint.Valid.{elem}
use sakamoto_snort.Checkpoint.Distinct.{Distinct, same_bytes-IsEquality, elem-In, elem-not_In}
use sakamoto_snort.Control.Words.{Inet}
use sakamoto_snort.Control.Apply.{
  Committed, match_key, Reply, rejected, conflict, not_applied, applied, key_of, duplicated,
  no_texts, conflict_reply, committed, apply_parsed, read_args, handle_apply,
}

abbrev pub is_applied : Reply → Bool
is_applied (rejected c) = false
is_applied (conflict uid keys more) = false
is_applied (not_applied r) = false
is_applied (applied uid rules) = true

-- A command that is refused has changed nothing that is published.
abbrev pub IsRefusal : Engine → Engine × Reply → Type 0
IsRefusal s o =
    (is_applied o.1 ≡ false)
    × (o.0.rules ≡ s.rules)
    × (o.0.next_rule_id ≡ s.next_rule_id)
    × (o.0.rules_epoch ≡ s.rules_epoch)
    × (o.0.last_preflight ≡ s.last_preflight)
    × (o.0.snapshot ≡ s.snapshot)

-- A rule as the reply lists it.
abbrev pub entry : Inet → RuleDef → Committed
entry net d = record {
  client_rule_id = d.client_rule_id;
  rule_id = d.rule_id;
  match_key = match_key net d;
}

-- A command that is applied has left the app with the rules of the request, no two of which have the
-- same match key: one rule for each and no others, under its old id where the app had a rule with its
-- client id. The other apps' rules are as before. The reply lists the rules by their ids.
abbrev pub IsApplication : Inet → Engine → Engine × Reply → ℕ → List ApplyRule → Type 0
IsApplication net s o uid rs =
    Distinct (map (key_of net) rs)
    × (remove_uid uid o.0.rules ≡ remove_uid uid s.rules)
    × ((ds : List RuleDef) × AreRulesOf uid s.rules rs ds
        × Perm (rules_of uid o.0.rules) ds
        × ((listed : List RuleDef) × Perm listed ds
            × Ordered (λ a b. a.rule_id ≤ b.rule_id) listed
            × (o.1 ≡ applied uid (map (entry net) listed))))

-- What a command does whose arguments are rules: it is refused only for two rules with the same match
-- key, or because the engine refuses the rules.
abbrev pub IsAnswer : Inet → Engine → Engine × Reply → ℕ → List ApplyRule → Type 0
IsAnswer net s o uid rs =
    IsApplication net s o uid rs
    ⊎ (IsRefusal s o
        × ((¬ Distinct (map (key_of net) rs)) ⊎ ((replace_rules_for_uid uid rs s).1.ok ≡ false)))

empty-elem : (k : List ℕ) (xs : List (List ℕ)) → no_texts xs ≡ true → elem same_bytes k xs ≡ false
empty-elem k [] h = refl
empty-elem k (x ∷ xs) h = cc

-- A key that is collected leaves the list with a key, so an empty one has collected none.
new_key :
    (twice kept : Bool) (k : List ℕ) (rest : List (List ℕ))
    → no_texts (if twice then (if kept then rest else k ∷ rest) else rest) ≡ true
    → elem same_bytes k rest ≡ kept
    → (twice ≡ false) × (no_texts rest ≡ true)
new_key false kept k rest h e = (refl, h)
new_key true false k rest h e = absurd (cc h)
new_key true true k rest h e = absurd (cc (sym (empty-elem k rest h) ∙ e))

duplicated-Distinct : (ks : List (List ℕ)) → no_texts (duplicated ks) ≡ true → Distinct ks
unfolding duplicated
duplicated-Distinct [] h = tt
duplicated-Distinct (k ∷ ks) h =
    let rest = duplicated ks in
    let (once, none_left) = new_key (elem same_bytes k ks) (elem same_bytes k rest) k rest h refl in
    (elem-not_In same_bytes same_bytes-IsEquality k ks once, duplicated-Distinct ks none_left)

Distinct-duplicated : (ks : List (List ℕ)) → Distinct ks → no_texts (duplicated ks) ≡ true
unfolding duplicated
Distinct-duplicated [] h = refl
Distinct-duplicated (k ∷ ks) (new, rest) = elim (Bool-cases (elem same_bytes k ks)) [
  | inl old ↦ absurd (new (elem-In same_bytes same_bytes-IsEquality k ks old))
  | inr e ↦ rw e (Distinct-duplicated ks rest)
]

conflicting : (ks : List (List ℕ)) → Distinct ks → no_texts (duplicated ks) ≡ false → ⊥
conflicting ks d h = cc (sym (Distinct-duplicated ks d) ∙ h)

committed-listed :
    (net : Inet) (uid : ℕ) (s : Engine)
    → (listed : List RuleDef) × Perm listed (rules_of uid s.rules)
      × Ordered (λ a b. a.rule_id ≤ b.rule_id) listed
      × (committed net uid s ≡ map (entry net) listed)
unfolding committed list_rules
committed-listed net uid s =
    let own = rules_of uid s.rules in
    (
      sort by_rule_id (sort by_rule_id own),
      Perm.trans (sort-Perm by_rule_id (sort by_rule_id own)) (sort-Perm by_rule_id own),
      sort-Ordered by_rule_id (λ a b. a.rule_id ≤ b.rule_id) (λ a b c h g. omega arith)
          (λ a b h. ground arith) (λ a b h. ground arith) (sort by_rule_id own),
      refl,
    )

module _ (net : Inet) where
  apply_parsed-lem :
      (uid : ℕ) (rs : List ApplyRule) (s : Engine)
      → IsPublished s
      → IsPublished (apply_parsed net uid rs s).0
        × IsAnswer net s (apply_parsed net uid rs s) uid rs
  unfolding apply_parsed conflict_reply
  apply_parsed-lem uid rs s p =
      let twice = duplicated (map (key_of net) rs) in
      let r = replace_rules_for_uid uid rs s in
      let (published, atomic, others) = replace_rules_for_uid-IsReplacement uid rs s p in
      elim (Bool-cases (no_texts twice)) [
        | inr some_twice ↦
            rw (apply_parsed, some_twice)
              (p, inr ((refl, refl, refl, refl, refl, refl), inl (λ d. conflicting _ d some_twice)))
        | inl none_twice ↦ elim (Bool-cases r.1.ok) [
          | inl applies ↦
              let (ds, are, perm) = replace_rules_for_uid-AreRulesOf uid rs s applies in
              let (listed, same, ordered, shown) = committed-listed net uid r.0 in
              rw (apply_parsed, none_twice, applies)
                (
                  published,
                  inl (
                    duplicated-Distinct _ none_twice,
                    others,
                    (
                      ds,
                      are,
                      perm,
                      (listed, Perm.trans same perm, ordered, ap (applied uid) shown),
                    ),
                  ),
                )
          | inr fails ↦ elim atomic [
            | inl good ↦ absurd (cc (sym good ∙ fails))
            | inr (rules, next, epoch, report, snapshot) ↦
                rw (apply_parsed, none_twice, fails)
                  (published, inr ((refl, rules, next, epoch, report, snapshot), inr refl))
          ]
        ]
      ]

-- Whatever the arguments, from a published engine: the engine stays published. A command whose arguments
-- are not rules is refused, with nothing published changed. Otherwise it is applied, which leaves the app
-- with exactly the rules of the request, each under its old id if its client id is not new, the other
-- apps' rules as they were, and a reply that lists the app's rules by id; unless two rules have the same
-- match key or the engine refuses the rules: then nothing published is changed.
pub handle_apply-lem :
    (net : Inet) (lib : JsonLib) (resolve : lib.Value → Result ℕ) (args : lib.Value) (s : Engine)
    → IsPublished s
    → IsPublished (handle_apply net lib resolve args s).0
      × ((IsRefusal s (handle_apply net lib resolve args s)
            × ((x : ℕ × List ApplyRule) → read_args net lib resolve args ≢ ok x))
          ⊎ ((uid : ℕ) × (rs : List ApplyRule) × (read_args net lib resolve args ≡ ok (uid, rs))
              × IsAnswer net s (handle_apply net lib resolve args s) uid rs))
unfolding handle_apply
handle_apply-lem net lib resolve args s p = cases (read_args net lib resolve args) refl
  where
    cases :
        (o : Result (ℕ × List ApplyRule))
        → read_args net lib resolve args ≡ o
        → IsPublished (handle_apply net lib resolve args s).0
          × ((IsRefusal s (handle_apply net lib resolve args s)
                × ((x : ℕ × List ApplyRule) → read_args net lib resolve args ≢ ok x))
              ⊎ ((uid : ℕ) × (rs : List ApplyRule) × (read_args net lib resolve args ≡ ok (uid, rs))
                  × IsAnswer net s (handle_apply net lib resolve args s) uid rs))
    cases (err c) e =
        rw (handle_apply, e) (p, inl ((refl, refl, refl, refl, refl, refl), λ x h. cc h))
    cases outside e =
        rw (handle_apply, e) (p, inl ((refl, refl, refl, refl, refl, refl), λ x h. cc h))
    cases (ok (uid, rs)) e =
        let (published, outcome) = apply_parsed-lem net uid rs s p in
        rw (handle_apply, e) (published, inr (uid, rs, refl, outcome))

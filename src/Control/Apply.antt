-- ===== src/Control/Apply.antt =====
-- `IPRULES.APPLY` of src/ControlVNextSessionCommandsIpRules.cpp on the engine of the IP rules. The app's selector is a
-- parameter, `resolve`: the uid, or the error it answers with. A reply holds what the response shows;
-- the texts of its messages are left out.
use sakamoto_snort.Common.{
  ℕ, Bool, true, false, not, List, [], ◌∷◌, ◌++◌, map, ltb, if◌then◌else◌, length, take, sort,
}
use sakamoto_snort.IpRules.Rule.{Family, Cidr, RuleDef}
use sakamoto_snort.IpRules.Listing.{by_rule_id, list_rules}
use sakamoto_snort.IpRules.Engine.{Engine, ApplyResult}
use sakamoto_snort.IpRules.Replace.{ApplyRule, def_of, replace_rules_for_uid}
use sakamoto_snort.Checkpoint.Json.{
  JsonLib, Code, invalid_argument, Result, ok, err, outside, ◌>>=◌, ◌>>◌, codes,
}
use sakamoto_snort.Checkpoint.Masks.{same_bytes}
use sakamoto_snort.Checkpoint.Valid.{elem}
use sakamoto_snort.Control.Words.{
  Inet, number_text, format_cidr_v4, format_cidr_v6, format_port_predicate,
}
use sakamoto_snort.Control.Enums.{
  family_str, direction_str, iface_str, proto_str, ct_state_str, ct_dir_str,
}
use sakamoto_snort.Control.Rule.{known_only, require_object, as_array, field, parse_rules}

-- A committed rule as the response shows it: its client id, its id and its match key.
pub record Committed : Type 0 where
  pub client_rule_id : List ℕ
  pub rule_id : ℕ
  pub match_key : List ℕ

-- `conflict` has the keys that occur twice, each with its rules, and whether there were more.
pub data Reply : Type 0 where
  rejected : Code → Reply
  conflict : ℕ → List (List ℕ × List ApplyRule) → Bool → Reply
  not_applied : ApplyResult → Reply
  applied : ℕ → List Committed → Reply

-- The keys that occur more than once, each once.
unfoldable pub duplicated : List (List ℕ) → List (List ℕ)
duplicated [] = []
duplicated (k ∷ ks) =
    let rest = duplicated ks in
    if elem same_bytes k ks then (if elem same_bytes k rest then rest else k ∷ rest) else rest

abbrev pub no_texts : List (List ℕ) → Bool
no_texts [] = true
no_texts (k ∷ ks) = false

-- `operator<` of strings.
abbrev text_less : List ℕ → List ℕ → Bool
text_less [] [] = false
text_less [] (y ∷ ys) = true
text_less (x ∷ xs) [] = false
text_less (x ∷ xs) (y ∷ ys) =
    let rest = text_less xs ys in if ltb x y then true else if ltb y x then false else rest

-- `append` by `append`.
abbrev pub appended : List (List ℕ) → List ℕ
appended [] = []
appended (x ∷ []) = x
appended (x ∷ y ∷ ys) = x ++ appended (y ∷ ys)

module _ (net : Inet) where
  abbrev pub address_text : Family → Cidr ℕ → Cidr (List ℕ) → List ℕ
  address_text Family.ipv4 c c6 = format_cidr_v4 net c
  address_text Family.ipv6 c c6 = format_cidr_v6 net c6

  -- `matchKeyMk2` of a committed rule.
  unfoldable pub match_key : RuleDef → List ℕ
  match_key r = appended (
      codes "mk2"
      ∷ codes "|family="
      ∷ family_str r.family
      ∷ codes "|dir="
      ∷ direction_str r.dir
      ∷ codes "|iface="
      ∷ iface_str r.iface
      ∷ codes "|ifindex="
      ∷ number_text r.ifindex
      ∷ codes "|proto="
      ∷ proto_str r.proto
      ∷ codes "|ctstate="
      ∷ ct_state_str r.ct_state
      ∷ codes "|ctdir="
      ∷ ct_dir_str r.ct_dir
      ∷ codes "|src="
      ∷ address_text r.family r.src r.src6
      ∷ codes "|dst="
      ∷ address_text r.family r.dst r.dst6
      ∷ codes "|sport="
      ∷ format_port_predicate r.sport
      ∷ codes "|dport="
      ∷ format_port_predicate r.dport
      ∷ [])

  -- The key of a rule of the request, which the ids are no part of.
  abbrev pub key_of : ApplyRule → List ℕ
  key_of r = match_key (def_of 0 0 r)

  abbrev rules_with : List ℕ → List ApplyRule → List ApplyRule
  rules_with k [] = []
  rules_with k (r ∷ rs) =
      let rest = rules_with k rs in if same_bytes (key_of r) k then r ∷ rest else rest

  -- The answer to keys that occur twice, of which it shows 64.
  unfoldable pub conflict_reply : ℕ → List ApplyRule → List (List ℕ) → Reply
  conflict_reply uid rs keys =
      conflict uid (map (λ k. (k, rules_with k rs)) (take 64 (sort text_less keys)))
        (ltb 64 (length keys))

  -- The mapping of a successful response.
  unfoldable pub committed : ℕ → Engine → List Committed
  unfolding list_rules match_key
  committed uid s =
      map
        (λ d. record {
          client_rule_id = d.client_rule_id;
          rule_id = d.rule_id;
          match_key = match_key d;
        })
        (sort by_rule_id (list_rules uid s.rules))

  -- What follows the parsing.
  unfoldable pub apply_parsed : ℕ → List ApplyRule → Engine → Engine × Reply
  apply_parsed uid rs s =
      let twice = duplicated (map key_of rs) in
      let r = replace_rules_for_uid uid rs s in
      if not (no_texts twice)
      then (s, conflict_reply uid rs twice)
      else if not r.1.ok
      then (r.0, not_applied r.1)
      else (r.0, applied uid (committed uid r.0))

  module _ (lib : JsonLib) (resolve : lib.Value → Result ℕ) where
    unfoldable pub read_args : lib.Value → Result (ℕ × List ApplyRule)
    unfolding parse_rules
    read_args args = do
      known_only lib ("app" ∷ "rules" ∷ []) args
      app ← field lib "app" args
      require_object lib app
      rules_value ← field lib "rules" args
      items ← as_array lib rules_value
      uid ← resolve app
      rs ← parse_rules lib net [] items
      ok (uid, rs)

    -- No cast to an enumeration is made, so `outside` does not occur.
    unfoldable pub handle_apply : lib.Value → Engine → Engine × Reply
    handle_apply args s = elim (read_args args) [
      | err c ↦ (s, rejected c)
      | outside ↦ (s, rejected invalid_argument)
      | ok (uid, rs) ↦ apply_parsed uid rs s
    ]

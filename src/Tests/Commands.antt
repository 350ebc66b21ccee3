-- ===== src/Tests/Commands.antt =====
-- `IPRULES.APPLY` on an engine without rules, with the JSON library of Tests.Checkpoints and toy addresses.
use sakamoto_snort.Common.{
  ℕ, ◌≡◌, ◌≢◌, refl, ◌⊎◌, true, false, List, [], ◌∷◌, Option, some, none, pos, take,
}
use sakamoto_snort.Checkpoint.Json.{codes, Result, ok, as_string, as_i32}
use sakamoto_snort.IpRules.Engine.{initial}
use sakamoto_snort.IpRules.Published.{IsPublished, initial-IsPublished}
use sakamoto_snort.IpRules.Rule.{
  Family, Action, Direction, IfaceKind, Proto, CtState, CtDirection, PortKind,
}
use sakamoto_snort.IpRules.Replace.{ApplyRule, is_valid_client_rule_id}
use sakamoto_snort.Control.Rule.{
  known_only, field, require_object, as_array, has_member, word, as_toggle, cidrs,
}
use sakamoto_snort.Control.Words.{
  Inet, split_at, parse_dec, any_v4, any_v6, parse_port_text, parse_cidr_text_v4,
}
use sakamoto_snort.IpRules.Family.{mask_from_prefix}
use sakamoto_snort.Control.Apply.{handle_apply, read_args}
use sakamoto_snort.Control.Applied.{IsRefusal, IsAnswer, handle_apply-lem}
use sakamoto_snort.Tests.Checkpoints.{Tree, number, phrase, row, table, trees, members, tree_lib}

-- An address is one letter, and stands for its code.
abbrev letter : List ℕ → Option ℕ
letter [] = none
letter (c ∷ cs) = some c

abbrev letters : Inet
letters = record {
  pton4 = letter;
  ntop4 = λ n. some (n ∷ []);
  pton6 = λ s. none;
  ntop6 = λ b. some (take 1 b);
}

abbrev resolve : Tree → Result ℕ
resolve t = ok 10001

abbrev block_dns : Tree
block_dns = table (
    members (
      ("clientRuleId", phrase (codes "block-dns"))
      ∷ ("action", phrase (codes "block"))
      ∷ ("priority", number (pos 10))
      ∷ ("enabled", number (pos 1))
      ∷ ("enforce", number (pos 1))
      ∷ ("log", number (pos 0))
      ∷ ("family", phrase (codes "ipv4"))
      ∷ ("dir", phrase (codes "out"))
      ∷ ("iface", phrase (codes "any"))
      ∷ ("ifindex", number (pos 0))
      ∷ ("proto", phrase (codes "udp"))
      ∷ (
        "ct",
        table
            (members (("state", phrase (codes "any")) ∷ ("direction", phrase (codes "any")) ∷ [])),
      )
      ∷ ("src", phrase (codes "any"))
      ∷ ("dst", phrase (codes "a/32"))
      ∷ ("sport", phrase (codes "any"))
      ∷ ("dport", phrase (codes "53"))
      ∷ []))

abbrev args : Tree
args = table (
    members (
      ("app", table (members (("uid", number (pos 10001)) ∷ [])))
      ∷ ("rules", row (trees (block_dns ∷ [])))
      ∷ []))

abbrev dns_rule : ApplyRule
dns_rule = record {
  client_rule_id = codes "block-dns";
  family = Family.ipv4;
  action = Action.block;
  priority = pos 10;
  enabled = true;
  enforce = true;
  log = false;
  dir = Direction.outbound;
  iface = IfaceKind.any;
  ifindex = 0;
  proto = Proto.udp;
  src = any_v4;
  dst = record { any = false; addr = 97; prefix = 32 };
  src6 = any_v6;
  dst6 = any_v6;
  sport = record { kind = PortKind.any; lo = 0; hi = 0 };
  dport = record { kind = PortKind.exact; lo = 53; hi = 53 };
  ct_state = CtState.any;
  ct_dir = CtDirection.any;
}

args_read : read_args letters tree_lib resolve args ≡ ok (10001, dns_rule ∷ [])
unfolding read_args known_only field require_object as_array has_member as_string
    is_valid_client_rule_id word as_i32 as_toggle cidrs parse_port_text parse_cidr_text_v4 split_at
    parse_dec mask_from_prefix
args_read = refl

handle_apply-lem_example :
    IsPublished (handle_apply letters tree_lib resolve args initial).0
    × ((IsRefusal initial (handle_apply letters tree_lib resolve args initial)
          × ((x : ℕ × List ApplyRule) → read_args letters tree_lib resolve args ≢ ok x))
        ⊎ ((uid : ℕ) × (rs : List ApplyRule) × (read_args letters tree_lib resolve args
              ≡ ok (uid, rs))
            × IsAnswer letters initial (handle_apply letters tree_lib resolve args initial) uid rs))
handle_apply-lem_example =
    handle_apply-lem letters tree_lib resolve args initial initial-IsPublished

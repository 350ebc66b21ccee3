-- ===== src/Tests/Checkpoints.antt =====
-- A JSON library whose values are trees and whose texts are the trees themselves, and a small bundle.
use Prim.Native.String.{String}
use sakamoto_snort.Common.{
  ℕ, ◌≡◌, refl, ap, Bool, true, false, List, [], ◌∷◌, some, ℤ, pos, arith, ◌==◌, upsert, length,
}
use sakamoto_snort.Checkpoint.Json.{
  Json, JsonLib, JsonLaws, boolean, integer, chars, array, object, codes, ok,
}
use sakamoto_snort.Domain.Rules.{domain, wildcard, create}
use sakamoto_snort.Domain.Policy.{Color}
use sakamoto_snort.IpRules.Engine.{initial, restore_policy_snapshot}
use sakamoto_snort.Checkpoint.Bundle.{PolicyScope, Bundle}
use sakamoto_snort.Checkpoint.Ranges.{IsBundle}
use sakamoto_snort.Checkpoint.Masks.{is_valid_app_block_mask, is_valid_blocking_list_mask}
use sakamoto_snort.Checkpoint.Valid.{
  Platform, validate_bundle, all_fresh, validate_domain_rule, max_domain_rule_id,
  validate_policy_scope, validate_domain_list,
}
use sakamoto_snort.Checkpoint.Codec.{encode_bundle, decode_bundle}
use sakamoto_snort.Checkpoint.RoundTrip.{decode_bundle-encode_bundle}
use sakamoto_snort.Checkpoint.Sound.{IsValidBundle}
use sakamoto_snort.Checkpoint.Decoded.{decode_bundle-IsValidBundle}
use sakamoto_snort.IpRules.Validate.{validate_policy_snapshot}
use sakamoto_snort.IpRules.Published.{IsPublished, initial-IsPublished}
use sakamoto_snort.Tests.Rules.{block_https}
use sakamoto_snort.Tests.Domains.{literals}

mutual
  pub data Tree : Type 0 where
    truth : Bool → Tree
    number : ℤ → Tree
    phrase : List ℕ → Tree
    row : Trees → Tree
    table : Members → Tree

  pub data Trees : Type 0 where
    no_trees : Trees
    more_trees : Tree → Trees → Trees

  pub data Members : Type 0 where
    no_members : Members
    more_members : String → Tree → Members → Members

abbrev pub trees : List Tree → Trees
trees [] = no_trees
trees (t ∷ ts) = more_trees t (trees ts)

abbrev listed : Trees → List Tree
listed no_trees = []
listed (more_trees t ts) = t ∷ listed ts

abbrev pub members : List (String × Tree) → Members
members [] = no_members
members ((k, t) ∷ ms) = more_members k t (members ms)

abbrev listed_members : Members → List (String × Tree)
listed_members no_members = []
listed_members (more_members k t ms) = (k, t) ∷ listed_members ms

listed-trees : (ts : List Tree) → listed (trees ts) ≡ ts
listed-trees [] = refl
listed-trees (t ∷ ts) = ap (λ xs. t ∷ xs) (listed-trees ts)

listed-members : (ms : List (String × Tree)) → listed_members (members ms) ≡ ms
listed-members [] = refl
listed-members ((k, t) ∷ ms) = ap (λ xs. (k, t) ∷ xs) (listed-members ms)

abbrev shown : Tree → Json Tree
shown (truth b) = boolean b
shown (number i) = integer i
shown (phrase s) = chars s
shown (row ts) = array (listed ts)
shown (table ms) = object (listed_members ms)

abbrev pub tree_lib : JsonLib
tree_lib = record {
  Value = Tree;
  Text = Tree;
  view = shown;
  of_bool = truth;
  of_uint = λ n. number (pos n);
  of_int = number;
  of_string = phrase;
  of_array = λ ts. row (trees ts);
  of_object = λ ms. table (members ms);
  write = λ t. t;
  parse = some;
  size = λ t. 4096;
}

tree_laws : JsonLaws tree_lib
tree_laws = record {
  of_bool-view = λ b. refl;
  of_uint-view = λ n h. refl;
  of_int-view = λ i h. refl;
  of_string-view = λ s. refl;
  of_array-view = λ ts. ap array (listed-trees ts);
  of_object-view = λ ms. ap object (listed-members ms);
  parse-write = λ t. refl;
}

abbrev platform : Platform
platform = record {
  host_name_max = 255;
  is_time = λ s. length s == 19;
  regexes = literals;
  engine = initial;
}

abbrev scope : PolicyScope
scope = record {
  allow_domains = codes "a.example" ∷ codes "b.example" ∷ [];
  block_domains = [];
  allow_rule_ids = [];
  block_rule_ids = 2 ∷ 1 ∷ [];
}

abbrev bundle : Bundle
bundle = record {
  format_version = 1;
  created_at = 1700000000;
  device_config = record {
    block_enabled = true;
    block_mask = 129;
    block_iface = 0;
    reverse_dns = false;
    ip_rules_enabled = true;
  };
  app_configs =
      record { uid = 10001; block_mask = 137; block_iface = 2; use_custom_list = true } ∷ [];
  domain_rules = record {
    next_rule_id = 3;
    rules =
        record { rule_id = 1; type = wildcard; pattern = codes "ads*" }
        ∷ record { rule_id = 2; type = domain; pattern = codes "c.example" }
        ∷ [];
  };
  domain_policy = record { device = scope; apps = record { uid = 10001; policy = scope } ∷ [] };
  domain_lists =
      record {
        list_id = codes "01234567-89ab-cdef-0123-456789ABCDEF";
        color = Color.black;
        mask = 8;
        enabled = true;
        url = codes "https://lists.example/";
        name = codes "list";
        updated_at = codes "2024-01-02_03:04:05";
        etag = [];
        outdated = false;
        domains_count = 2;
        domains = codes "x.example" ∷ codes "y.example" ∷ [];
      }
      ∷ [];
  ip_rules = record { next_rule_id = 4; rules = block_https ∷ [] };
}

bundle-IsBundle : IsBundle bundle
unfolding is_valid_app_block_mask is_valid_blocking_list_mask
bundle-IsBundle = ground arith

bundle_valid : validate_bundle platform bundle ≡ ok tt
unfolding validate_bundle is_valid_app_block_mask all_fresh validate_domain_rule create
    max_domain_rule_id validate_policy_scope validate_domain_list validate_policy_snapshot upsert
bundle_valid = refl

saved :
    (t : Tree) × (encode_bundle tree_lib platform bundle ≡ ok t)
    × (decode_bundle tree_lib platform t ≡ ok bundle)
saved =
    decode_bundle-encode_bundle tree_lib tree_laws platform bundle bundle-IsBundle bundle_valid
      (omega arith)

decode_bundle-encode_bundle_example :
    (t : Tree) × (encode_bundle tree_lib platform bundle ≡ ok t)
    × (decode_bundle tree_lib platform t ≡ ok bundle)
decode_bundle-encode_bundle_example =
    decode_bundle-encode_bundle tree_lib tree_laws platform bundle bundle-IsBundle bundle_valid
      (omega arith)

decode_bundle-IsValidBundle_example :
    IsValidBundle platform bundle
    × ((restore_policy_snapshot bundle.ip_rules initial).1.ok ≡ true)
    × IsPublished (restore_policy_snapshot bundle.ip_rules initial).0
decode_bundle-IsValidBundle_example =
    decode_bundle-IsValidBundle tree_lib platform saved.0 bundle initial-IsPublished saved.2

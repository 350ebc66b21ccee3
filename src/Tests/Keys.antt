-- ===== src/Tests/Keys.antt =====
-- Two rules with the same match key, for toy texts of addresses.
use sakamoto_snort.Common.{
  ℕ, ◌+◌, ◌-◌, ◌<◌, ◌≡◌, refl, ap, ◌↔◌, false, List, [], ◌∷◌, none, some, arith, ◌==◌, map, length,
}
use sakamoto_snort.IpRules.Rule.{Action, RuleDef}
use sakamoto_snort.IpRules.Family.{mask_from_prefix}
use sakamoto_snort.Control.Words.{Inet, is_empty_text, split_at, parse_dec, number_text}
use sakamoto_snort.Control.Texts.{
  parse_dec-number_text, is_empty_text-number_text, split_at-number_text,
}
use sakamoto_snort.Control.Addresses.{InetLaws}
use sakamoto_snort.Control.Apply.{match_key}
use sakamoto_snort.Control.Keys.{IsMatchText, MatchSame, match_key-MatchSame}
use sakamoto_snort.Tests.Rules.{block_https}

-- A number stands for an IPv4 address, and a letter above 200 for each byte of an IPv6 address.
abbrev toy : Inet
toy = record {
  ntop4 = λ n. some (number_text n);
  pton4 = parse_dec;
  ntop6 = λ bytes. some (map (λ b. b + 200) bytes);
  pton6 = λ s. some (map (λ b. b - 200) s);
}

map-back : (bytes : List ℕ) → map (λ b. b - 200) (map (λ b. b + 200) bytes) ≡ bytes
map-back [] = refl
map-back (b ∷ bytes) =
    let first : b + 200 - 200 ≡ b = omega arith in rw (first, map-back bytes) refl

letters-without : (c : ℕ) (bytes : List ℕ) → c < 200 → split_at c (map (λ b. b + 200) bytes) ≡ none
unfolding split_at
letters-without c [] h = refl
letters-without c (b ∷ bytes) h =
    let other : (b + 200 == c) ≡ false = ground arith in rw (other, letters-without c bytes h) refl

some_letters :
    (bytes : List ℕ) → length bytes ≡ 16 → is_empty_text (map (λ b. b + 200) bytes) ≡ false
some_letters [] h = absurd (omega arith)
some_letters (b ∷ bytes) h = refl

toy_laws : InetLaws toy
toy_laws = record {
  pton4-ntop4 = λ a h. (
    number_text a,
    refl,
    parse_dec-number_text a h,
    (is_empty_text-number_text a, split_at-number_text 47 a refl, split_at-number_text 124 a refl),
  );
  pton6-ntop6 = λ a h. (
    map (λ b. b + 200) a,
    refl,
    ap some (map-back a),
    (some_letters a h, letters-without 47 a (omega arith), letters-without 124 a (omega arith)),
  );
}

abbrev allow_https : RuleDef
allow_https = record block_https { rule_id = 9; action = Action.allow }

block_https-IsMatchText : IsMatchText block_https
unfolding mask_from_prefix
block_https-IsMatchText = (
  omega arith,
  ((refl, refl), refl),
  ((omega arith, omega arith, refl), refl),
  (refl, refl),
  (omega arith, refl),
)

match_key-MatchSame_example :
    (match_key toy block_https ≡ match_key toy allow_https) ↔ MatchSame block_https allow_https
match_key-MatchSame_example =
    match_key-MatchSame toy toy_laws block_https allow_https block_https-IsMatchText
      block_https-IsMatchText

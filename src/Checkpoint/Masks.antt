-- ===== src/Checkpoint/Masks.antt =====
-- The masks of src/Settings.hpp, and the words for the types of src/PolicyCheckpoint.cpp.
use sakamoto_snort.Common.{
  ℕ, ◌-◌, ◌^◌, Bool, true, false, ◌&&◌, ◌||◌, List, [], ◌∷◌, Option, none, some, ltb, ◌==◌,
  if◌then◌else◌, bit_and,
}
use sakamoto_snort.Domain.Rules.{RuleType, domain, wildcard, regex}
use sakamoto_snort.Domain.Policy.{Color}
use sakamoto_snort.Checkpoint.Json.{Result, ok, err, invalid_argument, codes}

-- `supportedAppBitsMask` is 255.
unfoldable pub is_valid_app_block_mask : ℕ → Bool
is_valid_app_block_mask mask = if ltb 255 mask then false else bit_and mask (2 ^ 32 - 1 - 255) == 0

unfoldable pub is_valid_blocking_list_mask : ℕ → Bool
is_valid_blocking_list_mask mask =
    (mask == 1)
    || (mask == 2)
    || (mask == 4)
    || (mask == 8)
    || (mask == 16)
    || (mask == 32)
    || (mask == 64)

abbrev pub same_bytes : List ℕ → List ℕ → Bool
same_bytes [] [] = true
same_bytes [] (y ∷ ys) = false
same_bytes (x ∷ xs) [] = false
same_bytes (x ∷ xs) (y ∷ ys) = (x == y) && same_bytes xs ys

abbrev pub parse_rule_type : List ℕ → Option RuleType
parse_rule_type value =
    if same_bytes value (codes "domain")
    then some domain
    else if same_bytes value (codes "wildcard")
    then some wildcard
    else if same_bytes value (codes "regex")
    then some regex
    else none

abbrev pub rule_type_string : RuleType → List ℕ
rule_type_string domain = codes "domain"
rule_type_string wildcard = codes "wildcard"
rule_type_string regex = codes "regex"

abbrev pub parse_list_kind : List ℕ → Option Color
parse_list_kind value =
    if same_bytes value (codes "block")
    then some Color.black
    else if same_bytes value (codes "allow")
    then some Color.white
    else none

abbrev pub list_kind_string : Color → List ℕ
list_kind_string Color.white = codes "allow"
list_kind_string Color.black = codes "block"
list_kind_string Color.grey = codes "block"
list_kind_string Color.allc = codes "block"

abbrev pub accept : {A : Type 0} → Option A → Result A
accept none = err invalid_argument
accept (some a) = ok a

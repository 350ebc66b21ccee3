-- ===== src/Domain/Rules.antt =====
-- src/Rule.cpp, src/CustomRules.cpp and src/CustomList.cpp. `std::regex` is a parameter: `compile` is
-- the constructor with `std::regex::extended`, `none` where it throws, and `empty` is
-- `std::regex("")`. A rule's statistics, the `_saved` flag and the printing are left out; the order
-- in which an `unordered_set` is walked is the order of the list, which is arbitrary.
use sakamoto_snort.Common.{
  ℕ, Bool, false, not, ◌||◌, List, [], ◌∷◌, ◌++◌, Option, none, some, is_some, ltb, ◌==◌,
  if◌then◌else◌, sort,
}

pub record RegexLib : Type 1 where
  pub Compiled : Type 0
  pub compile : List ℕ → Option Compiled
  pub regex_match : List ℕ → Compiled → Bool
  pub empty : Compiled

pub data RuleType : Type 0 where
  domain wildcard regex : RuleType

pub record Rule : Type 0 where
  pub id : ℕ
  pub type : RuleType
  pub rule : List ℕ
  pub regex_text : List ℕ
  pub valid : Bool

abbrev is_in : ℕ → List ℕ → Bool
is_in c [] = false
is_in c (d ∷ ds) = (c == d) || is_in c ds

-- `.^$|()[]{}*+?\`
abbrev meta_characters : List ℕ
meta_characters = 46 ∷ 94 ∷ 36 ∷ 124 ∷ 40 ∷ 41 ∷ 91 ∷ 93 ∷ 123 ∷ 125 ∷ 42 ∷ 43 ∷ 63 ∷ 92 ∷ []

-- The `switch` of `Rule::create`: `*` is 42, `?` is 63, `.` is 46 and the backslash 92.
unfoldable pub glob_char : ℕ → List ℕ
glob_char c =
    if c == 42
    then 46 ∷ 42 ∷ []
    else if c == 63
    then 46 ∷ []
    else if is_in c meta_characters
    then 92 ∷ c ∷ []
    else c ∷ []

unfoldable pub glob_regex : List ℕ → List ℕ
unfolding glob_char
glob_regex [] = []
glob_regex (c ∷ cs) = glob_char c ++ glob_regex cs

abbrev text_of : RuleType → List ℕ → List ℕ
text_of domain rule = rule
text_of wildcard rule = glob_regex rule
text_of regex rule = rule

module _ (lib : RegexLib) where
  -- `Rule::create`
  unfoldable pub create : RuleType → ℕ → List ℕ → Rule
  create type id rule = record {
    id = id;
    type = type;
    rule = rule;
    regex_text = text_of type rule;
    valid = is_some (lib.compile (text_of type rule));
  }

  pub record CustomRules : Type 0 where
    pub rules : List Rule
    pub regex_snap : lib.Compiled
    pub attrib_snap : List (ℕ × lib.Compiled)

  -- The valid rules' texts, and the rules that compile by themselves.
  unfoldable pub valid_texts : List Rule → List (List ℕ)
  valid_texts [] = []
  valid_texts (r ∷ rs) = let rest = valid_texts rs in if r.valid then r.regex_text ∷ rest else rest

  unfoldable pub attribution : List Rule → List (ℕ × lib.Compiled)
  attribution [] = []
  attribution (r ∷ rs) =
      let rest = attribution rs in
      if not r.valid
      then rest
      else elim (lib.compile r.regex_text) [ none ↦ rest | some c ↦ (r.id, c) ∷ rest ]

  -- The texts with `|`, which is 124, between them.
  unfoldable pub append_texts : List ℕ → List (List ℕ) → List ℕ
  append_texts acc [] = acc
  append_texts acc (t ∷ ts) = append_texts (acc ++ (124 ∷ t)) ts

  abbrev pub joined : List (List ℕ) → List ℕ
  joined [] = []
  joined (t ∷ ts) = append_texts t ts

  abbrev pub by_id : ℕ × lib.Compiled → ℕ × lib.Compiled → Bool
  by_id a b = ltb a.0 b.0

  -- `rebuildRegexSnapshotLocked`
  unfoldable pub rebuild : List Rule → CustomRules
  rebuild rules = record {
    rules = rules;
    regex_snap = elim (lib.compile (joined (valid_texts rules))) [ none ↦ lib.empty | some c ↦ c ];
    attrib_snap = sort by_id (attribution rules);
  }

  abbrev has_rule : ℕ → List Rule → Bool
  has_rule id [] = false
  has_rule id (r ∷ rs) = (r.id == id) || has_rule id rs

  abbrev without_rule : ℕ → List Rule → List Rule
  without_rule id [] = []
  without_rule id (r ∷ rs) = let rest = without_rule id rs in if r.id == id then rest else r ∷ rest

  unfoldable pub build : CustomRules → CustomRules
  build c = rebuild c.rules

  -- `add` and `remove`: a rule is one object, known by its id.
  unfoldable pub add_custom_rule : Rule → Bool → CustomRules → CustomRules
  add_custom_rule rule compiles c =
      let rules = if has_rule rule.id c.rules then c.rules else rule ∷ c.rules in
      if compiles then rebuild rules else record c { rules = rules }

  unfoldable pub remove_custom_rule : Rule → Bool → CustomRules → CustomRules
  remove_custom_rule rule compiles c =
      let rules = without_rule rule.id c.rules in
      if compiles then rebuild rules else record c { rules = rules }

  unfoldable pub reset_rules : CustomRules → CustomRules
  reset_rules c = rebuild []

  -- `match` and `matchFirstRuleId`
  unfoldable pub match_name : CustomRules → List ℕ → Bool
  match_name c name = lib.regex_match name c.regex_snap

  unfoldable pub first_match : List ℕ → List (ℕ × lib.Compiled) → Option ℕ
  first_match name [] = none
  first_match name (e ∷ es) =
      let rest = first_match name es in if lib.regex_match name e.1 then some e.0 else rest

  unfoldable pub match_first_rule_id : CustomRules → List ℕ → Option ℕ
  match_first_rule_id c name = first_match name c.attrib_snap

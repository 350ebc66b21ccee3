-- ===== src/Tests/Domains.antt =====
-- A regex library of literals with alternatives, rules of it, and an app's decision on a domain.
use sakamoto_snort.Common.{
  ℕ, ◌≡◌, ◌≢◌, refl, sym, ap, ◌∙◌, Bool, true, false, ◌||◌, List, [], ◌∷◌, ◌++◌, Option, none, some,
  is_some, ◌==◌, if◌then◌else◌, Bool-cases, inl, inr,
}
use sakamoto_snort.Domain.Rules.{
  RegexLib, Rule, CustomRules, domain, create, rebuild, match_name, match_first_rule_id,
}
use sakamoto_snort.Domain.First.{IsFirst, match_first_rule_id-IsFirst}
use sakamoto_snort.Domain.Match.{RegexLaws, match_name-match_first_rule_id}
use sakamoto_snort.Domain.Policy.{
  Domain, grey, Lists, App, app_blocked, blocked_with_source, blocked_with_source_and_rule_id,
}
use sakamoto_snort.Domain.Agree.{verdict_of, sourced_of, blocked-agrees}
use sakamoto_snort.Domain.Debug.{evaluate_debug}
use sakamoto_snort.Domain.Explained.{evaluate_debug-agrees}

-- Whether a name is matched by one of the texts between the `|`: what is left of the name after the
-- current text's characters so far, `none` when they differ from it.
abbrev is_done : Option (List ℕ) → Bool
is_done none = false
is_done (some []) = true
is_done (some (c ∷ cs)) = false

abbrev advance : ℕ → Option (List ℕ) → Option (List ℕ)
advance c none = none
advance c (some []) = none
advance c (some (d ∷ ds)) = if c == d then some ds else none

abbrev scan : List ℕ → Option (List ℕ) → List ℕ → Bool
scan name left [] = is_done left
scan name left (c ∷ cs) =
    let next = scan name (some name) cs in
    let on = scan name (advance c left) cs in if c == 124 then is_done left || next else on

abbrev pub literals : RegexLib
literals = record {
  Compiled = List ℕ;
  compile = λ s. some s;
  regex_match = λ name s. scan name (some name) s;
  empty = [];
}

or_assoc : (a b c : Bool) → (a || b) || c ≡ a || (b || c)
or_assoc true b c = refl
or_assoc false b c = refl

scan-append :
    (name : List ℕ) (left : Option (List ℕ)) (s t : List ℕ)
    → scan name left (s ++ (124 ∷ t)) ≡ scan name left s || scan name (some name) t
scan-append name left [] t = refl
scan-append name left (c ∷ s) t = elim (Bool-cases (c == 124)) [
  | inl bar ↦
      rw (bar, scan-append name (some name) s t)
        (sym (or_assoc (is_done left) (scan name (some name) s) (scan name (some name) t)))
  | inr other ↦ rw other (scan-append name (advance c left) s t)
]

not_done : (name : List ℕ) → name ≢ [] → is_done (some name) ≡ false
not_done [] h = absurd (h refl)
not_done (c ∷ cs) h = refl

abbrev text : Option (List ℕ) → List ℕ
text none = []
text (some s) = s

literals-laws : RegexLaws literals
literals-laws = record {
  empty_none = λ name ne. not_done name ne;
  nil_none = λ name c ne e. ap (scan name (some name)) (sym (ap text e)) ∙ not_done name ne;
  alternation = λ s t a b e f. (
    s ++ (124 ∷ t),
    refl,
    λ name.
        scan-append name (some name) s t
        ∙ ap (λ x. scan name (some name) x || scan name (some name) t) (ap text e)
        ∙ ap (λ x. scan name (some name) a || scan name (some name) x) (ap text f),
  );
}

-- Two rules for `ads`.
abbrev rules : List Rule
rules =
    create literals domain 9 (97 ∷ 100 ∷ 115 ∷ [])
    ∷ create literals domain 4 (97 ∷ 100 ∷ 115 ∷ [])
    ∷ []

abbrev no_rules : CustomRules literals
no_rules = rebuild literals []

abbrev ads : Domain
ads = record { key = 1; name = 97 ∷ 100 ∷ 115 ∷ []; color = grey; block_mask = 0 }

abbrev device : Lists literals
device = record {
  custom_white = 8 ∷ [];
  custom_black = [];
  white_rules = no_rules;
  black_rules = rebuild literals rules;
}

abbrev app : App literals
app = record {
  use_custom_list = true;
  app_mask = 1;
  own = record {
    custom_white = [];
    custom_black = 2 ∷ [];
    white_rules = no_rules;
    black_rules = no_rules;
  };
}

match_first_rule_id-IsFirst_example :
    IsFirst literals ads.name rules (match_first_rule_id literals (rebuild literals rules) ads.name)
match_first_rule_id-IsFirst_example = match_first_rule_id-IsFirst literals ads.name rules

match_name-match_first_rule_id_example :
    match_name literals (rebuild literals rules) ads.name
    ≡ is_some (match_first_rule_id literals (rebuild literals rules) ads.name)
unfolding create
match_name-match_first_rule_id_example =
    match_name-match_first_rule_id literals literals-laws ads.name rules (λ e. cc)
      (refl, (refl, tt))

blocked-agrees_example :
    (app_blocked literals true device app (some ads)
      ≡ verdict_of literals (blocked_with_source_and_rule_id literals true device app (some ads)))
    × (blocked_with_source literals true device app (some ads)
        ≡ sourced_of literals (blocked_with_source_and_rule_id literals true device app (some ads)))
blocked-agrees_example = blocked-agrees literals true device app (some ads)

evaluate_debug-agrees_example :
    evaluate_debug literals (λ i. true) true device app (some ads)
    ≡ blocked_with_source_and_rule_id literals true device app (some ads)
unfolding create rebuild
evaluate_debug-agrees_example =
    evaluate_debug-agrees literals (λ i. true) literals-laws true device app ads (λ e. cc)
      (refl, tt, tt) (refl, tt, tt) (refl, tt, tt) (refl, (refl, (refl, tt)), (refl, (refl, tt)))

-- ===== src/Control/Texts.antt =====
-- The texts of ports and IPv4 addresses in the rule commands: what is printed is read back.
use sakamoto_snort.Common.{
  ℕ, ◌+◌, ◌^◌, ◌≤◌, ◌<◌, ◌≡◌, refl, sym, ap, ◌∙◌, Bool, true, false, List, [], ◌∷◌, ◌++◌, Option,
  some, none, ltb, arith, ◌==◌, if◌then◌else◌, Bool-cases, inl, inr, length,
}
use sakamoto_snort.IpRules.Rule.{PortKind, PortPredicate}
use sakamoto_snort.Netstring.Codec.{is_digit, all_digits}
use sakamoto_snort.Netstring.Decimal.{
  decimal_value-to_decimal, all_digits-to_decimal, to_decimal-nonempty,
}
use sakamoto_snort.Checkpoint.Json.{codes}
use sakamoto_snort.Checkpoint.Masks.{same_bytes}
use sakamoto_snort.Checkpoint.Distinct.{same_bytes-IsEquality}
use sakamoto_snort.Control.Words.{
  is_empty_text, parse_dec, split_at, number_text, parse_port_text, format_port_predicate,
}

pub split_at-digits :
    (c : ℕ) (ds : List ℕ) → is_digit c ≡ false → all_digits ds ≡ true → split_at c ds ≡ none
unfolding split_at
split_at-digits c [] h d = refl
split_at-digits c (x ∷ ds) h d =
    let other : (x == c) ≡ false = ground arith in
    let rest : all_digits ds ≡ true = ground arith in rw (other, split_at-digits c ds h rest) refl

-- What it takes for no `c` to be found.
pub not_found :
    (same : Bool) (o : Option (List ℕ × List ℕ)) (x : ℕ) (ds : List ℕ)
    → if◌then◌else◌ {A = Option (List ℕ × List ℕ)} same
        (some ([], ds))
        (elim o [ none ↦ none | some (before, after) ↦ some (x ∷ before, after) ])
      ≡ none
    → (same ≡ false) × (o ≡ none)
not_found true o x ds h = cc
not_found false none x ds h = (refl, refl)
not_found false (some (a, b)) x ds h = cc

pub split_at-append :
    (c : ℕ) (ds xs : List ℕ) → split_at c ds ≡ none → split_at c (ds ++ c ∷ xs) ≡ some (ds, xs)
unfolding split_at
split_at-append c [] xs h = ground arith
split_at-append c (x ∷ ds) xs h =
    let (other, rest) = not_found (x == c) (split_at c ds) x ds h in
    rw (other, split_at-append c ds xs rest) refl

is_empty_text-length : (ds : List ℕ) → 0 < length ds → is_empty_text ds ≡ false
is_empty_text-length [] h = absurd (omega arith)
is_empty_text-length (x ∷ ds) h = refl

pub is_empty_text-number_text : (n : ℕ) → is_empty_text (number_text n) ≡ false
unfolding number_text
is_empty_text-number_text n =
    is_empty_text-length (number_text n) (to_decimal-nonempty (n + 1) n (omega arith))

pub parse_dec-number_text : (n : ℕ) → n < 2 ^ 32 → parse_dec (number_text n) ≡ some n
unfolding parse_dec number_text
parse_dec-number_text n h =
    let fits : ltb n (2 ^ 32) ≡ true = ground arith in
    rw
      (
        is_empty_text-number_text n,
        all_digits-to_decimal (n + 1) n,
        decimal_value-to_decimal (n + 1) n (omega arith),
        fits,
      )
      refl

pub split_at-number_text : (c n : ℕ) → is_digit c ≡ false → split_at c (number_text n) ≡ none
unfolding number_text
split_at-number_text c n h = split_at-digits c (number_text n) h (all_digits-to_decimal (n + 1) n)

-- A text with a `c`, which `any` lacks, is not `any`.
pub not_any :
    (c : ℕ) (s before after : List ℕ)
    → split_at c s ≡ some (before, after)
    → split_at c (codes "any") ≡ none
    → same_bytes s (codes "any") ≡ false
not_any c s before after h g = elim (Bool-cases (same_bytes s (codes "any"))) [
  | inr other ↦ other
  | inl same ↦
      let e : s ≡ codes "any" = (same_bytes-IsEquality s (codes "any")).0 same in
      absurd (cc (sym h ∙ ap (split_at c) e ∙ g))
]

any-not_number : parse_dec (codes "any") ≡ none
unfolding parse_dec
any-not_number = refl

number_text-not_any : (n : ℕ) → n < 2 ^ 32 → same_bytes (number_text n) (codes "any") ≡ false
number_text-not_any n h = elim (Bool-cases (same_bytes (number_text n) (codes "any"))) [
  | inr other ↦ other
  | inl same ↦
      let e : number_text n ≡ codes "any" =
        (same_bytes-IsEquality (number_text n) (codes "any")).0 same in
      absurd (cc (sym (parse_dec-number_text n h) ∙ ap parse_dec e ∙ any-not_number))
]

any-no_dash : split_at 45 (codes "any") ≡ none
unfolding split_at
any-no_dash = refl

-- The predicates that the source makes.
abbrev pub IsPortText : PortKind → ℕ → ℕ → Type 0
IsPortText PortKind.any lo hi = (lo ≡ 0) × (hi ≡ 0)
IsPortText PortKind.exact lo hi = (lo < 2 ^ 16) × (hi ≡ lo)
IsPortText PortKind.range lo hi = (lo ≤ hi) × (hi < 2 ^ 16)

pub parse_port_text-format :
    (p : PortPredicate)
    → IsPortText p.kind p.lo p.hi
    → parse_port_text (format_port_predicate p) ≡ some p
unfolding parse_port_text format_port_predicate
parse_port_text-format p h = by_kind p.kind p.lo p.hi h
  where
    by_kind :
        (k : PortKind) (lo hi : ℕ)
        → IsPortText k lo hi
        → parse_port_text (format_port_predicate (record { kind = k; lo = lo; hi = hi }))
          ≡ some (record { kind = k; lo = lo; hi = hi })
    by_kind PortKind.any lo hi (low, high) = rw (low, high) refl
    by_kind PortKind.exact lo hi (low, same) =
        let fits : ltb 65535 lo ≡ false = ground arith in
        rw
          (
            number_text-not_any lo (omega arith),
            split_at-number_text 45 lo refl,
            parse_dec-number_text lo (omega arith),
            fits,
            same,
          )
          refl
    by_kind PortKind.range lo hi (ordered, high) =
        let low_fits : ltb 65535 lo ≡ false = ground arith in
        let high_fits : ltb 65535 hi ≡ false = ground arith in
        let in_order : ltb hi lo ≡ false = ground arith in
        let split =
          split_at-append 45 (number_text lo) (number_text hi) (split_at-number_text 45 lo refl) in
        rw
          (
            not_any 45 (number_text lo ++ 45 ∷ number_text hi) (number_text lo) (number_text hi)
                split any-no_dash,
            split,
            is_empty_text-number_text lo,
            is_empty_text-number_text hi,
            parse_dec-number_text lo (omega arith),
            parse_dec-number_text hi (omega arith),
            low_fits,
            high_fits,
            in_order,
          )
          refl

abbrev pub NoBar : List ℕ → Type 0
NoBar s = split_at 124 s ≡ none

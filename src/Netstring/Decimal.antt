-- ===== src/Netstring/Decimal.antt =====
-- Printing a length and reading it back.
use sakamoto_snort.Common.{
  ℕ, zero, suc, ◌+◌, ◌-◌, ◌*◌, ◌/◌, ◌%◌, ◌≤◌, ◌<◌, ◌≡◌, refl, true, false, List, [], ◌∷◌, ◌++◌,
  arith, ltb, Bool-cases, length, inl, inr,
}
use sakamoto_snort.Netstring.Codec.{all_digits, to_decimal, decimal_value, leads_with_zero}

decimal_value-append :
    (acc c : ℕ) (cs : List ℕ)
    → decimal_value acc (cs ++ c ∷ []) ≡ decimal_value acc cs * 10 + (c - 48)
unfolding decimal_value
decimal_value-append acc c [] = refl
decimal_value-append acc c (d ∷ cs) = decimal_value-append (acc * 10 + (d - 48)) c cs

pub decimal_value-to_decimal : (fuel n : ℕ) → n < fuel → decimal_value 0 (to_decimal fuel n) ≡ n
unfolding to_decimal decimal_value
decimal_value-to_decimal zero n h = absurd (omega arith)
decimal_value-to_decimal (suc fuel) n h = elim (Bool-cases (ltb n 10)) [
  | inl small ↦ rw small (omega arith)
  | inr large ↦
      let big : 10 ≤ n = ground arith in
      let step : decimal_value 0 (to_decimal fuel (n / 10)) ≡ n / 10 =
        decimal_value-to_decimal fuel (n / 10) (omega arith) in
      rw (large, decimal_value-append 0 (48 + n % 10) (to_decimal fuel (n / 10)), step)
        (omega arith)
]

all_digits-append :
    (cs ds : List ℕ) → all_digits cs ≡ true → all_digits ds ≡ true → all_digits (cs ++ ds) ≡ true
all_digits-append [] ds h g = g
all_digits-append (c ∷ cs) ds h g = ground (arith, all_digits-append cs ds)

pub all_digits-to_decimal : (fuel n : ℕ) → all_digits (to_decimal fuel n) ≡ true
unfolding to_decimal
all_digits-to_decimal zero n = refl
all_digits-to_decimal (suc fuel) n = elim (Bool-cases (ltb n 10)) [
  | inl small ↦ rw small (ground arith)
  | inr large ↦ rw large (
      all_digits-append (to_decimal fuel (n / 10)) ((48 + n % 10) ∷ [])
        (all_digits-to_decimal fuel (n / 10)) (ground arith))
]

abbrev first_or : List ℕ → ℕ → ℕ
first_or [] d = d
first_or (c ∷ cs) d = c

first_or-append :
    (cs : List ℕ) (c d : ℕ) → 0 < length cs → first_or (cs ++ c ∷ []) d ≡ first_or cs d
first_or-append [] c d h = absurd (omega arith)
first_or-append (x ∷ cs) c d h = refl

length-append_one : (cs : List ℕ) (c : ℕ) → length (cs ++ c ∷ []) ≡ length cs + 1
length-append_one [] c = refl
length-append_one (x ∷ cs) c = omega (arith, length-append_one cs c)

pub to_decimal-nonempty : (fuel n : ℕ) → n < fuel → 0 < length (to_decimal fuel n)
unfolding to_decimal
to_decimal-nonempty zero n h = absurd (omega arith)
to_decimal-nonempty (suc fuel) n h = elim (Bool-cases (ltb n 10)) [
  | inl small ↦ rw small (omega arith)
  | inr large ↦ rw (large, length-append_one (to_decimal fuel (n / 10)) (48 + n % 10)) (omega arith)
]

first-to_decimal : (fuel n : ℕ) → n < fuel → 0 < n → 48 < first_or (to_decimal fuel n) 0
unfolding to_decimal
first-to_decimal zero n h p = absurd (omega arith)
first-to_decimal (suc fuel) n h p = elim (Bool-cases (ltb n 10)) [
  | inl small ↦ rw small (omega arith)
  | inr large ↦
      let big : 10 ≤ n = ground arith in
      rw
        (
          large,
          first_or-append (to_decimal fuel (n / 10)) (48 + n % 10) 0
              (to_decimal-nonempty fuel (n / 10) (omega arith)),
        )
        (first-to_decimal fuel (n / 10) (omega arith) (omega arith))
]

leads_with_zero-first : (cs : List ℕ) → 48 < first_or cs 0 → leads_with_zero cs ≡ false
leads_with_zero-first [] h = refl
leads_with_zero-first (c ∷ []) h = refl
leads_with_zero-first (c ∷ d ∷ cs) h = ground arith

pub leads_with_zero-to_decimal :
    (fuel n : ℕ) → n < fuel → leads_with_zero (to_decimal fuel n) ≡ false
unfolding to_decimal
leads_with_zero-to_decimal fuel zero h = zero_case fuel h
  where
    zero_case : (fuel : ℕ) → 0 < fuel → leads_with_zero (to_decimal fuel 0) ≡ false
    zero_case zero h = absurd (omega arith)
    zero_case (suc fuel) h = refl
leads_with_zero-to_decimal fuel (suc n) h =
    leads_with_zero-first (to_decimal fuel (suc n)) (first-to_decimal fuel (suc n) h (omega arith))

-- ===== src/Control/Addresses.antt =====
-- The texts of CIDRs in the rule commands, under the laws of `inet_ntop` and `inet_pton`.
use sakamoto_snort.Common.{
  ℕ, ◌^◌, ◌≤◌, ◌<◌, ◌≡◌, refl, Bool, true, false, List, ◌∷◌, ◌++◌, Option, some, none, ltb, arith,
  length, bit_and,
}
use sakamoto_snort.IpRules.Rule.{Cidr}
use sakamoto_snort.IpRules.Family.{mask_from_prefix}
use sakamoto_snort.Checkpoint.Json.{codes}
use sakamoto_snort.Checkpoint.Masks.{same_bytes}
use sakamoto_snort.Control.Words.{
  Inet, any_v4, any_v6, is_empty_text, split_at, split_cidr, clear_host_bits, number_text,
  parse_cidr_text_v4, parse_cidr_text_v6, format_cidr_v4, format_cidr_v6,
}
use sakamoto_snort.Control.Texts.{
  split_at-append, not_any, is_empty_text-number_text, parse_dec-number_text,
}

-- A text of an address is not empty and has neither `/` nor `|`.
abbrev pub IsAddressText : List ℕ → Type 0
IsAddressText t = (is_empty_text t ≡ false) × (split_at 47 t ≡ none) × (split_at 124 t ≡ none)

-- What `inet_ntop` prints, `inet_pton` reads back.
pub record InetLaws (net : Inet) : Type 0 where
  pub pton4-ntop4 :
      (a : ℕ)
      → a < 2 ^ 32
      → (t : List ℕ) × (net.ntop4 a ≡ some t) × (net.pton4 t ≡ some a) × IsAddressText t
  pub pton6-ntop6 :
      (a : List ℕ)
      → length a ≡ 16
      → (t : List ℕ) × (net.ntop6 a ≡ some t) × (net.pton6 t ≡ some a) × IsAddressText t

-- The CIDRs that the source makes: without host bits.
abbrev pub IsCidrText4 : Bool → ℕ → ℕ → Type 0
IsCidrText4 true a n = (a ≡ any_v4.addr) × (n ≡ 0)
IsCidrText4 false a n = (a < 2 ^ 32) × (n ≤ 32) × (bit_and a (mask_from_prefix n) ≡ a)

abbrev pub IsCidrText6 : Bool → List ℕ → ℕ → Type 0
IsCidrText6 true a n = (a ≡ any_v6.addr) × (n ≡ 0)
IsCidrText6 false a n = (length a ≡ 16) × (n ≤ 128) × (clear_host_bits n a ≡ a)

any-no_slash : split_at 47 (codes "any") ≡ none
unfolding split_at
any-no_slash = refl

module _ {A : Type 0} (bits : ℕ) (pton : List ℕ → Option A) where
  split_cidr-text :
      (t : List ℕ) (a : A) (n : ℕ)
      → pton t ≡ some a
      → IsAddressText t
      → n ≤ bits
      → bits ≤ 128
      → (same_bytes (t ++ 47 ∷ number_text n) (codes "any") ≡ false)
        × (split_cidr bits pton (t ++ 47 ∷ number_text n) ≡ some (a, n))
  split_cidr-text t a n reads (some_text, no_slash, no_bar) fits small =
      let split = split_at-append 47 t (number_text n) no_slash in
      let in_range : ltb bits n ≡ false = ground arith in
      (
        not_any 47 (t ++ 47 ∷ number_text n) t (number_text n) split any-no_slash,
        rw
            (
              split_cidr,
              split,
              some_text,
              is_empty_text-number_text n,
              parse_dec-number_text n (omega arith),
              in_range,
              reads,
            )
            refl,
      )

module _ (net : Inet) (laws : InetLaws net) where
  pub parse_cidr_text_v4-format :
      (c : Cidr ℕ)
      → IsCidrText4 c.any c.addr c.prefix
      → parse_cidr_text_v4 net (format_cidr_v4 net c) ≡ some c
  unfolding parse_cidr_text_v4 format_cidr_v4
  parse_cidr_text_v4-format c h = by_any c.any c.addr c.prefix h
    where
      by_any :
          (b : Bool) (a n : ℕ)
          → IsCidrText4 b a n
          → parse_cidr_text_v4 net (format_cidr_v4 net (record { any = b; addr = a; prefix = n }))
            ≡ some (record { any = b; addr = a; prefix = n })
      by_any true a n (zero_addr, zero_prefix) = rw (zero_addr, zero_prefix) refl
      by_any false a n (fits, short, masked) =
          let (t, prints, reads, is_text) = laws.pton4-ntop4 a fits in
          let (other, split) =
            split_cidr-text 32 net.pton4 t a n reads is_text short (omega arith) in
          rw (prints, other, split, masked) refl

  pub parse_cidr_text_v6-format :
      (c : Cidr (List ℕ))
      → IsCidrText6 c.any c.addr c.prefix
      → parse_cidr_text_v6 net (format_cidr_v6 net c) ≡ some c
  unfolding parse_cidr_text_v6 format_cidr_v6
  parse_cidr_text_v6-format c h = by_any c.any c.addr c.prefix h
    where
      by_any :
          (b : Bool) (a : List ℕ) (n : ℕ)
          → IsCidrText6 b a n
          → parse_cidr_text_v6 net (format_cidr_v6 net (record { any = b; addr = a; prefix = n }))
            ≡ some (record { any = b; addr = a; prefix = n })
      by_any true a n (zero_addr, zero_prefix) = rw (zero_addr, zero_prefix) refl
      by_any false a n (full, short, masked) =
          let (t, prints, reads, is_text) = laws.pton6-ntop6 a full in
          let (other, split) =
            split_cidr-text 128 net.pton6 t a n reads is_text short (omega arith) in
          rw (prints, other, split, masked) refl

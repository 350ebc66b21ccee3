-- ===== src/IpRules/Family.antt =====
-- What the two copies of the engine, for IPv4 and for IPv6, do differently, as an interface: the
-- address type, its masking and the CIDR test (`CidrV4::matches`, `CidrV6::matches`, `maskIpV6` of
-- src/IpRulesEngine.{hpp,cpp} and `maskFromPrefix` of src/IpRulesContract.hpp). The rest of the
-- engine is written once over it, since the source's two copies agree in everything else.
pub mod Masks
use sakamoto_snort.Common.{
  ℕ, zero, suc, ◌+◌, ◌-◌, ◌*◌, ◌/◌, ◌%◌, ◌^◌, ◌≤◌, bit_and, ◌≡◌, refl, Bool, true, false, not, ◌&&◌,
  List, [], ◌∷◌, arith, if◌then◌else◌, ltb, leb, ◌==◌, length, get_or,
}
use sakamoto_snort.IpRules.Rule.{Cidr, RuleDef, Family}

unfoldable pub mask_from_prefix : ℕ → ℕ
mask_from_prefix p =
    if p == 0 then 0 else if leb 32 p then 0xFFFFFFFF else 0xFFFFFFFF * 2 ^ (32 - p) % 2 ^ 32

unfoldable pub cidr_v4_matches : Cidr ℕ → ℕ → Bool
cidr_v4_matches c ip =
    if c.any
    then true
    else bit_and ip (mask_from_prefix c.prefix) == bit_and c.addr (mask_from_prefix c.prefix)

-- The loop over the whole bytes of a prefix.
unfoldable pub prefix_eq : ℕ → List ℕ → List ℕ → Bool
prefix_eq zero a b = true
prefix_eq (suc n) [] b = true
prefix_eq (suc n) (x ∷ a) [] = true
prefix_eq (suc n) (x ∷ a) (y ∷ b) = (x == y) && prefix_eq n a b

abbrev pub byte_mask : ℕ → ℕ
byte_mask rem_bits = 0xFF * 2 ^ (8 - rem_bits) % 2 ^ 8

unfoldable pub cidr_v6_matches : Cidr (List ℕ) → List ℕ → Bool
unfolding prefix_eq
cidr_v6_matches c ip =
    let full = c.prefix / 8 in
    let rem_bits = c.prefix % 8 in
    if c.any
    then true
    else if c.prefix == 0
    then true
    else if not (prefix_eq full c.addr ip)
    then false
    else if rem_bits == 0
    then true
    else if leb (length c.addr) full
    then true
    else bit_and (get_or c.addr full 0) (byte_mask rem_bits)
      == bit_and (get_or ip full 0) (byte_mask rem_bits)

-- `for (i = n; i < out.size(); ++i) out[i] = 0`
unfoldable pub zero_from : ℕ → List ℕ → List ℕ
zero_from n [] = []
zero_from zero (x ∷ xs) = 0 ∷ zero_from zero xs
zero_from (suc n) (x ∷ xs) = x ∷ zero_from n xs

-- `out[i] &= mask`
unfoldable pub and_at : ℕ → ℕ → List ℕ → List ℕ
and_at i m [] = []
and_at zero m (x ∷ xs) = bit_and x m ∷ xs
and_at (suc i) m (x ∷ xs) = x ∷ and_at i m xs

unfoldable pub mask_ip_v6 : ℕ → List ℕ → List ℕ
unfolding zero_from and_at
mask_ip_v6 prefix ip =
    let full = prefix / 8 in
    let rem_bits = prefix % 8 in
    if prefix == 0
    then zero_from 0 ip
    else if leb 128 prefix
    then ip
    else if not (rem_bits == 0) && ltb full (length ip)
    then and_at full (byte_mask rem_bits) (zero_from (full + 1) ip)
    else zero_from full ip

pub bytes_eq : List ℕ → List ℕ → Bool
bytes_eq [] [] = true
bytes_eq [] (y ∷ ys) = false
bytes_eq (x ∷ xs) [] = false
bytes_eq (x ∷ xs) (y ∷ ys) = (x == y) && bytes_eq xs ys

pub bytes_eq→eq : (xs ys : List ℕ) → bytes_eq xs ys ≡ true → xs ≡ ys
unfolding bytes_eq
bytes_eq→eq [] [] h = refl
bytes_eq→eq [] (y ∷ ys) h = cc
bytes_eq→eq (x ∷ xs) [] h = cc
bytes_eq→eq (x ∷ xs) (y ∷ ys) h = ground (arith, bytes_eq→eq xs ys)

pub bytes_eq_refl : (xs : List ℕ) → bytes_eq xs xs ≡ true
unfolding bytes_eq
bytes_eq_refl [] = refl
bytes_eq_refl (x ∷ xs) = ground (arith, bytes_eq_refl xs)

pub record Ip (A : Type 0) : Type 0 where
  pub family : Family
  pub addr_eq : A → A → Bool
  pub any_addr : A
  pub mask : ℕ → A → A
  pub cidr_matches : Cidr A → A → Bool
  pub src_of : RuleDef → Cidr A
  pub dst_of : RuleDef → Cidr A
  pub is_addr : A → Bool
  pub addr_eq→eq : (a b : A) → addr_eq a b ≡ true → a ≡ b
  pub addr_eq_refl : (a : A) → addr_eq a a ≡ true
  pub cidr_any : (c : Cidr A) (a : A) → c.any ≡ true → cidr_matches c a ≡ true
  pub cidr-mask :
      (c : Cidr A) (a : A)
      → c.any ≡ false
      → c.prefix ≤ 128
      → is_addr c.addr ≡ true
      → is_addr a ≡ true
      → cidr_matches c a ≡ addr_eq (mask c.prefix a) (mask c.prefix c.addr)

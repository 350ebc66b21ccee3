-- ===== src/IpRules/Family/Masks.antt =====
-- The CIDR test of IPv6, a loop over bytes, against equality of the masked addresses, by which the
-- compiled snapshot finds a rule's bucket; and the two instances of the interface.
use sakamoto_snort.Common.{
  ℕ, zero, suc, ◌/◌, ◌%◌, ◌≤◌, ◌<◌, bit_and, ◌≡◌, refl, true, false, ◌&&◌, List, [], ◌∷◌, arith,
  ◌==◌, ==_iff, ==_refl, length, get_or,
}
use sakamoto_snort.IpRules.Rule.{Cidr, ipv4, ipv6}
use sakamoto_snort.IpRules.Family.{
  Ip, byte_mask, mask_from_prefix, cidr_v4_matches, prefix_eq, cidr_v6_matches, zero_from, and_at,
  mask_ip_v6, bytes_eq, bytes_eq→eq, bytes_eq_refl,
}

zeros_eq : (a b : List ℕ) → length a ≡ length b → bytes_eq (zero_from 0 a) (zero_from 0 b) ≡ true
unfolding bytes_eq zero_from
zeros_eq [] [] h = refl
zeros_eq [] (y ∷ b) h = absurd (omega arith)
zeros_eq (x ∷ a) [] h = absurd (omega arith)
zeros_eq (x ∷ a) (y ∷ b) h = ground (arith, zeros_eq a b)

zero_from-eq :
    (f : ℕ) (a b : List ℕ)
    → length a ≡ length b
    → bytes_eq (zero_from f b) (zero_from f a) ≡ prefix_eq f a b
unfolding prefix_eq bytes_eq zero_from
zero_from-eq zero a b h = zeros_eq b a (omega arith)
zero_from-eq (suc f) [] [] h = refl
zero_from-eq (suc f) [] (y ∷ b) h = absurd (omega arith)
zero_from-eq (suc f) (x ∷ a) [] h = absurd (omega arith)
zero_from-eq (suc f) (x ∷ a) (y ∷ b) h = ground (arith, zero_from-eq f a b)

and_at-eq :
    (f m : ℕ) (a b : List ℕ)
    → length a ≡ length b
    → f < length a
    → bytes_eq (and_at f m (zero_from (suc f) b)) (and_at f m (zero_from (suc f) a))
      ≡ prefix_eq f a b && (bit_and (get_or a f 0) m == bit_and (get_or b f 0) m)
unfolding prefix_eq and_at bytes_eq zero_from
and_at-eq f m [] b h lt = absurd (omega arith)
and_at-eq f m (x ∷ a) [] h lt = absurd (omega arith)
and_at-eq zero m (x ∷ a) (y ∷ b) h lt = ground (arith, zeros_eq b a)
and_at-eq (suc f) m (x ∷ a) (y ∷ b) h lt = ground (arith, and_at-eq f m a b)

all_eq :
    (f : ℕ) (a b : List ℕ) → length a ≡ length b → length a ≤ f → prefix_eq f a b ≡ bytes_eq b a
unfolding prefix_eq bytes_eq
all_eq zero [] [] h le = refl
all_eq zero [] (y ∷ b) h le = absurd (omega arith)
all_eq zero (x ∷ a) b h le = absurd (omega arith)
all_eq (suc f) [] [] h le = refl
all_eq (suc f) [] (y ∷ b) h le = absurd (omega arith)
all_eq (suc f) (x ∷ a) [] h le = absurd (omega arith)
all_eq (suc f) (x ∷ a) (y ∷ b) h le = ground (arith, all_eq f a b)

-- The byte loop of `CidrV6::matches` accepts an address exactly when `maskIpV6` maps it and the
-- rule's address to the same bytes, for a prefix of 0 to 128 bits and addresses of 16 bytes.
pub cidr_v6_matches-mask_ip_v6 :
    (c : Cidr (List ℕ)) (ip : List ℕ)
    → c.any ≡ false
    → c.prefix ≤ 128
    → length c.addr ≡ 16
    → length ip ≡ 16
    → cidr_v6_matches c ip ≡ bytes_eq (mask_ip_v6 c.prefix ip) (mask_ip_v6 c.prefix c.addr)
unfolding cidr_v6_matches mask_ip_v6
cidr_v6_matches-mask_ip_v6 c ip any p la lb = ground (
  arith,
  zeros_eq ip c.addr,
  zero_from-eq (c.prefix / 8) c.addr ip,
  and_at-eq (c.prefix / 8) (byte_mask (c.prefix % 8)) c.addr ip,
  all_eq (c.prefix / 8) c.addr ip,
)

pub cidr_v6_any : (c : Cidr (List ℕ)) (ip : List ℕ) → c.any ≡ true → cidr_v6_matches c ip ≡ true
unfolding cidr_v6_matches
cidr_v6_any c ip h = rw h

pub cidr_v4_any : (c : Cidr ℕ) (ip : ℕ) → c.any ≡ true → cidr_v4_matches c ip ≡ true
unfolding cidr_v4_matches
cidr_v4_any c ip h = rw h

-- `CidrV4::matches` compares the masked addresses outright.
pub cidr_v4-mask :
    (c : Cidr ℕ) (ip : ℕ)
    → c.any ≡ false
    → cidr_v4_matches c ip
      ≡ (bit_and ip (mask_from_prefix c.prefix) == bit_and c.addr (mask_from_prefix c.prefix))
unfolding cidr_v4_matches
cidr_v4-mask c ip h = rw h

instance abbrev pub ip_v4 : Ip ℕ
ip_v4 = record {
  family = ipv4;
  addr_eq = ◌==◌;
  any_addr = 0;
  mask = λ p a. bit_and a (mask_from_prefix p);
  cidr_matches = cidr_v4_matches;
  src_of = λ d. d.src;
  dst_of = λ d. d.dst;
  is_addr = λ a. true;
  addr_eq→eq = λ a b. (==_iff a b).0;
  addr_eq_refl = ==_refl;
  cidr_any = cidr_v4_any;
  cidr-mask = λ c a e p i j. cidr_v4-mask c a e;
}

instance abbrev pub ip_v6 : Ip (List ℕ)
ip_v6 = record {
  family = ipv6;
  addr_eq = bytes_eq;
  any_addr = 0 ∷ 0 ∷ 0 ∷ 0 ∷ 0 ∷ 0 ∷ 0 ∷ 0 ∷ 0 ∷ 0 ∷ 0 ∷ 0 ∷ 0 ∷ 0 ∷ 0 ∷ 0 ∷ [];
  mask = mask_ip_v6;
  cidr_matches = cidr_v6_matches;
  src_of = λ d. d.src6;
  dst_of = λ d. d.dst6;
  is_addr = λ a. length a == 16;
  addr_eq→eq = bytes_eq→eq;
  addr_eq_refl = bytes_eq_refl;
  cidr_any = cidr_v6_any;
  cidr-mask =
      λ c a e p i j. cidr_v6_matches-mask_ip_v6 c a e p ((==_iff _ _).0 i) ((==_iff _ _).0 j);
}

-- ===== src/IpRules/Correct/Match.antt =====
-- A rule and the bucket that it is filed in: a packet that the rule matches has the rule's masked
-- key, and rules without port ranges that share a bucket match the same packets.
use sakamoto_snort.Common.{
  ℕ, ◌≤◌, ◌≡◌, refl, Bool, true, false, not, ◌&&◌, ◌||◌, arith, if◌then◌else◌, ◌==◌, ap,
}
use sakamoto_snort.IpRules.Rule.{
  Direction, dir_code, iface_code, proto_code, ct_state_code, ct_dir_code, PortPredicate, is_any,
  is_exact, is_range, port_matches, Cidr, RuleDef, has_range_ports, PacketKey, matches,
}
use sakamoto_snort.IpRules.Family.{Ip}
use sakamoto_snort.IpRules.Signature.{
  MaskSig, MaskedKey, key_eq, dir_value, mask_sig_for_rule, masked_key_from_packet,
  masked_key_from_rule,
}
use sakamoto_snort.IpRules.Table.{rule_matches}
use sakamoto_snort.IpRules.Compile.{RuleState, rule_ref}

dir_field :
    (d : Direction) (v : ℕ)
    → (not ((dir_code d == 1) && not (v == 0)) && not ((dir_code d == 2) && not (v == 1))) ≡ (
        (if not (dir_code d == 0) then v else 0)
        == (if not (dir_code d == 0) then dir_value d else 0))
unfolding dir_value
dir_field Direction.any v = refl
dir_field Direction.inbound v = ground arith
dir_field Direction.outbound v = ground arith

code_field :
    (c v : ℕ)
    → not (not (c == 0) && not (v == c))
      ≡ ((if not (c == 0) then v else 0) == (if not (c == 0) then c else 0))
code_field c v = ground arith

port_field :
    (p : PortPredicate) (v : ℕ)
    → is_range p ≡ false
    → port_matches p v ≡ ((if is_exact p then v else 0) == (if is_exact p then p.lo else 0))
unfolding port_matches
port_field p v h = ground arith

port_field_any :
    (p : PortPredicate) (v : ℕ)
    → port_matches p v ≡ true
    → ((if is_exact p then v else 0) == (if is_exact p then p.lo else 0)) ≡ true
unfolding port_matches
port_field_any p v h = ground arith

abbrev sig_prefix : {A : Type 0} → Cidr A → ℕ
sig_prefix c = if c.any then 255 else c.prefix

module _ {A : Type 0} ⦃ip : Ip A⦄ where
  cidr_field :
      (c : Cidr A) (a : A)
      → c.prefix ≤ 128
      → ip.is_addr c.addr ≡ true
      → ip.is_addr a ≡ true
      → ip.cidr_matches c a
        ≡ ip.addr_eq
            (if sig_prefix c == 255 then ip.any_addr else ip.mask (sig_prefix c) a)
            (if sig_prefix c == 255 then ip.any_addr else ip.mask (sig_prefix c) c.addr)
  cidr_field c a p i j =
      ground (arith, ip.cidr_any c a, ip.cidr-mask c a, ip.addr_eq_refl ip.any_addr)

-- The addresses of a rule: prefixes that `CidrV4` and `CidrV6` allow, and whole addresses.
pub record IsRule {A : Type 0} (ip : Ip A) (d : RuleDef) : Type 0 where
  pub src_prefix : (ip.src_of d).prefix ≤ 128
  pub dst_prefix : (ip.dst_of d).prefix ≤ 128
  pub src_addr : ip.is_addr (ip.src_of d).addr ≡ true
  pub dst_addr : ip.is_addr (ip.dst_of d).addr ≡ true

pub record IsPacket {A : Type 0} (ip : Ip A) (k : PacketKey A) : Type 0 where
  pub src_addr : ip.is_addr k.src_ip ≡ true
  pub dst_addr : ip.is_addr k.dst_ip ≡ true

-- Whether a bucket's exact rules match, from what the bucket is filed under.
unfoldable pub filed_match :
    {A : Type 0} ⦃ip : Ip A⦄ → ℕ → MaskSig → MaskedKey A → PacketKey A → Bool
filed_match uid s mk k =
    (uid == k.uid)
    && (not ((k.ports_available == 0) && (s.sport_exact || s.dport_exact))
        && key_eq (masked_key_from_packet s k) mk)

regroup :
    (d1 d2 i x t c e r : Bool)
    → (d1 && (d2 && (i && (x && (t && (c && (e && r)))))))
      ≡ ((d1 && d2) && (i && (t && (c && (e && (x && r))))))
regroup d1 d2 i x t c e r = ground arith

combine :
    (u d1 d2 : Bool) {p q i x t c e a b f g dd ii xx tt' cc' ee aa bb ff gg : Bool}
    → (d1 && d2) ≡ dd
    → i ≡ ii
    → x ≡ xx
    → t ≡ tt'
    → c ≡ cc'
    → e ≡ ee
    → a ≡ aa
    → b ≡ bb
    → f ≡ ff
    → g ≡ gg
    → p ≡ q
    → (u && (p && (d1 && (d2 && (i && (x && (t && (c && (e && (a && (b && (f && g))))))))))))
      ≡ (u && (q && (dd && (ii && (tt' && (cc' && (ee && (xx && (aa && (bb && (ff && gg)))))))))))
combine u d1 d2 {i} {x} {t} {c} {e} {a} {b} {f} {g} hd hi hx ht hc he ha hb hf hg hp =
    rw (← hd, ← hi, ← hx, ← ht, ← hc, ← he, ← ha, ← hb, ← hf, ← hg, hp)
      (rw (regroup d1 d2 i x t c e (a && (b && (f && g)))))

filed_key :
    (u p d1 d2 i x t c e a b f g dd ii xx tt' cc' ee aa bb ff gg : Bool)
    → (u && (p && (d1 && (d2 && (i && (x && (t && (c && (e && (a && (b && (f && g)))))))))))) ≡ true
    → (d1 && d2) ≡ dd
    → i ≡ ii
    → x ≡ xx
    → t ≡ tt'
    → c ≡ cc'
    → e ≡ ee
    → a ≡ aa
    → b ≡ bb
    → (f ≡ true → ff ≡ true)
    → (g ≡ true → gg ≡ true)
    → (u ≡ true)
      × ((dd && (ii && (tt' && (cc' && (ee && (xx && (aa && (bb && (ff && gg))))))))) ≡ true)
filed_key u p d1 d2 i x t c e a b f g dd ii xx tt' cc' ee aa bb ff gg h hd hi hx ht hc he ha hb hf
      hg =
    ground arith

no_range :
    (p q : PortPredicate)
    → (is_range p || is_range q) ≡ false
    → (not (is_any p) || not (is_any q)) ≡ (is_exact p || is_exact q)
no_range p q h = ground arith

module _ {A : Type 0} ⦃ip : Ip A⦄ (st : RuleState) (k : PacketKey A) (rule : IsRule ip st.def)
    (packet : IsPacket ip k) where
  pub rule_matches-filed :
      has_range_ports st.def ≡ false
      → rule_matches (rule_ref st) k
        ≡ filed_match st.def.uid
            (mask_sig_for_rule ip st.def)
            (masked_key_from_rule (mask_sig_for_rule ip st.def) st.def)
            k
  unfolding matches rule_ref filed_match mask_sig_for_rule masked_key_from_rule
      masked_key_from_packet key_eq
  rule_matches-filed h =
      combine (st.def.uid == k.uid) (not ((dir_code st.def.dir == 1) && not (k.dir == 0)))
        (not ((dir_code st.def.dir == 2) && not (k.dir == 1))) (dir_field st.def.dir k.dir)
        (code_field (iface_code st.def.iface) k.iface_kind) (code_field st.def.ifindex k.ifindex)
        (code_field (proto_code st.def.proto) k.proto)
        (code_field (ct_state_code st.def.ct_state) k.ct_state)
        (code_field (ct_dir_code st.def.ct_dir) k.ct_dir)
        (cidr_field (ip.src_of st.def) k.src_ip rule.src_prefix rule.src_addr packet.src_addr)
        (cidr_field (ip.dst_of st.def) k.dst_ip rule.dst_prefix rule.dst_addr packet.dst_addr)
        (port_field st.def.sport k.src_port (ground arith))
        (port_field st.def.dport k.dst_port (ground arith))
        (ap (λ b. not ((k.ports_available == 0) && b)) (no_range st.def.sport st.def.dport h))

  pub rule_matches-key :
      rule_matches (rule_ref st) k ≡ true
      → ((st.def.uid == k.uid) ≡ true)
        × (key_eq
              (masked_key_from_packet (mask_sig_for_rule ip st.def) k)
              (masked_key_from_rule (mask_sig_for_rule ip st.def) st.def)
            ≡ true)
  unfolding matches rule_ref mask_sig_for_rule masked_key_from_rule masked_key_from_packet key_eq
  rule_matches-key h =
      filed_key (st.def.uid == k.uid)
        (not ((k.ports_available == 0) && (not (is_any st.def.sport) || not (is_any st.def.dport))))
        (not ((dir_code st.def.dir == 1) && not (k.dir == 0)))
        (not ((dir_code st.def.dir == 2) && not (k.dir == 1))) _ _ _ _ _ _ _ _ _ _ _ _ _ _ _ _ _ _ _
        h (dir_field st.def.dir k.dir) (code_field (iface_code st.def.iface) k.iface_kind)
        (code_field st.def.ifindex k.ifindex) (code_field (proto_code st.def.proto) k.proto)
        (code_field (ct_state_code st.def.ct_state) k.ct_state)
        (code_field (ct_dir_code st.def.ct_dir) k.ct_dir)
        (cidr_field (ip.src_of st.def) k.src_ip rule.src_prefix rule.src_addr packet.src_addr)
        (cidr_field (ip.dst_of st.def) k.dst_ip rule.dst_prefix rule.dst_addr packet.dst_addr)
        (port_field_any st.def.sport k.src_port) (port_field_any st.def.dport k.dst_port)

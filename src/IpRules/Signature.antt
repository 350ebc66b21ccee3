-- ===== src/IpRules/Signature.antt =====
-- `MaskSig`, `MaskSigLess`, `MaskedKey` and the functions that compute them from a rule and from a
-- packet (`Snapshot` in src/IpRulesEngine.cpp). The source's V6 copies are these at `A = List ℕ`.
use sakamoto_snort.Common.{ℕ, ◌≡◌, Bool, true, false, not, ◌&&◌, arith, if◌then◌else◌, ltb, ◌==◌}
use sakamoto_snort.IpRules.Rule.{
  Direction, dir_code, iface_code, proto_code, ct_state_code, ct_dir_code, is_exact, RuleDef,
  PacketKey,
}
use sakamoto_snort.IpRules.Family.{Ip}

pub record MaskSig : Type 0 where
  pub dir : Bool
  pub iface : Bool
  pub ifindex : Bool
  pub proto : Bool
  pub ct_state : Bool
  pub ct_dir : Bool
  pub src_prefix : ℕ
  pub dst_prefix : ℕ
  pub sport_exact : Bool
  pub dport_exact : Bool

abbrev pub bool_eq : Bool → Bool → Bool
bool_eq true b = b
bool_eq false b = not b

-- `a < b` on `bool`.
abbrev pub bool_lt : Bool → Bool → Bool
bool_lt a b = not a && b

unfoldable pub sig_eq : MaskSig → MaskSig → Bool
sig_eq a b =
    bool_eq a.dir b.dir
    && (bool_eq a.iface b.iface
        && (bool_eq a.ifindex b.ifindex
            && (bool_eq a.proto b.proto
                && (bool_eq a.ct_state b.ct_state
                    && (bool_eq a.ct_dir b.ct_dir
                        && ((a.src_prefix == b.src_prefix)
                            && ((a.dst_prefix == b.dst_prefix)
                                && (bool_eq a.sport_exact b.sport_exact
                                    && bool_eq a.dport_exact b.dport_exact))))))))

unfoldable pub sig_less : MaskSig → MaskSig → Bool
sig_less a b =
    if not (bool_eq a.dir b.dir)
    then bool_lt a.dir b.dir
    else if not (bool_eq a.iface b.iface)
    then bool_lt a.iface b.iface
    else if not (bool_eq a.ifindex b.ifindex)
    then bool_lt a.ifindex b.ifindex
    else if not (bool_eq a.proto b.proto)
    then bool_lt a.proto b.proto
    else if not (bool_eq a.ct_state b.ct_state)
    then bool_lt a.ct_state b.ct_state
    else if not (bool_eq a.ct_dir b.ct_dir)
    then bool_lt a.ct_dir b.ct_dir
    else if not (a.src_prefix == b.src_prefix)
    then ltb a.src_prefix b.src_prefix
    else if not (a.dst_prefix == b.dst_prefix)
    then ltb a.dst_prefix b.dst_prefix
    else if not (bool_eq a.sport_exact b.sport_exact)
    then bool_lt a.sport_exact b.sport_exact
    else if not (bool_eq a.dport_exact b.dport_exact)
    then bool_lt a.dport_exact b.dport_exact
    else false

pub record MaskedKey (A : Type 0) : Type 0 where
  pub dir : ℕ
  pub iface_kind : ℕ
  pub proto : ℕ
  pub ct_state : ℕ
  pub ct_dir : ℕ
  pub ifindex : ℕ
  pub src_ip_masked : A
  pub dst_ip_masked : A
  pub src_port : ℕ
  pub dst_port : ℕ

-- `IN` is 0 and `OUT` is 1, as in the packet.
unfoldable pub dir_value : Direction → ℕ
dir_value Direction.any = 0
dir_value Direction.inbound = 0
dir_value Direction.outbound = 1

unfoldable pub mask_sig_for_rule : {A : Type 0} → Ip A → RuleDef → MaskSig
mask_sig_for_rule ip r =
    let src = ip.src_of r in
    let dst = ip.dst_of r in
    record {
      dir = not (dir_code r.dir == 0);
      iface = not (iface_code r.iface == 0);
      ifindex = not (r.ifindex == 0);
      proto = not (proto_code r.proto == 0);
      ct_state = not (ct_state_code r.ct_state == 0);
      ct_dir = not (ct_dir_code r.ct_dir == 0);
      src_prefix = if src.any then 255 else src.prefix;
      dst_prefix = if dst.any then 255 else dst.prefix;
      sport_exact = is_exact r.sport;
      dport_exact = is_exact r.dport;
    }

module _ {A : Type 0} ⦃ip : Ip A⦄ where
  unfoldable pub key_eq : MaskedKey A → MaskedKey A → Bool
  key_eq a b =
      (a.dir == b.dir)
      && ((a.iface_kind == b.iface_kind)
          && ((a.proto == b.proto)
              && ((a.ct_state == b.ct_state)
                  && ((a.ct_dir == b.ct_dir)
                      && ((a.ifindex == b.ifindex)
                          && (ip.addr_eq a.src_ip_masked b.src_ip_masked
                              && (ip.addr_eq a.dst_ip_masked b.dst_ip_masked
                                  && ((a.src_port == b.src_port)
                                      && (a.dst_port == b.dst_port)))))))))

  unfoldable pub masked_key_from_packet : MaskSig → PacketKey A → MaskedKey A
  masked_key_from_packet s k = record {
    dir = if s.dir then k.dir else 0;
    iface_kind = if s.iface then k.iface_kind else 0;
    proto = if s.proto then k.proto else 0;
    ct_state = if s.ct_state then k.ct_state else 0;
    ct_dir = if s.ct_dir then k.ct_dir else 0;
    ifindex = if s.ifindex then k.ifindex else 0;
    src_ip_masked = if s.src_prefix == 255 then ip.any_addr else ip.mask s.src_prefix k.src_ip;
    dst_ip_masked = if s.dst_prefix == 255 then ip.any_addr else ip.mask s.dst_prefix k.dst_ip;
    src_port = if s.sport_exact then k.src_port else 0;
    dst_port = if s.dport_exact then k.dst_port else 0;
  }

  unfoldable pub masked_key_from_rule : MaskSig → RuleDef → MaskedKey A
  masked_key_from_rule s r =
      let src = ip.src_of r in
      let dst = ip.dst_of r in
      record {
        dir = if s.dir then dir_value r.dir else 0;
        iface_kind = if s.iface then iface_code r.iface else 0;
        proto = if s.proto then proto_code r.proto else 0;
        ct_state = if s.ct_state then ct_state_code r.ct_state else 0;
        ct_dir = if s.ct_dir then ct_dir_code r.ct_dir else 0;
        ifindex = if s.ifindex then r.ifindex else 0;
        src_ip_masked = if s.src_prefix == 255 then ip.any_addr else ip.mask s.src_prefix src.addr;
        dst_ip_masked = if s.dst_prefix == 255 then ip.any_addr else ip.mask s.dst_prefix dst.addr;
        src_port = if s.sport_exact then r.sport.lo else 0;
        dst_port = if s.dport_exact then r.dport.lo else 0;
      }

  pub key_eq→eq : (a b : MaskedKey A) → key_eq a b ≡ true → a ≡ b
  unfolding key_eq
  key_eq→eq a b h = ground (
    arith,
    ip.addr_eq→eq a.src_ip_masked b.src_ip_masked,
    ip.addr_eq→eq a.dst_ip_masked b.dst_ip_masked,
  )

  pub key_eq_refl : (a : MaskedKey A) → key_eq a a ≡ true
  unfolding key_eq
  key_eq_refl a = ground (arith, ip.addr_eq_refl a.src_ip_masked, ip.addr_eq_refl a.dst_ip_masked)

pub sig_eq→eq : (a b : MaskSig) → sig_eq a b ≡ true → a ≡ b
unfolding sig_eq
sig_eq→eq a b h = ground arith

pub sig_eq_refl : (a : MaskSig) → sig_eq a a ≡ true
unfolding sig_eq
sig_eq_refl a = ground arith

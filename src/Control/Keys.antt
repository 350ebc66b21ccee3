-- ===== src/Control/Keys.antt =====
-- The match keys of the rule commands: they tell apart what the rules match.
use sakamoto_snort.Common.{ℕ, ◌^◌, ◌<◌, ◌≡◌, refl, sym, ap, subst, ◌∙◌, ◌↔◌, List, ◌∷◌, ◌++◌, drop}
use sakamoto_snort.IpRules.Rule.{Family, Cidr, RuleDef}
use sakamoto_snort.Checkpoint.Json.{codes}
use sakamoto_snort.Control.Words.{Inet, number_text, format_port_predicate, parse_port_text}
use sakamoto_snort.Control.Enums.{
  family_str, direction_str, iface_str, proto_str, ct_state_str, ct_dir_str, parse_family,
  parse_direction, parse_iface, parse_ct_state, parse_ct_direction,
}
use sakamoto_snort.Control.Texts.{split_at-number_text, IsPortText, parse_port_text-format}
use sakamoto_snort.Control.Addresses.{InetLaws}
use sakamoto_snort.Control.Fields.{
  IsAddress, same_read, next_field, number_text-injective, format_port_predicate-NoBar,
  address_text-NoBar, address_text-injective,
}
use sakamoto_snort.Control.EnumTexts.{
  family_str-NoBar, direction_str-NoBar, iface_str-NoBar, proto_str-NoBar, ct_state_str-NoBar,
  ct_dir_str-NoBar, parse_family-str, parse_direction-str, parse_iface-str, read_proto,
  read_proto-str, parse_ct_state-str, parse_ct_direction-str,
}
use sakamoto_snort.Control.Apply.{match_key, address_text}

-- The rules that the source makes of texts.
abbrev pub IsMatchText : RuleDef → Type 0
IsMatchText r =
    (r.ifindex < 2 ^ 32)
    × IsAddress r.family r.src r.src6
    × IsAddress r.family r.dst r.dst6
    × IsPortText r.sport.kind r.sport.lo r.sport.hi
    × IsPortText r.dport.kind r.dport.lo r.dport.hi

abbrev pub MatchSame : RuleDef → RuleDef → Type 0
MatchSame r s =
    (r.family ≡ s.family)
    × (r.dir ≡ s.dir)
    × (r.iface ≡ s.iface)
    × (r.ifindex ≡ s.ifindex)
    × (r.proto ≡ s.proto)
    × (r.ct_state ≡ s.ct_state)
    × (r.ct_dir ≡ s.ct_dir)
    × (r.src ≡ s.src)
    × (r.src6 ≡ s.src6)
    × (r.dst ≡ s.dst)
    × (r.dst6 ≡ s.dst6)
    × (r.sport ≡ s.sport)
    × (r.dport ≡ s.dport)

read_family : (f g : Family) → family_str f ≡ family_str g → f ≡ g
read_family f g =
    same_read parse_family f g (family_str f) (family_str g) (parse_family-str f)
      (parse_family-str g)

same_address :
    (net : Inet) (laws : InetLaws net) (f g : Family) (c d : Cidr ℕ) (c6 d6 : Cidr (List ℕ))
    → f ≡ g
    → IsAddress f c c6
    → IsAddress g d d6
    → address_text net f c c6 ≡ address_text net g d d6
    → (c ≡ d) × (c6 ≡ d6)
same_address net laws f g c d c6 d6 e good good' same =
    address_text-injective net laws f c d c6 d6 good (subst (λ k. IsAddress k d d6) (sym e) good')
      (same ∙ ap (λ k. address_text net k d d6) (sym e))

-- The key of a rule from one of its labels on, without the `|` before it.
module _ (net : Inet) where
  abbrev from_dport : RuleDef → List ℕ
  from_dport r = codes "dport=" ++ format_port_predicate r.dport

  abbrev from_sport : RuleDef → List ℕ
  from_sport r = codes "sport=" ++ (format_port_predicate r.sport ++ 124 ∷ from_dport r)

  abbrev from_dst : RuleDef → List ℕ
  from_dst r = codes "dst=" ++ (address_text net r.family r.dst r.dst6 ++ 124 ∷ from_sport r)

  abbrev from_src : RuleDef → List ℕ
  from_src r = codes "src=" ++ (address_text net r.family r.src r.src6 ++ 124 ∷ from_dst r)

  abbrev from_ctdir : RuleDef → List ℕ
  from_ctdir r = codes "ctdir=" ++ (ct_dir_str r.ct_dir ++ 124 ∷ from_src r)

  abbrev from_ctstate : RuleDef → List ℕ
  from_ctstate r = codes "ctstate=" ++ (ct_state_str r.ct_state ++ 124 ∷ from_ctdir r)

  abbrev from_proto : RuleDef → List ℕ
  from_proto r = codes "proto=" ++ (proto_str r.proto ++ 124 ∷ from_ctstate r)

  abbrev from_ifindex : RuleDef → List ℕ
  from_ifindex r = codes "ifindex=" ++ (number_text r.ifindex ++ 124 ∷ from_proto r)

  abbrev from_iface : RuleDef → List ℕ
  from_iface r = codes "iface=" ++ (iface_str r.iface ++ 124 ∷ from_ifindex r)

  abbrev from_dir : RuleDef → List ℕ
  from_dir r = codes "dir=" ++ (direction_str r.dir ++ 124 ∷ from_iface r)

same_key :
    (net : Inet)
    → InetLaws net
    → (r s : RuleDef) → IsMatchText r
    → IsMatchText s
    → match_key net r ≡ match_key net s
    → MatchSame r s
unfolding match_key
same_key net laws r s (low, src, dst, sport, dport) (low', src', dst', sport', dport') h =
    let (family_text, e1) =
      next_field (family_str r.family) (family_str s.family) (from_dir net r) (from_dir net s)
        (family_str-NoBar r.family) (family_str-NoBar s.family) (ap (drop 11) h) in
    let (dir_text, e2) =
      next_field (direction_str r.dir) (direction_str s.dir) (from_iface net r) (from_iface net s)
        (direction_str-NoBar r.dir) (direction_str-NoBar s.dir) (ap (drop 4) e1) in
    let (iface_text, e3) =
      next_field (iface_str r.iface) (iface_str s.iface) (from_ifindex net r) (from_ifindex net s)
        (iface_str-NoBar r.iface) (iface_str-NoBar s.iface) (ap (drop 6) e2) in
    let (ifindex_text, e4) =
      next_field (number_text r.ifindex) (number_text s.ifindex) (from_proto net r)
        (from_proto net s) (split_at-number_text 124 r.ifindex refl)
        (split_at-number_text 124 s.ifindex refl) (ap (drop 8) e3) in
    let (proto_text, e5) =
      next_field (proto_str r.proto) (proto_str s.proto) (from_ctstate net r) (from_ctstate net s)
        (proto_str-NoBar r.proto) (proto_str-NoBar s.proto) (ap (drop 6) e4) in
    let (state_text, e6) =
      next_field (ct_state_str r.ct_state) (ct_state_str s.ct_state) (from_ctdir net r)
        (from_ctdir net s) (ct_state_str-NoBar r.ct_state) (ct_state_str-NoBar s.ct_state)
        (ap (drop 8) e5) in
    let (ct_dir_text, e7) =
      next_field (ct_dir_str r.ct_dir) (ct_dir_str s.ct_dir) (from_src net r) (from_src net s)
        (ct_dir_str-NoBar r.ct_dir) (ct_dir_str-NoBar s.ct_dir) (ap (drop 6) e6) in
    let (src_text, e8) =
      next_field (address_text net r.family r.src r.src6) (address_text net s.family s.src s.src6)
        (from_dst net r) (from_dst net s) (address_text-NoBar net laws r.family r.src r.src6 src)
        (address_text-NoBar net laws s.family s.src s.src6 src') (ap (drop 4) e7) in
    let (dst_text, e9) =
      next_field (address_text net r.family r.dst r.dst6) (address_text net s.family s.dst s.dst6)
        (from_sport net r) (from_sport net s)
        (address_text-NoBar net laws r.family r.dst r.dst6 dst)
        (address_text-NoBar net laws s.family s.dst s.dst6 dst') (ap (drop 4) e8) in
    let (sport_text, e10) =
      next_field (format_port_predicate r.sport) (format_port_predicate s.sport) (from_dport net r)
        (from_dport net s) (format_port_predicate-NoBar r.sport)
        (format_port_predicate-NoBar s.sport) (ap (drop 6) e9) in
    let dport_text = ap (drop 6) e10 in
    let family = read_family r.family s.family family_text in
    let (src_same, src6_same) =
      same_address net laws r.family s.family r.src s.src r.src6 s.src6 family src src' src_text in
    let (dst_same, dst6_same) =
      same_address net laws r.family s.family r.dst s.dst r.dst6 s.dst6 family dst dst' dst_text in
    (
      family,
      same_read parse_direction r.dir s.dir _ _ (parse_direction-str r.dir)
          (parse_direction-str s.dir) dir_text,
      same_read parse_iface r.iface s.iface _ _ (parse_iface-str r.iface) (parse_iface-str s.iface)
          iface_text,
      number_text-injective r.ifindex s.ifindex low low' ifindex_text,
      same_read read_proto r.proto s.proto _ _ (read_proto-str r.proto) (read_proto-str s.proto)
          proto_text,
      same_read parse_ct_state r.ct_state s.ct_state _ _ (parse_ct_state-str r.ct_state)
          (parse_ct_state-str s.ct_state) state_text,
      same_read parse_ct_direction r.ct_dir s.ct_dir _ _ (parse_ct_direction-str r.ct_dir)
          (parse_ct_direction-str s.ct_dir) ct_dir_text,
      src_same,
      src6_same,
      dst_same,
      dst6_same,
      same_read parse_port_text r.sport s.sport _ _ (parse_port_text-format r.sport sport)
          (parse_port_text-format s.sport sport') sport_text,
      same_read parse_port_text r.dport s.dport _ _ (parse_port_text-format r.dport dport)
          (parse_port_text-format s.dport dport') dport_text,
    )

-- Under the laws of `inet_ntop` and `inet_pton`, two rules as the source makes them of texts have the
-- same match key exactly when they agree in every field that decides what they match.
pub match_key-MatchSame :
    (net : Inet)
    → InetLaws net
    → (r s : RuleDef) → IsMatchText r
    → IsMatchText s
    → (match_key net r ≡ match_key net s) ↔ MatchSame r s
unfolding match_key
match_key-MatchSame net laws r s h g = (
  same_key net laws r s h g,
  λ same.
      let (family, dir, iface, ifindex, proto, state, ct_dir, src, src6, dst, dst6, sport, dport) =
        same in
      rw
        (
          match_key, family, dir, iface, ifindex, proto, state, ct_dir, src, src6, dst, dst6, sport,
          dport,
        )
        refl,
)

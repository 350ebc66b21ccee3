-- ===== src/IpRules/Cache.antt =====
-- The decision cache of `HotSnapshot::evaluate` (src/IpRulesEngine.cpp), one for each thread: it
-- answers as the snapshot does. `hash` is `hashPacketKey` and `A` the addresses of the family; the
-- cache of IPv4 has 1024 entries and that of IPv6 512. A null snapshot is `none`.
use sakamoto_snort.Common.{
  ℕ, ◌%◌, ◌≡◌, ◌≢◌, refl, sym, ap, ◌∙◌, Bool, true, false, ◌&&◌, Option, none, some, ◌==◌,
  if◌then◌else◌, Bool-cases, inl, inr, arith,
}
use sakamoto_snort.IpRules.Rule.{PacketKey}
use sakamoto_snort.IpRules.Table.{nomatch, DecisionData}

-- A snapshot as its reader sees it.
pub record HotSnapshot (A : Type 0) : Type 0 where
  pub rules_epoch : ℕ
  pub decide : PacketKey A → DecisionData

pub record CacheEntry (A : Type 0) : Type 0 where
  pub epoch : ℕ
  pub key : PacketKey A
  pub found : DecisionData

pub record Cache (A : Type 0) : Type 0 where
  pub owner_instance_id : ℕ
  pub entries : ℕ → CacheEntry A

-- `PacketKeyV4::operator==` and `PacketKeyV6::operator==`
unfoldable pub packet_key_eq : {A : Type 0} → (A → A → Bool) → PacketKey A → PacketKey A → Bool
packet_key_eq eq k j =
    (k.uid == j.uid)
    && (k.dir == j.dir)
    && (k.iface_kind == j.iface_kind)
    && (k.proto == j.proto)
    && (k.ifindex == j.ifindex)
    && eq k.src_ip j.src_ip
    && eq k.dst_ip j.dst_ip
    && (k.src_port == j.src_port)
    && (k.dst_port == j.dst_port)
    && (k.ports_available == j.ports_available)
    && (k.ct_state == j.ct_state)
    && (k.ct_dir == j.ct_dir)

abbrev pub no_decision : DecisionData
no_decision = record { kind = nomatch; rule_id = 0; stats = 0 }

module _ {A : Type 0} (eq : A → A → Bool) (hash : PacketKey A → ℕ) (size : ℕ) where
  abbrev store : ℕ → CacheEntry A → Cache A → Cache A
  store i e c = record c { entries = λ j. if j == i then e else c.entries j }

  -- The entries of another engine's instance are forgotten.
  unfoldable pub claim_cache : ℕ → Cache A → Cache A
  claim_cache instance_id c = if c.owner_instance_id == instance_id then c else record {
    owner_instance_id = instance_id;
    entries = λ i. record (c.entries i) { epoch = 0 };
  }

  unfoldable pub hot_evaluate :
      ℕ → Option (HotSnapshot A) → PacketKey A → Cache A → DecisionData × Cache A
  unfolding claim_cache
  hot_evaluate instance_id none k c = (no_decision, c)
  hot_evaluate instance_id (some snap) k c =
      let mine = claim_cache instance_id c in
      let i = hash k % size in
      let e = mine.entries i in
      if (e.epoch == snap.rules_epoch) && packet_key_eq eq e.key k then (e.found, mine) else (
        snap.decide k,
        store i (record { epoch = snap.rules_epoch; key = k; found = snap.decide k }) mine,
      )

  -- What the instance has cached of a snapshot's epoch is what the snapshot decides.
  abbrev pub IsFaithful : ℕ → HotSnapshot A → Cache A → Type 0
  IsFaithful instance_id snap c =
      c.owner_instance_id ≡ instance_id
      → (i : ℕ) → (c.entries i).epoch ≡ snap.rules_epoch
      → (c.entries i).found ≡ snap.decide (c.entries i).key

  module _ (sound : (a b : A) → eq a b ≡ true → a ≡ b) where
    packet_key_eq-same : (k j : PacketKey A) → packet_key_eq eq k j ≡ true → k ≡ j
    unfolding packet_key_eq
    packet_key_eq-same k j h = ground (arith, sound k.src_ip j.src_ip, sound k.dst_ip j.dst_ip)

    -- Every entry of the snapshot's epoch is what the snapshot decides.
    abbrev Agrees : HotSnapshot A → Cache A → Type 0
    Agrees snap c =
        (i : ℕ)
        → (c.entries i).epoch ≡ snap.rules_epoch
        → (c.entries i).found ≡ snap.decide (c.entries i).key

    claimed-Agrees :
        (mine : Bool) (instance_id : ℕ) (snap : HotSnapshot A) (c : Cache A)
        → snap.rules_epoch ≢ 0
        → (mine ≡ true → Agrees snap c)
        → Agrees snap (
            if mine then c else record {
              owner_instance_id = instance_id;
              entries = λ i. record (c.entries i) { epoch = 0 };
            })
    claimed-Agrees true instance_id snap c nz h i e = h refl i e
    claimed-Agrees false instance_id snap c nz h i e = absurd (nz (sym e))

    claim_cache-Agrees :
        (instance_id : ℕ) (snap : HotSnapshot A) (c : Cache A)
        → snap.rules_epoch ≢ 0
        → IsFaithful instance_id snap c
        → Agrees snap (claim_cache instance_id c)
    unfolding claim_cache
    claim_cache-Agrees instance_id snap c nz h =
        claimed-Agrees (c.owner_instance_id == instance_id) instance_id snap c nz
          (λ mine. h (ground (arith, mine)))

    stored-Agrees :
        (i : ℕ) (k : PacketKey A) (snap : HotSnapshot A) (c : Cache A)
        → Agrees snap c
        → Agrees snap
            (store i (record { epoch = snap.rules_epoch; key = k; found = snap.decide k }) c)
    stored-Agrees i k snap c h j e = elim (Bool-cases (j == i)) [
      | inl same ↦ rw same refl
      | inr other ↦ rw other (h j (rw other at e))
    ]

    looked-Agrees :
        (hit : Bool) (i : ℕ) (k : PacketKey A) (snap : HotSnapshot A) (c : Cache A)
        → Agrees snap c
        → (hit ≡ true → ((c.entries i).epoch ≡ snap.rules_epoch) × ((c.entries i).key ≡ k))
        → (let out : DecisionData × Cache A = if hit then ((c.entries i).found, c) else (
          snap.decide k,
          store i (record { epoch = snap.rules_epoch; key = k; found = snap.decide k }) c,
        ) in
            (out.0 ≡ snap.decide k) × Agrees snap out.1)
    looked-Agrees true i k snap c h at = let (e, same) = at refl in (h i e ∙ ap snap.decide same, h)
    looked-Agrees false i k snap c h at = (refl, stored-Agrees i k snap c h)

    -- When what the instance has cached of the snapshot's epoch, which is not 0, is what the snapshot
    -- decides, the cached evaluation decides as the snapshot does, whether the entry is there, is
    -- another packet's, is of another epoch or of another engine, and the cache stays so.
    pub hot_evaluate-decide :
        (instance_id : ℕ) (snap : HotSnapshot A) (k : PacketKey A) (c : Cache A)
        → snap.rules_epoch ≢ 0
        → IsFaithful instance_id snap c
        → ((hot_evaluate instance_id (some snap) k c).0 ≡ snap.decide k)
          × IsFaithful instance_id snap (hot_evaluate instance_id (some snap) k c).1
    unfolding hot_evaluate
    hot_evaluate-decide instance_id snap k c nz h =
        let mine = claim_cache instance_id c in
        let i = hash k % size in
        let (decides, agrees) =
          looked-Agrees
            (((mine.entries i).epoch == snap.rules_epoch)
              && packet_key_eq eq (mine.entries i).key k)
            i k snap mine (claim_cache-Agrees instance_id snap c nz h)
            (λ hit. (
              ground (arith, hit),
              packet_key_eq-same (mine.entries i).key k (ground (arith, hit)),
            )) in
        (decides, λ owned. agrees)

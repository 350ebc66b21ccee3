-- ===== src/Ipv6/Sound.antt =====
-- The walker terminates within its budget, reads nothing past the payload's end, and what it
-- returns is consistent.
use sakamoto_snort.Common.{
  ℕ, zero, suc, ◌+◌, ◌-◌, ◌*◌, ◌/◌, ◌≤◌, ◌<◌, ◌≡◌, refl, ◌⊎◌, inl, inr, Bool, true, false, not,
  ◌||◌, List, [], ◌∷◌, Option, none, some, arith, ltb, ◌==◌, if◌then◌else◌, length, get_elem?,
}
use sakamoto_snort.Ipv6.Walker.{
  L4Status, known_l4, other_terminal, fragment, Parsed, Walk, Round, returns, continues, clamp_len,
  invalid_at, portless, with_ports, read, read16, tcp_round, udp_round, icmpv6_round,
  fragment_round, skip_round, budget_ok, round, walk, walk_start, parse_ipv6_l4,
}

-- What the caller may rely on, for a payload of the length.
pub record IsSound (len : ℕ) (p : Parsed) : Type 0 where
  pub ports :
      ((p.ports_available ≡ 0) × (p.src_port ≡ 0) × (p.dst_port ≡ 0))
      ⊎ ((p.ports_available ≡ 1) × (p.status ≡ known_l4) × ((p.proto ≡ 6) ⊎ (p.proto ≡ 17)))
  pub place : (p.l4p ≡ none) ⊎ ((o : ℕ) × (p.l4p ≡ some o) × (o + p.l4_len ≤ len) × (o ≤ 256))
  pub len_fits : p.l4_len ≤ 0xFFFF
  pub known : p.status ≡ known_l4 → (o : ℕ) × (p.l4p ≡ some o) × (o + 8 ≤ len)

abbrev pub IsWalk : List ℕ → Walk → Type 0
IsWalk bytes w = (w.cur + w.rem ≡ length bytes) × (w.walked ≡ w.cur)

-- A round returns something sound, or goes on with one header more, within the budget.
abbrev pub IsRound : List ℕ → Walk → Option Round → Type 0
IsRound bytes w o =
    ((p : Parsed) × (o ≡ some (returns p)) × IsSound (length bytes) p)
    ⊎ ((w' : Walk) × (o ≡ some (continues w'))
        × IsWalk bytes w'
        × (w'.hdrs ≡ suc w.hdrs)
        × (w.hdrs ≤ 8))

get_elem?-total :
    (bytes : List ℕ) (i : ℕ) → i < length bytes → (b : ℕ) × (get_elem? bytes i ≡ some b)
get_elem?-total [] i h = absurd (omega arith)
get_elem?-total (b ∷ bytes) zero h = (b, refl)
get_elem?-total (b ∷ bytes) (suc i) h = get_elem?-total bytes i (omega arith)

invalid-IsSound : (len proto : ℕ) → IsSound len (invalid_at proto)
invalid-IsSound len proto = record {
  ports = inl (refl, refl, refl);
  place = inl refl;
  len_fits = omega arith;
  known = λ e. absurd cc;
}

clamp_len-le : (rem : ℕ) → (clamp_len rem ≤ rem) × (clamp_len rem ≤ 0xFFFF)
clamp_len-le rem = ground arith

portless-IsSound :
    (len : ℕ) (status : L4Status) (proto cur rem : ℕ)
    → cur + rem ≤ len
    → cur ≤ 256
    → (status ≡ known_l4 → 8 ≤ rem)
    → IsSound len (portless status proto (some cur) rem)
portless-IsSound len status proto cur rem fits near big = record {
  ports = inl (refl, refl, refl);
  place = inr (cur, refl, le, near);
  len_fits = (clamp_len-le rem).1;
  known = λ e. (cur, refl, at e);
}
  where
    le : cur + clamp_len rem ≤ len
    le = let h : clamp_len rem ≤ rem = (clamp_len-le rem).0 in omega arith

    at : status ≡ known_l4 → cur + 8 ≤ len
    at e = let h : 8 ≤ rem = big e in omega arith

with_ports-IsSound :
    (len proto src dst : ℕ) (w : Walk)
    → w.cur + w.rem ≤ len
    → w.cur ≤ 256
    → 8 ≤ w.rem
    → (proto ≡ 6) ⊎ (proto ≡ 17)
    → IsSound len (with_ports proto src dst w)
with_ports-IsSound len proto src dst w fits near big which = record {
  ports = inr (refl, refl, which);
  place = inr (w.cur, refl, le, near);
  len_fits = (clamp_len-le w.rem).1;
  known = λ e. (w.cur, refl, omega arith);
}
  where
    le : w.cur + clamp_len w.rem ≤ len
    le = let h : clamp_len w.rem ≤ w.rem = (clamp_len-le w.rem).0 in omega arith

module _ (bytes : List ℕ) (w : Walk) where
  -- A read inside the payload goes on.
  read-IsRound :
      (i : ℕ) (f : ℕ → Option Round)
      → i < length bytes
      → ((b : ℕ) → IsRound bytes w (f b))
      → IsRound bytes w (read bytes i f)
  read-IsRound i f h k = let (b, e) = get_elem?-total bytes i h in rw (e, read) (k b)

  invalid-IsRound : (proto : ℕ) → IsRound bytes w (some (returns (invalid_at proto)))
  invalid-IsRound proto = inl (invalid_at proto, refl, invalid-IsSound (length bytes) proto)

  if-IsRound :
      (b : Bool) (x y : Option Round)
      → (b ≡ true → IsRound bytes w x)
      → (b ≡ false → IsRound bytes w y)
      → IsRound bytes w (if b then x else y)
  if-IsRound true x y f g = f refl
  if-IsRound false x y f g = g refl

  ports-IsRound :
      (proto : ℕ)
      → IsWalk bytes w
      → w.cur ≤ 256
      → 8 ≤ w.rem
      → (proto ≡ 6) ⊎ (proto ≡ 17)
      → IsRound bytes w (
          read16 bytes w.cur
            (λ src. read16 bytes (w.cur + 2) (λ dst. some (returns (with_ports proto src dst w)))))
  ports-IsRound proto ok near big which = read-IsRound w.cur _ (omega arith) (λ a.
      read-IsRound (w.cur + 1) _ (omega arith) (λ b. read-IsRound (w.cur + 2) _ (omega arith) (λ c.
        read-IsRound (w.cur + 2 + 1) _ (omega arith) (λ d. inl (
          with_ports proto (a * 256 + b) (c * 256 + d) w,
          refl,
          with_ports-IsSound (length bytes) proto (a * 256 + b) (c * 256 + d) w (omega arith) near
              big which,
        )))))

  tcp-IsRound : IsWalk bytes w → w.cur ≤ 256 → IsRound bytes w (tcp_round bytes w)
  unfolding tcp_round
  tcp-IsRound ok near =
      if-IsRound (ltb w.rem 20) _ _ (λ _. invalid-IsRound 6)
        (λ big. read-IsRound (w.cur + 12) _ (ground arith) (λ b12.
          if-IsRound (ltb (b12 / 16) 5 || ltb w.rem (b12 / 16 * 4)) _ _ (λ _. invalid-IsRound 6)
            (λ _. ports-IsRound 6 ok near (ground arith) (inl refl))))

  udp-IsRound : IsWalk bytes w → w.cur ≤ 256 → IsRound bytes w (udp_round bytes w)
  unfolding udp_round
  udp-IsRound ok near =
      if-IsRound (ltb w.rem 8) _ _ (λ _. invalid-IsRound 17)
        (λ big. ports-IsRound 17 ok near (ground arith) (inr refl))

  icmpv6-IsRound : IsWalk bytes w → w.cur ≤ 256 → IsRound bytes w (icmpv6_round w)
  unfolding icmpv6_round
  icmpv6-IsRound ok near =
      if-IsRound (ltb w.rem 8) _ _ (λ _. invalid-IsRound 58)
        (λ big. inl (
          portless known_l4 58 (some w.cur) w.rem,
          refl,
          portless-IsSound (length bytes) known_l4 58 w.cur w.rem (omega arith) near
              (λ _. ground arith),
        ))

  fragment-IsRound : IsWalk bytes w → w.cur ≤ 256 → IsRound bytes w (fragment_round bytes w)
  unfolding fragment_round
  fragment-IsRound ok near =
      if-IsRound (ltb w.rem 8) _ _ (λ _. invalid-IsRound 44)
        (λ big. read-IsRound w.cur _ (ground arith) (λ nxt. inl (
          portless fragment nxt (some w.cur) w.rem,
          refl,
          portless-IsSound (length bytes) fragment nxt w.cur w.rem (omega arith) near
              (λ e. absurd cc),
        )))

  skip-IsRound :
      (extra unit : ℕ)
      → IsWalk bytes w
      → w.hdrs ≤ 8
      → IsRound bytes w (skip_round extra unit bytes w)
  unfolding skip_round
  skip-IsRound extra unit ok few =
      if-IsRound (ltb w.rem 2) _ _ (λ _. invalid-IsRound w.next)
        (λ big. read-IsRound w.cur _ (ground arith) (λ nxt.
          read-IsRound (w.cur + 1) _ (ground arith) (λ len.
            if-IsRound (ltb w.rem ((len + extra) * unit)) _ _ (λ _. invalid-IsRound nxt)
              (λ fits. inr (_, refl, advance ((len + extra) * unit) fits, refl, few)))))
    where
      advance :
          (n : ℕ)
          → ltb w.rem n ≡ false
          → (w.cur + n + (w.rem - n) ≡ length bytes) × (w.walked + n ≡ w.cur + n)
      advance n fits = (ground arith, omega arith)

  round-IsRound : IsWalk bytes w → IsRound bytes w (round bytes w)
  unfolding round
  round-IsRound ok =
      if-IsRound (not (budget_ok w)) _ _ (λ _. invalid-IsRound w.next)
        (λ budget.
          let few : w.hdrs ≤ 8 = ground arith in
          let near : w.cur ≤ 256 = ground arith in
          if-IsRound (w.next == 6) _ _ (λ _. tcp-IsRound ok near)
            (λ _.
              if-IsRound (w.next == 17) _ _ (λ _. udp-IsRound ok near)
                (λ _.
                  if-IsRound (w.next == 58) _ _ (λ _. icmpv6-IsRound ok near)
                    (λ _.
                      if-IsRound (w.next == 59) _ _
                        (λ _. inl (portless other_terminal 59 none w.rem, refl, none_next))
                        (λ _.
                          if-IsRound (w.next == 44) _ _ (λ _. fragment-IsRound ok near)
                            (λ _.
                              if-IsRound ((w.next == 0) || ((w.next == 43) || (w.next == 60))) _ _
                                (λ _. skip-IsRound 1 8 ok few)
                                (λ _.
                                  if-IsRound (w.next == 51) _ _ (λ _. skip-IsRound 2 4 ok few)
                                    (λ _. inl (
                                      portless other_terminal w.next (some w.cur) w.rem,
                                      refl,
                                      portless-IsSound (length bytes) other_terminal w.next w.cur
                                          w.rem (omega arith) near (λ e. absurd cc),
                                    )))))))))
    where
      none_next : IsSound (length bytes) (portless other_terminal 59 none w.rem)
      none_next = record {
        ports = inl (refl, refl, refl);
        place = inl refl;
        len_fits = (clamp_len-le w.rem).1;
        known = λ e. absurd cc;
      }

walk-IsSound :
    (fuel : ℕ) (bytes : List ℕ) (w : Walk)
    → IsWalk bytes w
    → w.hdrs ≤ 9
    → 10 ≤ fuel + w.hdrs
    → (p : Parsed) × (walk fuel bytes w ≡ some p) × IsSound (length bytes) p
unfolding walk
walk-IsSound zero bytes w ok few enough = absurd (omega arith)
walk-IsSound (suc fuel) bytes w ok few enough = elim (round-IsRound bytes w ok) [
  | inl (p, e, sound) ↦ rw (e, walk) (p, refl, sound)
  | inr (w', e, ok', more, left) ↦
      rw (e, walk) (walk-IsSound fuel bytes w' ok' (omega arith) (omega arith))
]

-- For every first protocol number and payload, the walker returns without a read past the
-- payload's end, and its result is sound: ports are set only for a known TCP or UDP header, the
-- offset and length that it returns lie within the payload and within the budget of 256 bytes,
-- and a known header has its eight bytes in the payload.
pub parse_ipv6_l4-IsSound :
    (initial_next : ℕ) (payload : List ℕ)
    → (p : Parsed) × (parse_ipv6_l4 initial_next payload ≡ some p) × IsSound (length payload) p
unfolding parse_ipv6_l4
parse_ipv6_l4-IsSound initial_next payload =
    walk-IsSound 10 payload (walk_start initial_next payload) (omega arith, refl) (omega arith)
      (omega arith)

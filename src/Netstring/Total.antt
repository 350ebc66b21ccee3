-- ===== src/Netstring/Total.antt =====
-- The decoder ends on every input.
use sakamoto_snort.Common.{
  ℕ, zero, suc, ◌+◌, ◌≤◌, ◌<◌, ◌≡◌, refl, ◌⊎◌, List, [], ◌∷◌, ◌++◌, Option, none, some, arith, ltb,
  ◌==◌, Bool-cases, Option-cases, inl, inr, length, get_elem?, drop,
}
use sakamoto_snort.Netstring.Codec.{
  NetstringError, Decoder, Header, returns, declares, Round, stops, continues, is_empty,
  read_header, read_body, round, parse_available, feed,
}

length-drop : (n : ℕ) (xs : List ℕ) → n ≤ length xs → length (drop n xs) + n ≡ length xs
length-drop zero xs h = omega arith
length-drop (suc n) [] h = absurd (omega arith)
length-drop (suc n) (x ∷ xs) h =
    let rest : length (drop n xs) + n ≡ length xs = length-drop n xs (omega arith) in omega arith

-- A round stops, or leaves less in the buffer.
abbrev IsProgress : Decoder → Round → Type 0
IsProgress d r =
    ((e : Option NetstringError) × (d' : Decoder) × (r ≡ stops e d'))
    ⊎ ((d' : Decoder) × (r ≡ continues d') × (length d'.buffer < length d.buffer))

read_body-IsProgress : (d : Decoder) (len header : ℕ) → IsProgress d (read_body d len header)
unfolding read_body
read_body-IsProgress d len header = elim (Bool-cases (ltb (length d.buffer) (header + len + 1))) [
  | inl short ↦ rw short (inl (_, _, refl))
  | inr enough ↦ elim (Option-cases (get_elem? d.buffer (header + len))) [
    | inl nil ↦ rw (enough, nil, read_body) (inl (_, _, refl))
    | inr (c, e) ↦ elim (Bool-cases (c == 44)) [
      | inr other ↦ rw (enough, e, read_body, other) (inl (_, _, refl))
      | inl comma ↦
          let shorter : length (drop (header + len + 1) d.buffer) + (header + len + 1)
              ≡ length d.buffer =
            length-drop (header + len + 1) d.buffer (ground arith) in
          rw (enough, e, read_body, comma) (inr (_, refl, omega arith))
    ]
  ]
]

round-cases :
    (d : Decoder) (o : Option ℕ) (h : Header)
    → IsProgress d (elim o [
      | some len ↦ read_body d len d.header_bytes
      | none ↦ elim h [ returns e ↦ stops e d | declares len header ↦ read_body d len header ]
    ])
round-cases d (some len) h = read_body-IsProgress d len d.header_bytes
round-cases d none (returns e) = inl (e, d, refl)
round-cases d none (declares len header) = read_body-IsProgress d len header

parse_available-total :
    (fuel : ℕ) (d : Decoder)
    → length d.buffer < fuel
    → (r : Option NetstringError × Decoder) × (parse_available fuel d ≡ some r)
unfolding parse_available round
parse_available-total zero d h = absurd (omega arith)
parse_available-total (suc fuel) d h = elim (round-cases d d.expected_len (read_header d)) [
  | inl (e, d', is) ↦ ((e, d'), rw (is, parse_available) refl)
  | inr (d', is, less) ↦
      let (r, done) = parse_available-total fuel d' (omega arith) in
      (r, rw (is, parse_available) done)
]

-- Whatever bytes a decoder is fed, in whatever state, it returns: the fuel is enough, since every
-- round that goes on takes a frame, which is a byte at least, off the buffer.
pub feed-total :
    (bytes : List ℕ) (d : Decoder) → (r : Option NetstringError × Decoder) × (feed bytes d ≡ some r)
unfolding feed
feed-total bytes d = elim (Bool-cases (is_empty bytes)) [
  | inl e ↦ rw e ((none, d), refl)
  | inr e ↦ rw e (
      parse_available-total (length (d.buffer ++ bytes) + 1)
        (record d { buffer = d.buffer ++ bytes }) (omega arith))
]

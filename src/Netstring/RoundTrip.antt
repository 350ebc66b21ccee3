-- ===== src/Netstring/RoundTrip.antt =====
-- The decoder gives back what the encoder framed, and ends on every input.
use sakamoto_snort.Common.{
  ℕ, zero, suc, ◌+◌, ◌≤◌, ◌<◌, ◌≡◌, refl, ap, ◌∙◌, true, false, List, [], ◌∷◌, ◌++◌, Option, none,
  some, arith, ltb, ◌==◌, if◌then◌else◌, length, length-append, get_elem?, take, drop, All,
}
use sakamoto_snort.Netstring.Codec.{
  NetstringError, Decoder, returns, declares, stops, continues, all_digits, to_decimal, max_size,
  leads_with_zero, find_colon, is_empty, partial_header, full_header, read_header, read_body, round,
  parse_available, feed, encode_netstring, new_decoder,
}
use sakamoto_snort.Netstring.Decimal.{
  decimal_value-to_decimal, all_digits-to_decimal, to_decimal-nonempty, leads_with_zero-to_decimal,
}

append_assoc : (xs ys zs : List ℕ) → (xs ++ ys) ++ zs ≡ xs ++ (ys ++ zs)
append_assoc [] ys zs = refl
append_assoc (x ∷ xs) ys zs = ap (λ l. x ∷ l) (append_assoc xs ys zs)

take-prefix : (xs ys : List ℕ) → take (length xs) (xs ++ ys) ≡ xs
take-prefix [] ys = refl
take-prefix (x ∷ xs) ys = ap (λ l. x ∷ l) (take-prefix xs ys)

drop-prefix : (xs ys : List ℕ) (n : ℕ) → drop (length xs + n) (xs ++ ys) ≡ drop n ys
drop-prefix [] ys n = let same : 0 + n ≡ n = omega arith in rw same refl
drop-prefix (x ∷ xs) ys n =
    let same : suc (length xs) + n ≡ suc (length xs + n) = omega arith in
    rw same (drop-prefix xs ys n)

get_elem?-prefix : (xs ys : List ℕ) (n : ℕ) → get_elem? (xs ++ ys) (length xs + n) ≡ get_elem? ys n
get_elem?-prefix [] ys n = let same : 0 + n ≡ n = omega arith in rw same refl
get_elem?-prefix (x ∷ xs) ys n =
    let same : suc (length xs) + n ≡ suc (length xs + n) = omega arith in
    rw same (get_elem?-prefix xs ys n)

find_colon-digits :
    (ds xs : List ℕ) → all_digits ds ≡ true → find_colon (ds ++ 58 ∷ xs) ≡ some (length ds)
unfolding find_colon
find_colon-digits [] xs h = refl
find_colon-digits (c ∷ ds) xs h =
    let no_colon : (c == 58) ≡ false = ground arith in
    let rest : all_digits ds ≡ true = ground arith in
    rw (no_colon, find_colon-digits ds xs rest) refl

not_empty : (ds xs : List ℕ) → 0 < length ds → is_empty (ds ++ xs) ≡ false
not_empty [] xs h = absurd (omega arith)
not_empty (c ∷ ds) xs h = refl

-- The digits of a payload's length.
abbrev digits : List ℕ → List ℕ
digits p = to_decimal (length p + 1) (length p)

encode_netstring-append :
    (p rest : List ℕ) → encode_netstring p ++ rest ≡ digits p ++ 58 ∷ (p ++ (44 ∷ rest))
unfolding encode_netstring
encode_netstring-append p rest =
    append_assoc (digits p) (58 ∷ (p ++ (44 ∷ []))) rest
    ∙ ap (λ l. digits p ++ (58 ∷ l)) (append_assoc p (44 ∷ []) rest)

module _ (d : Decoder) (p rest : List ℕ) (is : d.buffer ≡ digits p ++ 58 ∷ (p ++ (44 ∷ rest)))
    (fits : length p ≤ d.max_frame_bytes) (small : d.max_frame_bytes ≤ max_size) where
  some_digits : 0 < length (digits p)
  some_digits = to_decimal-nonempty (length p + 1) (length p) (omega arith)

  full_header-framed :
      full_header d (length (digits p)) ≡ declares (length p) (length (digits p) + 1)
  unfolding full_header
  full_header-framed =
      let some_length : (length (digits p) == 0) ≡ false =
        let h : 0 < length (digits p) = some_digits in ground arith in
      let no_zero : leads_with_zero (digits p) ≡ false =
        leads_with_zero-to_decimal (length p + 1) (length p) (omega arith) in
      let small_length : ltb max_size (length p) ≡ false = ground arith in
      let within : ltb d.max_frame_bytes (length p) ≡ false = ground arith in
      rw
        (
          is,
          take-prefix (digits p) (58 ∷ (p ++ (44 ∷ rest))),
          some_length,
          all_digits-to_decimal (length p + 1) (length p),
          no_zero,
          decimal_value-to_decimal (length p + 1) (length p) (omega arith),
          small_length,
          within,
        )
        refl

  read_header-framed : read_header d ≡ declares (length p) (length (digits p) + 1)
  unfolding read_header
  read_header-framed =
      rw
        (
          is,
          not_empty (digits p) (58 ∷ (p ++ (44 ∷ rest))) some_digits,
          find_colon-digits (digits p) (p ++ (44 ∷ rest))
              (all_digits-to_decimal (length p + 1) (length p)),
        )
        full_header-framed

  after : Decoder
  after = record d {
    frames = d.frames ++ p ∷ [];
    buffer = rest;
    expected_len = none;
    header_bytes = 0;
  }

  length-framed : length d.buffer ≡ length (digits p) + 1 + length p + 1 + length rest
  length-framed =
      rw (is, length-append (digits p) (58 ∷ (p ++ (44 ∷ rest))), length-append p (44 ∷ rest))
        (omega arith)

  drop-header : drop (length (digits p) + 1) d.buffer ≡ p ++ 44 ∷ rest
  drop-header = rw is (drop-prefix (digits p) (58 ∷ (p ++ (44 ∷ rest))) 1)

  terminator : get_elem? d.buffer (length (digits p) + 1 + length p) ≡ some 44
  terminator =
      let reorder : length (digits p) + 1 + length p ≡ length (digits p) + suc (length p + 0) =
        omega arith in
      rw (is, reorder, get_elem?-prefix (digits p) (58 ∷ (p ++ (44 ∷ rest))) (suc (length p + 0)))
        (get_elem?-prefix p (44 ∷ rest) 0)

  drop-frame : drop (length (digits p) + 1 + length p + 1) d.buffer ≡ rest
  drop-frame =
      let reorder : length (digits p) + 1 + length p + 1 ≡ length (digits p) + suc (length p + 1) =
        omega arith in
      rw (is, reorder, drop-prefix (digits p) (58 ∷ (p ++ (44 ∷ rest))) (suc (length p + 1)))
        (drop-prefix p (44 ∷ rest) 1)

  read_body-framed : read_body d (length p) (length (digits p) + 1) ≡ continues after
  unfolding read_body after
  read_body-framed =
      let enough : ltb (length d.buffer) (length (digits p) + 1 + length p + 1) ≡ false =
        let h : length d.buffer ≡ length (digits p) + 1 + length p + 1 + length rest =
          length-framed in
        ground arith in
      rw (enough, terminator, drop-frame, drop-header, take-prefix p (44 ∷ rest)) refl

  round-framed : d.expected_len ≡ none → round d ≡ continues after
  unfolding round after
  round-framed fresh = rw (fresh, round, read_header-framed) read_body-framed

-- The encoded payloads, one after the other.
unfoldable pub encode_all : List (List ℕ) → List ℕ
unfolding encode_netstring
encode_all [] = []
encode_all (p ∷ ps) = encode_netstring p ++ encode_all ps

frames_append :
    (fs : List (List ℕ)) (p : List ℕ) (ps : List (List ℕ)) → (fs ++ (p ∷ [])) ++ ps ≡ fs ++ (p ∷ ps)
frames_append [] p ps = refl
frames_append (f ∷ fs) p ps = ap (λ l. f ∷ l) (frames_append fs p ps)

frames_nil : (fs : List (List ℕ)) → fs ++ [] ≡ fs
frames_nil [] = refl
frames_nil (f ∷ fs) = ap (λ l. f ∷ l) (frames_nil fs)

-- What the loop leaves: the frames added, and nothing else in hand.
abbrev drained : Decoder → List (List ℕ) → Decoder
drained d ps = record d {
  buffer = [];
  expected_len = none;
  header_bytes = 0;
  frames = d.frames ++ ps;
}

returning :
    (d : Decoder) (o : Option ℕ) (buffer : List ℕ)
    → o ≡ none
    → buffer ≡ []
    → (elim o [
      | some len ↦ read_body d len d.header_bytes
      | none ↦
          elim (if is_empty buffer then returns none else elim (find_colon d.buffer) [
            | none ↦ partial_header d
            | some colon ↦ full_header d colon
          ]) [ returns e ↦ stops e d | declares len header ↦ read_body d len header ]
    ])
      ≡ stops none d
returning d o buffer fresh is = rw (fresh, is) refl

empty_round : (d : Decoder) → d.buffer ≡ [] → d.expected_len ≡ none → round d ≡ stops none d
unfolding round read_header
empty_round d is fresh = returning d d.expected_len d.buffer fresh is

drained-nothing :
    (d : Decoder) → d.buffer ≡ [] → d.expected_len ≡ none → d.header_bytes ≡ 0 → d ≡ drained d []
drained-nothing d is fresh header = ground (arith, frames_nil d.frames)

stopped :
    (fuel : ℕ) (d d' : Decoder) (e : Option NetstringError)
    → round d ≡ stops e d'
    → parse_available (suc fuel) d ≡ some (e, d')
unfolding parse_available
stopped fuel d d' e h = rw (h, parse_available) refl

continued :
    (fuel : ℕ) (d d' : Decoder)
    → round d ≡ continues d'
    → parse_available (suc fuel) d ≡ parse_available fuel d'
unfolding parse_available
continued fuel d d' h = rw (h, parse_available) refl

parse_available-encode_all :
    (fuel : ℕ) (ps : List (List ℕ)) (d : Decoder)
    → d.buffer ≡ encode_all ps
    → d.expected_len ≡ none
    → d.header_bytes ≡ 0
    → d.max_frame_bytes ≤ max_size
    → All (λ p. length p ≤ d.max_frame_bytes) ps
    → length ps < fuel
    → parse_available fuel d ≡ some (none, drained d ps)
unfolding encode_all after
parse_available-encode_all zero ps d is fresh header small fits h = absurd (omega arith)
parse_available-encode_all (suc fuel) [] d is fresh header small fits h =
    stopped fuel d d none (empty_round d is fresh)
    ∙ ap (λ x. some (none, x)) (drained-nothing d is fresh header)
parse_available-encode_all (suc fuel) (p ∷ ps) d is fresh header small fits h =
    let framed : d.buffer ≡ digits p ++ 58 ∷ (p ++ (44 ∷ encode_all ps)) =
      is ∙ encode_netstring-append p (encode_all ps) in
    let d' : Decoder = after d p (encode_all ps) framed fits.0 small in
    continued fuel d d' (round-framed d p (encode_all ps) framed fits.0 small fresh)
    ∙ parse_available-encode_all fuel ps d' refl refl refl small fits.1 (omega arith)
    ∙ ap
        (λ fs.
          some (none, record d { buffer = []; expected_len = none; header_bytes = 0; frames = fs }))
        (frames_append d.frames p ps)

frame-length : (p rest : List ℕ) → length rest < length (encode_netstring p ++ rest)
frame-length p rest =
    rw
      (
        encode_netstring-append p rest,
        length-append (digits p) (58 ∷ (p ++ (44 ∷ rest))),
        length-append p (44 ∷ rest),
      )
      (omega arith)

encode_all-length : (ps : List (List ℕ)) → length ps ≤ length (encode_all ps)
unfolding encode_all
encode_all-length [] = omega arith
encode_all-length (p ∷ ps) =
    let more : length (encode_all ps) < length (encode_netstring p ++ encode_all ps) =
      frame-length p (encode_all ps) in
    let step : length ps ≤ length (encode_all ps) = encode_all-length ps in omega arith

encode_all-nonempty : (p : List ℕ) (ps : List (List ℕ)) → is_empty (encode_all (p ∷ ps)) ≡ false
unfolding encode_all
encode_all-nonempty p ps = rw (encode_netstring-append p (encode_all ps)) (
    not_empty (digits p) (58 ∷ (p ++ (44 ∷ encode_all ps)))
      (to_decimal-nonempty (length p + 1) (length p) (omega arith)))

feed-some :
    (bytes : List ℕ) (d : Decoder)
    → is_empty bytes ≡ false
    → feed bytes d
      ≡ parse_available (length (d.buffer ++ bytes) + 1) (record d { buffer = d.buffer ++ bytes })
unfolding feed
feed-some bytes d h = rw h refl

-- A fresh decoder that is fed any payloads, encoded and joined, each of at most its limit of bytes
-- and the limit within 64 bits, returns without an error, holds exactly these payloads as its frames, in
-- order, and keeps nothing of the input.
pub feed-encode_all :
    (max : ℕ) (ps : List (List ℕ))
    → max ≤ max_size
    → All (λ p. length p ≤ max) ps
    → feed (encode_all ps) (new_decoder max) ≡ some (none, record (new_decoder max) { frames = ps })
unfolding new_decoder
feed-encode_all max [] small fits = unfold feed in unfold encode_all in refl
feed-encode_all max (p ∷ ps) small fits =
    let bytes : List ℕ = encode_all (p ∷ ps) in
    let enough : length (p ∷ ps) ≤ length bytes = encode_all-length (p ∷ ps) in
    feed-some bytes (new_decoder max) (encode_all-nonempty p ps)
    ∙ parse_available-encode_all (length bytes + 1) (p ∷ ps)
        (record (new_decoder max) { buffer = bytes }) refl refl refl small fits (omega arith)

-- ===== src/Netstring/Codec.antt =====
-- `NetstringDecoder` and `encodeNetstring` of src/ControlVNextCodec.cpp. A string is the list of its
-- bytes; `:` is 58, `,` is 44 and `0` is 48. `parse_decimal` is what the source uses of
-- `std::from_chars` on digits, for a 64-bit `size_t`, and `to_decimal` of `std::to_chars`, whose
-- buffer of 32 bytes is large enough.
use sakamoto_snort.Common.{
  ℕ, zero, suc, ◌+◌, ◌-◌, ◌*◌, ◌/◌, ◌%◌, Bool, true, false, not, ◌&&◌, List, [], ◌∷◌, ◌++◌, Option,
  none, some, ltb, leb, ◌==◌, if◌then◌else◌, length, get_elem?, take, drop,
}

pub data NetstringError : Type 0 where
  invalid_header leading_zero invalid_length frame_too_large missing_terminator : NetstringError

abbrev pub is_digit : ℕ → Bool
is_digit c = leb 48 c && leb c 57

abbrev pub all_digits : List ℕ → Bool
all_digits [] = true
all_digits (c ∷ cs) = is_digit c && all_digits cs

-- `decimalDigits`, on fuel: the value itself is enough, as each round divides it by ten.
unfoldable pub decimal_digits : ℕ → ℕ → ℕ
decimal_digits zero value = 1
decimal_digits (suc fuel) value =
    let rest = decimal_digits fuel (value / 10) in if leb 10 value then suc rest else 1

unfoldable pub to_decimal : ℕ → ℕ → List ℕ
to_decimal zero n = []
to_decimal (suc fuel) n =
    let rest = to_decimal fuel (n / 10) in
    if ltb n 10 then (48 + n) ∷ [] else rest ++ (48 + n % 10) ∷ []

unfoldable pub decimal_value : ℕ → List ℕ → ℕ
decimal_value acc [] = acc
decimal_value acc (c ∷ cs) = decimal_value (acc * 10 + (c - 48)) cs

abbrev pub max_size : ℕ
max_size = 0xFFFFFFFFFFFFFFFF

unfoldable pub parse_decimal : List ℕ → Option ℕ
unfolding decimal_value
parse_decimal cs = if ltb max_size (decimal_value 0 cs) then none else some (decimal_value 0 cs)

pub record Decoder : Type 0 where
  pub max_frame_bytes : ℕ
  pub max_header_digits : ℕ
  pub buffer : List ℕ
  pub expected_len : Option ℕ
  pub header_bytes : ℕ
  pub frames : List (List ℕ)

unfoldable pub new_decoder : ℕ → Decoder
unfolding decimal_digits
new_decoder max = record {
  max_frame_bytes = max;
  max_header_digits = decimal_digits max max;
  buffer = [];
  expected_len = none;
  header_bytes = 0;
  frames = [];
}

-- `_buffer.find(':')`
unfoldable pub find_colon : List ℕ → Option ℕ
find_colon [] = none
find_colon (c ∷ cs) =
    let rest = find_colon cs in
    if c == 58 then some 0 else elim rest [ none ↦ none | some i ↦ some (suc i) ]

abbrev pub leads_with_zero : List ℕ → Bool
leads_with_zero [] = false
leads_with_zero (c ∷ []) = false
leads_with_zero (c ∷ d ∷ cs) = c == 48

-- What a round of the loop finds out about the header: it returns, or declares a length.
pub data Header : Type 0 where
  returns : Option NetstringError → Header
  declares : ℕ → ℕ → Header

unfoldable pub partial_header : Decoder → Header
partial_header d =
    if not (all_digits d.buffer)
    then returns (some invalid_header)
    else if leads_with_zero d.buffer
    then returns (some leading_zero)
    else if ltb d.max_header_digits (length d.buffer)
    then returns (some frame_too_large)
    else returns none

unfoldable pub full_header : Decoder → ℕ → Header
unfolding parse_decimal
full_header d colon =
    let digits = take colon d.buffer in
    if colon == 0
    then returns (some invalid_header)
    else if not (all_digits digits)
    then returns (some invalid_header)
    else if leads_with_zero digits
    then returns (some leading_zero)
    else elim (parse_decimal digits) [
      | none ↦ returns (some invalid_length)
      | some len ↦
          if ltb d.max_frame_bytes len
          then returns (some frame_too_large)
          else declares len (colon + 1)
    ]

abbrev pub is_empty : List ℕ → Bool
is_empty [] = true
is_empty (c ∷ cs) = false

unfoldable pub read_header : Decoder → Header
unfolding partial_header full_header find_colon
read_header d =
    if is_empty d.buffer
    then returns none
    else elim (find_colon d.buffer) [ none ↦ partial_header d | some colon ↦ full_header d colon ]

pub data Round : Type 0 where
  stops : Option NetstringError → Decoder → Round
  continues : Decoder → Round

-- The second half of a round, with the length and the header's size known.
unfoldable pub read_body : Decoder → ℕ → ℕ → Round
read_body d len header =
    let d' = record d { expected_len = some len; header_bytes = header } in
    if ltb (length d.buffer) (header + len + 1)
    then stops none d'
    else elim (get_elem? d.buffer (header + len)) [
      | none ↦ stops (some missing_terminator) d'
      | some c ↦
          if not (c == 44)
          then stops (some missing_terminator) d'
          else continues (record d {
            frames = d.frames ++ take len (drop header d.buffer) ∷ [];
            buffer = drop (header + len + 1) d.buffer;
            expected_len = none;
            header_bytes = 0;
          })
    ]

unfoldable pub round : Decoder → Round
unfolding read_header read_body
round d = elim d.expected_len [
  | some len ↦ read_body d len d.header_bytes
  | none ↦ elim (read_header d) [
    | returns e ↦ stops e d
    | declares len header ↦ read_body d len header
  ]
]

-- `parseAvailable`, on fuel.
unfoldable pub parse_available : ℕ → Decoder → Option (Option NetstringError × Decoder)
unfolding round
parse_available zero d = none
parse_available (suc fuel) d = elim (round d) [
  | stops e d' ↦ some (e, d')
  | continues d' ↦ parse_available fuel d'
]

-- `feed`: each frame takes a byte at least, so one round for each byte and one more.
unfoldable pub feed : List ℕ → Decoder → Option (Option NetstringError × Decoder)
unfolding parse_available
feed bytes d =
    let d' = record d { buffer = d.buffer ++ bytes } in
    if is_empty bytes then some (none, d) else parse_available (length d'.buffer + 1) d'

unfoldable pub encode_netstring : List ℕ → List ℕ
unfolding to_decimal
encode_netstring payload =
    to_decimal (length payload + 1) (length payload) ++ (58 ∷ (payload ++ (44 ∷ [])))

-- `pop`
unfoldable pub pop : Decoder → Option (List ℕ) × Decoder
pop d = elim d.frames [
  | [] ↦ (none, d)
  | frame ∷ frames ↦ (some frame, record d { frames = frames })
]

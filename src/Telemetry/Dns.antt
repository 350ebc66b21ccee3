-- ===== src/Telemetry/Dns.antt =====
-- The DNS decisions' encoder always succeeds within its payload, and a consumer reads the decision
-- back with the name cut to its limit.
use sakamoto_snort.Common.{
  ℕ, zero, suc, ◌+◌, ◌^◌, ◌≤◌, ◌<◌, ◌≡◌, refl, ap, ◌∙◌, sym, fun_ext, inl, inr, Bool-cases, Bool,
  true, false, Option, none, some, is_some, List, [], ◌∷◌, ltb, if◌then◌else◌, length, take, arith,
}
use sakamoto_snort.Telemetry.Abi.{Buffer, Writer, ◌>>◌, write_bytes, read_bytes, max_payload_bytes}
use sakamoto_snort.Telemetry.Records.{
  DnsDecision, EncodedPayload, empty_payload, fill_zero, capped_len, dns_flags, write_dns_fixed,
  write_dns, encode_dns_decision_v1, source_code, value_or_zero,
}
use sakamoto_snort.Telemetry.Flags.{has_bit, read_flags-dns_flags}
use sakamoto_snort.Telemetry.Memory.{
  overlay, overlay-outside, overlay-Holds, read_bytes-Holds, write_bytes-in, writes_then,
}
use sakamoto_snort.Telemetry.Consumer.{source_of, rule_of, read_dns_decision_v1}
use sakamoto_snort.Telemetry.Values.{
  join16, join16_id, join32, join32_id, join64, join64_id, source_of-code, rule_of-value,
}

abbrev pub IsDecision : DnsDecision → Type 0
IsDecision d =
    (d.timestamp_ns < 2 ^ 64)
    × (d.uid < 2 ^ 32)
    × (d.user_id < 2 ^ 32)
    × (value_or_zero d.rule_id < 2 ^ 32)

capped_len-le : (n : ℕ) → (capped_len n ≤ n) × (capped_len n ≤ 255)
capped_len-le n = ground arith

length-take : {A : Type 0} (n : ℕ) (xs : List A) → n ≤ length xs → length (take n xs) ≡ n
length-take zero xs h = refl
length-take (suc n) [] h = absurd (omega arith)
length-take (suc n) (x ∷ xs) h = omega (arith, length-take n xs (omega arith))

abbrev payload_of : (ℕ → ℕ) → Buffer
payload_of at = record { size = max_payload_bytes; at = at }

-- The memory after the fixed bytes.
unfoldable fixed : DnsDecision → ℕ → (ℕ → ℕ) → ℕ → ℕ
unfolding write_dns_fixed
fixed d n at = elim (write_dns_fixed d n (payload_of at)) [ none ↦ at | some b ↦ b.at ]

write_dns_fixed-in :
    (d : DnsDecision) (n : ℕ) (at : ℕ → ℕ)
    → write_dns_fixed d n (payload_of at) ≡ some (payload_of (fixed d n at))
unfolding fixed
write_dns_fixed-in d n at = refl

-- A memory whose first 32 bytes are those of another.
abbrev headed : (ℕ → ℕ) → (ℕ → ℕ) → ℕ → ℕ
headed head at i = if ltb i 32 then head i else at i

headed-overlay : (xs : List ℕ) (at : ℕ → ℕ) → headed at (overlay 32 xs at) ≡ overlay 32 xs at
headed-overlay xs at = fun_ext (λ i. ground (arith, overlay-outside 32 xs at i))

-- What the consumer makes of the fixed bytes, and the name that follows them.
abbrev reread : DnsDecision → ℕ → List ℕ → Bool × DnsDecision
reread d want name = (
  has_bit (dns_flags (is_some d.rule_id) want) 2,
  record {
    timestamp_ns = join64 d.timestamp_ns;
    uid = join32 d.uid;
    user_id = join32 d.user_id;
    policy_source = source_of (source_code d.policy_source);
    rule_id =
        rule_of (has_bit (dns_flags (is_some d.rule_id) want) 1) (join32 (value_or_zero d.rule_id));
    query_name = name;
  },
)

read_headed :
    (d : DnsDecision) (n : ℕ) (at m : ℕ → ℕ) (name : List ℕ)
    → read_bytes 32 (join16 n) (payload_of (headed (fixed d n at) m)) ≡ some name
    → read_dns_decision_v1 (payload_of (headed (fixed d n at) m))
      ≡ some (reread d (length d.query_name) name)
unfolding fixed read_dns_decision_v1
read_headed d n at m name h =
    ap (λ o. elim o [ none ↦ none | some name ↦ some (reread d (length d.query_name) name) ]) h

reread-name :
    (d : DnsDecision) (name : List ℕ)
    → IsDecision d
    → reread d (length d.query_name) name
      ≡ (ltb 255 (length d.query_name), record d { query_name = name })
reread-name d name (t, u, us, r) =
    let (f1, f2) = read_flags-dns_flags (is_some d.rule_id) (length d.query_name) in
    rw
      (
        f1,
        f2,
        join64_id d.timestamp_ns t,
        join32_id d.uid u,
        join32_id d.user_id us,
        join32_id (value_or_zero d.rule_id) r,
        source_of-code d.policy_source,
        rule_of-value d.rule_id,
      )
      refl

zeros : ℕ → ℕ → ℕ
zeros n i = if ltb i n then 0 else 0

fill_zero-in :
    (n : ℕ) → n ≤ max_payload_bytes → fill_zero n empty_payload.bytes ≡ some (payload_of (zeros n))
unfolding fill_zero zeros
fill_zero-in n h = ground arith

-- The bytes of the whole payload.
dns_bytes : DnsDecision → ℕ → ℕ → ℕ
dns_bytes d n = overlay 32 (take n d.query_name) (fixed d n (zeros (32 + n)))

write_dns-in :
    (d : DnsDecision) (n : ℕ)
    → n ≤ length d.query_name
    → n ≤ 255
    → write_dns d n empty_payload.bytes ≡ some (payload_of (dns_bytes d n))
unfolding write_dns dns_bytes
write_dns-in d n h small =
    let at = fixed d n (zeros (32 + n)) in
    let l = length-take n d.query_name h in
    let tail : Writer = write_dns_fixed d n >> write_bytes 32 (take n d.query_name) in
    writes_then (fill_zero (32 + n)) tail empty_payload.bytes _ _
      (fill_zero-in (32 + n) (omega arith))
      (writes_then (write_dns_fixed d n) (write_bytes 32 (take n d.query_name))
        (payload_of (zeros (32 + n))) _ _ (write_dns_fixed-in d n (zeros (32 + n)))
        (write_bytes-in 32 (take n d.query_name) (payload_of at) (omega arith)))

abbrev finish : ℕ → Option Buffer → Option (Bool × EncodedPayload)
finish n o = elim o [ none ↦ none | some c ↦ some (true, record { bytes = c; size = 32 + n }) ]

encoded :
    (n : ℕ) (refused : Option (Bool × EncodedPayload)) (o : Option Buffer) (b : Buffer)
    → n ≤ 255
    → o ≡ some b
    → (if ltb max_payload_bytes (32 + n) then refused else finish n o)
      ≡ some (true, record { bytes = b; size = 32 + n })
encoded n refused o b h e =
    let fits : ltb max_payload_bytes (32 + n) ≡ false = ground arith in rw (e, fits) refl

abbrev dns_payload : DnsDecision → ℕ → EncodedPayload
dns_payload d n = record { bytes = payload_of (dns_bytes d n); size = 32 + n }

encode_dns-in :
    (d : DnsDecision)
    → encode_dns_decision_v1 d ≡ some (true, dns_payload d (capped_len (length d.query_name)))
unfolding encode_dns_decision_v1
encode_dns-in d =
    let (le, small) = capped_len-le (length d.query_name) in
    encoded _ _ _ _ small (write_dns-in d _ le small)

take-all : {A : Type 0} (n : ℕ) (xs : List A) → length xs ≤ n → take n xs ≡ xs
take-all zero [] h = refl
take-all zero (x ∷ xs) h = absurd (omega arith)
take-all (suc n) [] h = refl
take-all (suc n) (x ∷ xs) h = ap (λ ys. x ∷ ys) (take-all n xs (omega arith))

take-capped_len : (xs : List ℕ) → take (capped_len (length xs)) xs ≡ take 255 xs
take-capped_len xs = elim (Bool-cases (ltb 255 (length xs))) [
  | inl over ↦ rw over refl
  | inr under ↦
      rw under (take-all (length xs) xs (omega arith) ∙ sym (take-all 255 xs (ground arith)))
]

read_dns_payload :
    (d : DnsDecision) (n : ℕ)
    → IsDecision d
    → n ≤ length d.query_name
    → n ≤ 255
    → read_dns_decision_v1 (payload_of (dns_bytes d n))
      ≡ some (ltb 255 (length d.query_name), record d { query_name = take n d.query_name })
unfolding dns_bytes
read_dns_payload d n h le small =
    let name = take n d.query_name in
    let head = fixed d n (zeros (32 + n)) in
    let l = length-take n d.query_name le in
    let read : read_bytes 32 (join16 n) (payload_of (overlay 32 name head)) ≡ some name =
      rw (join16_id n (omega arith)) (
        ap (λ k. read_bytes 32 k (payload_of (overlay 32 name head))) (sym l)
        ∙ read_bytes-Holds 32 name (payload_of (overlay 32 name head)) (omega arith)
            (overlay-Holds 32 name head)) in
    let eq = headed-overlay name head in
    ap (λ at. read_dns_decision_v1 (payload_of at)) (sym eq)
    ∙ read_headed d n (zeros (32 + n)) (overlay 32 name head) name
        (ap (λ at. read_bytes 32 (join16 n) (payload_of at)) eq ∙ read)
    ∙ ap some (reread-name d name h)

-- The encoder of a DNS decision never fails nor writes past its payload, whatever the name: the
-- payload has 32 bytes and those of the name, 255 of them at most, and so fits a slot.
pub encode_dns_decision_v1-fits :
    (d : DnsDecision)
    → (p : EncodedPayload) × (encode_dns_decision_v1 d ≡ some (true, p))
      × (p.size ≡ 32 + length (take 255 d.query_name))
      × (p.size ≤ 287)
      × (287 ≤ max_payload_bytes)
encode_dns_decision_v1-fits d =
    let n = capped_len (length d.query_name) in
    let (le, small) = capped_len-le (length d.query_name) in
    let l = ap length (take-capped_len d.query_name) in
    let m = length-take n d.query_name le in
    (dns_payload d n, encode_dns-in d, omega arith, omega arith, omega arith)

-- When the numbers of a DNS decision are of their types, a consumer reads back from its payload the
-- decision with the first 255 bytes of its name, and the flag that says whether the name was longer.
pub read_dns_decision_v1-encode :
    (d : DnsDecision)
    → IsDecision d
    → (p : EncodedPayload) × (encode_dns_decision_v1 d ≡ some (true, p))
      × (read_dns_decision_v1 p.bytes
          ≡ some (ltb 255 (length d.query_name), record d { query_name = take 255 d.query_name }))
read_dns_decision_v1-encode d h =
    let n = capped_len (length d.query_name) in
    let (le, small) = capped_len-le (length d.query_name) in
    (
      dns_payload d n,
      encode_dns-in d,
      rw (sym (take-capped_len d.query_name)) (read_dns_payload d n h le small),
    )

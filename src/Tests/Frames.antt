-- ===== src/Tests/Frames.antt =====
-- Two frames of the control protocol.
use sakamoto_snort.Common.{ℕ, ◌≡◌, List, [], ◌∷◌, Option, none, some, arith}
use sakamoto_snort.Netstring.Codec.{NetstringError, Decoder, feed, new_decoder}
use sakamoto_snort.Netstring.Total.{feed-total}
use sakamoto_snort.Netstring.RoundTrip.{encode_all, feed-encode_all}

-- `hi` and the empty payload.
abbrev payloads : List (List ℕ)
payloads = (104 ∷ 105 ∷ []) ∷ [] ∷ []

feed-encode_all_example :
    feed (encode_all payloads) (new_decoder 1024)
    ≡ some (none, record (new_decoder 1024) { frames = payloads })
feed-encode_all_example =
    feed-encode_all 1024 payloads (omega arith) (omega arith, (omega arith, tt))

feed-total_example :
    (r : Option NetstringError × Decoder) × (feed (51 ∷ 58 ∷ 44 ∷ []) (new_decoder 1024) ≡ some r)
feed-total_example = feed-total (51 ∷ 58 ∷ 44 ∷ []) (new_decoder 1024)

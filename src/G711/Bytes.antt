-- ===== src/G711/Bytes.antt =====
-- What main/core/g711.c makes fits its C types.
use esp32_ipc.Base.{◌/◌, ◌<◌, ◌≡◌, refl, bit_xor, ltb, ltb→lt, true, arith}
use esp32_ipc.Base.Bits.{holds_below, holds_at}
use esp32_ipc.Base.Int.{ℤ, pos, negsuc}
use esp32_ipc.G711.{encode, decode}
use esp32_ipc.G711.Segments.{seg_of, seg_of-lt}
use esp32_ipc.G711.Laws.{IsSample, encode-decode, encode_pos, encode_neg, code-lt}

pos_table : holds_below (λ k. ltb (bit_xor k 0xD5) 256) 128 ≡ true
unfolding holds_below
pos_table = refl

neg_table : holds_below (λ k. ltb (bit_xor k 0x55) 256) 128 ≡ true
unfolding holds_below
neg_table = refl

encode-lt : (s : ℤ) → IsSample s → encode s < 256
encode-lt (pos n) h = rw (encode_pos n (omega arith)) (
    ltb→lt _ _ (
      holds_at _ 128 _ (code-lt (seg_of (n / 8)) (n / 8) (seg_of-lt (n / 8) (omega arith)))
        pos_table))
encode-lt (negsuc n) h = rw (encode_neg n (omega arith)) (
    ltb→lt _ _ (
      holds_at _ 128 _ (code-lt (seg_of (n / 8)) (n / 8) (seg_of-lt (n / 8) (omega arith)))
        neg_table))

-- The code of a 16-bit sample is a byte, and what the byte decodes to is a 16-bit sample again, whose
-- code is the same byte: coding a second time changes nothing.
pub encode_again :
    (s : ℤ)
    → IsSample s
    → (encode s < 256) × IsSample (decode (encode s)) × (encode (decode (encode s)) ≡ encode s)
encode_again s h =
    let (same, fits) = encode-decode (encode s) (encode-lt s h) in (encode-lt s h, fits, same)

-- ===== src/G711/Laws.antt =====
-- The coder and the decoder of main/core/g711.c, one after the other.
use esp32_ipc.Base.{
  ltb, ℕ, zero, suc, ◌+◌, ◌-◌, ◌*◌, ◌/◌, ◌%◌, ◌^◌, ◌≤◌, ◌<◌, max, bit_xor, Bool, true, false, ◌≡◌,
  ◌≢◌, refl, arith, ◌==◌, ==_iff, ap, subst,
}
use esp32_ipc.Base.Int.{ℤ, pos, negsuc, ◌≤ℤ◌}
use esp32_ipc.Base.Bits.{holds_below, holds_at}
use esp32_ipc.G711.{find_seg, pack, encode, expand, negate, decode}
use esp32_ipc.G711.Segments.{
  nibble, seg_of, seg_of-lt, quantised, dist, quantised_near, quantised_near_suc, pack_lem,
  quantised_mono, quantised_pos, quantised-mod,
}

-- An `int16_t`.
abbrev pub IsSample : ℤ → Type 0
IsSample s = (negsuc (2 ^ 15 - 1) ≤ℤ s) × (s ≤ℤ pos (2 ^ 15 - 1))

abbrev pub abs : ℤ → ℕ
abs (pos n) = n
abs (negsuc n) = suc n

abbrev pub same : ℤ → ℤ → Bool
same (pos a) (pos b) = a == b
same (negsuc a) (negsuc b) = a == b
same _ _ = false

same→eq : (a b : ℤ) → same a b ≡ true → a ≡ b
same→eq (pos a) (pos b) h = ap pos ((==_iff a b).0 h)
same→eq (pos a) (negsuc b) h = cc
same→eq (negsuc a) (pos b) h = cc
same→eq (negsuc a) (negsuc b) h = ap negsuc ((==_iff a b).0 h)

decode_pos_table :
    holds_below (λ k. same (decode (bit_xor k 0xD5)) (pos (expand (k / 16) (k % 16 * 16)))) 128
    ≡ true
unfolding holds_below decode expand
decode_pos_table = refl

decode_neg_table :
    holds_below (λ k. same (decode (bit_xor k 0x55)) (negate (expand (k / 16) (k % 16 * 16)))) 128
    ≡ true
unfolding holds_below decode expand negate
decode_neg_table = refl

encode_table : holds_below (λ c. encode (decode c) == c) 256 ≡ true
unfolding holds_below encode find_seg pack decode expand negate
encode_table = refl

-- The magnitudes that fit an `int16_t` of either sign.
abbrev fits : ℤ → Bool
fits (pos n) = ltb n (2 ^ 15)
fits (negsuc n) = ltb n (2 ^ 15)

fits-IsSample : (s : ℤ) → fits s ≡ true → IsSample s
fits-IsSample (pos n) h = (omega arith, ground arith)
fits-IsSample (negsuc n) h = (ground arith, omega arith)

decode_table : holds_below (λ c. fits (decode c)) 256 ≡ true
unfolding holds_below decode expand negate
decode_table = refl

-- Every byte is the code of the sample that it decodes to, and that sample fits an `int16_t`.
pub encode-decode : (c : ℕ) → c < 256 → (encode (decode c) ≡ c) × IsSample (decode c)
encode-decode c h = (
  (==_iff _ c).0 (holds_at _ 256 c h encode_table),
  fits-IsSample (decode c) (holds_at _ 256 c h decode_table),
)

pub encode_pos :
    (n : ℕ)
    → n < 2 ^ 15
    → encode (pos n) ≡ bit_xor (seg_of (n / 8) * 16 + nibble (seg_of (n / 8)) (n / 8)) 0xD5
unfolding encode
encode_pos n h = ground (arith, pack_lem (seg_of (n / 8)) (n / 8), seg_of-lt (n / 8))

pub encode_neg :
    (n : ℕ)
    → n < 2 ^ 15
    → encode (negsuc n) ≡ bit_xor (seg_of (n / 8) * 16 + nibble (seg_of (n / 8)) (n / 8)) 0x55
unfolding encode
encode_neg n h = ground (arith, pack_lem (seg_of (n / 8)) (n / 8), seg_of-lt (n / 8))

pub code-lt : (seg pcm : ℕ) → seg < 8 → seg * 16 + nibble seg pcm < 128
code-lt seg pcm h = ground arith

decode_pos : (k : ℕ) → k < 128 → decode (bit_xor k 0xD5) ≡ pos (expand (k / 16) (k % 16 * 16))
decode_pos k h = same→eq (decode (bit_xor k 0xD5)) _ (holds_at _ 128 k h decode_pos_table)

decode_neg : (k : ℕ) → k < 128 → decode (bit_xor k 0x55) ≡ negate (expand (k / 16) (k % 16 * 16))
decode_neg k h = same→eq (decode (bit_xor k 0x55)) _ (holds_at _ 128 k h decode_neg_table)

code-div : (seg pcm : ℕ) → (seg * 16 + nibble seg pcm) / 16 ≡ seg
code-div seg pcm = ground arith

code-mod : (seg pcm : ℕ) → (seg * 16 + nibble seg pcm) % 16 ≡ nibble seg pcm
code-mod seg pcm = ground arith

decode-encode_pos : (n : ℕ) → n < 2 ^ 15 → decode (encode (pos n)) ≡ pos (quantised n)
decode-encode_pos n h = rw (encode_pos n h) (
    rw (code-div (seg_of (n / 8)) (n / 8), code-mod (seg_of (n / 8)) (n / 8)) at
      (decode_pos _ (code-lt (seg_of (n / 8)) (n / 8) (seg_of-lt (n / 8) (omega arith)))))

decode-encode_neg : (n : ℕ) → n < 2 ^ 15 → decode (encode (negsuc n)) ≡ negate (quantised n)
decode-encode_neg n h = rw (encode_neg n h) (
    rw (code-div (seg_of (n / 8)) (n / 8), code-mod (seg_of (n / 8)) (n / 8)) at
      (decode_neg _ (code-lt (seg_of (n / 8)) (n / 8) (seg_of-lt (n / 8) (omega arith)))))

-- The distance of two samples of one sign; of two signs, out of reach of every bound below.
abbrev pub gap : ℤ → ℤ → ℕ
gap (pos a) (pos b) = dist a b
gap (negsuc a) (negsuc b) = dist a b
gap (pos a) (negsuc b) = 2 ^ 16
gap (negsuc a) (pos b) = 2 ^ 16

gap-negate : (n q : ℕ) → 8 ≤ q → gap (negsuc n) (negate q) ≡ dist (n + 1) q
unfolding negate
gap-negate n zero h = absurd (omega arith)
gap-negate n (suc q) h = ground arith

-- Coding and decoding a 16-bit sample keeps its sign and moves it by 8 at most, or by a part in 32.
pub decode-encode_near : (s : ℤ) → IsSample s → 32 * gap s (decode (encode s)) ≤ max 256 (abs s)
decode-encode_near (pos n) h =
    rw (decode-encode_pos n (omega arith)) (quantised_near n (omega arith))
decode-encode_near (negsuc n) h =
    rw
      (
        decode-encode_neg n (omega arith),
        gap-negate n (quantised n) (quantised_pos n (omega arith)),
      )
      (omega (arith, quantised_near_suc n (omega arith)))

negate_le : (m n : ℕ) → m ≤ n → negate n ≤ℤ negate m
unfolding negate
negate_le zero zero h = omega arith
negate_le zero (suc n) h = omega arith
negate_le (suc m) zero h = absurd (omega arith)
negate_le (suc m) (suc n) h = omega arith

negate-le-pos : (m n : ℕ) → negate m ≤ℤ pos n
unfolding negate
negate-le-pos zero n = omega arith
negate-le-pos (suc m) n = omega arith

-- Coding and decoding keeps the order of samples.
pub decode-encode_mono :
    (s t : ℤ) → IsSample s → IsSample t → s ≤ℤ t → decode (encode s) ≤ℤ decode (encode t)
decode-encode_mono (pos m) (pos n) hs ht h =
    rw (decode-encode_pos m (omega arith), decode-encode_pos n (omega arith))
      (omega (arith, quantised_mono m n (omega arith) (omega arith)))
decode-encode_mono (pos m) (negsuc n) hs ht h = absurd (omega arith)
decode-encode_mono (negsuc m) (pos n) hs ht h =
    rw (decode-encode_neg m (omega arith), decode-encode_pos n (omega arith))
      (negate-le-pos (quantised m) (quantised n))
decode-encode_mono (negsuc m) (negsuc n) hs ht h =
    rw (decode-encode_neg m (omega arith), decode-encode_neg n (omega arith))
      (negate_le _ _ (quantised_mono n m (omega arith) (omega arith)))

abs-negate : (n : ℕ) → abs (negate n) ≡ n
unfolding negate
abs-negate zero = refl
abs-negate (suc n) = refl

abs-decode-encode : (s : ℤ) → IsSample s → abs (decode (encode s)) % 8 ≡ 0
abs-decode-encode (pos n) h = rw (decode-encode_pos n (omega arith)) (quantised-mod n (omega arith))
abs-decode-encode (negsuc n) h =
    rw (decode-encode_neg n (omega arith), abs-negate) (quantised-mod n (omega arith))

-- A sample whose magnitude is no multiple of 8 does not come back from its code.
pub decode-encode_lossy : (s : ℤ) → IsSample s → abs s % 8 ≢ 0 → decode (encode s) ≢ s
decode-encode_lossy s h odd e = odd (subst (λ x. abs x % 8 ≡ 0) e (abs-decode-encode s h))

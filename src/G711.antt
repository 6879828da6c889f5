-- ===== src/G711.antt =====
-- main/core/g711.c: ITU-T G.711 A-law, one byte per sample.
pub mod Segments
pub mod Laws
pub mod Bytes
mod Tests
use esp32_ipc.Base.{
  ℕ, zero, suc, ◌+◌, ◌*◌, ◌/◌, ◌%◌, ◌^◌, bit_and, bit_or, bit_xor, leb, ltb, ◌==◌, if◌then◌else◌,
  List, [], ◌∷◌,
}
use esp32_ipc.Base.Int.{ℤ, pos, negsuc}

-- `seg_end`.
abbrev pub seg_end : List ℕ
seg_end = 0x1F ∷ 0x3F ∷ 0x7F ∷ 0xFF ∷ 0x1FF ∷ 0x3FF ∷ 0x7FF ∷ 0xFFF ∷ []

-- The search loop, over the boundaries that are left: the first `seg` with `pcm <= seg_end[seg]`,
-- or the number past the last one.
unfoldable pub find_seg : ℕ → ℕ → List ℕ → ℕ
find_seg pcm seg [] = seg
find_seg pcm seg (e ∷ es) = if leb pcm e then seg else find_seg pcm (suc seg) es

-- `pcm` before the shift: the magnitude, one's complement for a negative sample, as a `uint16_t`.
unfoldable pub magnitude : ℤ → ℕ
magnitude (pos n) = n % 2 ^ 16
magnitude (negsuc n) = n % 2 ^ 16

unfoldable pub sign_mask : ℤ → ℕ
sign_mask (pos n) = 0xD5
sign_mask (negsuc n) = 0x55

-- The byte that the segment and the shifted magnitude make, before the mask.
unfoldable pub pack : ℕ → ℕ → ℕ
pack seg pcm =
    let aval = (seg * 2 ^ 4) % 2 ^ 8 in
    if ltb seg 2
    then bit_or aval (bit_and (pcm / 2 ^ 1) 0x0F)
    else bit_or aval (bit_and (pcm / 2 ^ seg) 0x0F)

-- `g711a_encode`.
unfoldable pub encode : ℤ → ℕ
unfolding magnitude sign_mask
encode sample =
    let pcm = magnitude sample / 2 ^ 3 in
    let mask = sign_mask sample in
    let seg = find_seg pcm 0 seg_end in
    if leb 8 seg then bit_xor 0x7F mask else bit_xor (pack seg pcm) mask

-- `t` of the decoder: the midpoint of the interval, by the segment.
unfoldable pub expand : ℕ → ℕ → ℕ
expand zero t = t + 8
expand (suc zero) t = t + 0x108
expand (suc (suc k)) t = (t + 0x108) * 2 ^ suc k

unfoldable pub negate : ℕ → ℤ
negate zero = pos 0
negate (suc n) = negsuc n

-- `g711a_decode`. The magnitude is below 2 ^ 15, so the cast to `int16_t` changes nothing.
unfoldable pub decode : ℕ → ℤ
decode code =
    let c = bit_xor code 0x55 in
    let t = bit_and c 0x0F * 2 ^ 4 in
    let seg = bit_and c 0x70 / 2 ^ 4 in
    let m = expand seg t in if bit_and c 0x80 == 0 then negate m else pos m

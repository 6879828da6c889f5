-- ===== src/G711/Segments.antt =====
-- The companding curve of main/core/g711.c on magnitudes: what the coder keeps of one.
use esp32_ipc.Base.{
  ℕ, ◌+◌, ◌-◌, ◌*◌, ◌/◌, ◌%◌, ◌^◌, ◌≤◌, ◌<◌, max, bit_or, ◌≡◌, refl, arith, true, ◌==◌, ltb,
  if◌then◌else◌, ==_iff,
}
use native.Mathlib.Nat.{div-le_self}
use esp32_ipc.Base.Bits.{holds_below, holds_at, bit_and_fifteen}
use esp32_ipc.G711.{seg_end, find_seg, pack, expand}

-- The four bits that are kept of the magnitude in a segment.
abbrev pub nibble : ℕ → ℕ → ℕ
nibble seg pcm = if ltb seg 2 then pcm / 2 % 16 else pcm / 2 ^ seg % 16

abbrev pub seg_of : ℕ → ℕ
seg_of pcm = find_seg pcm 0 seg_end

pub seg_of-lt : (pcm : ℕ) → pcm < 4096 → seg_of pcm < 8
unfolding find_seg
seg_of-lt pcm h = ground arith

-- The magnitude that the decoder rebuilds.
abbrev pub quantised : ℕ → ℕ
quantised m = let pcm = m / 8 in expand (seg_of pcm) (nibble (seg_of pcm) pcm * 16)

abbrev pub dist : ℕ → ℕ → ℕ
dist a b = if ltb a b then b - a else a - b

-- Half a step of the segment at most: eight, or a part in thirty-two of the magnitude.
pub quantised_near : (m : ℕ) → m < 2 ^ 15 → 32 * dist m (quantised m) ≤ max 256 m
unfolding find_seg expand
quantised_near m h = ground arith

pub quantised_near_suc : (m : ℕ) → m < 2 ^ 15 → 32 * dist (m + 1) (quantised m) ≤ max 256 (m + 1)
unfolding find_seg expand
quantised_near_suc m h = ground arith

or_table : holds_below (λ k. bit_or (k / 16 * 16 % 256) (k % 16) == k) 128 ≡ true
unfolding holds_below
or_table = refl

bit_or_fields : (seg nib : ℕ) → seg < 8 → nib < 16 → bit_or (seg * 16 % 256) nib ≡ seg * 16 + nib
bit_or_fields seg nib h k =
    rw (split_div, split_mod) at
      ((==_iff _ (seg * 16 + nib)).0 (holds_at _ 128 (seg * 16 + nib) (omega arith) or_table))
  where
    split_div : (seg * 16 + nib) / 16 ≡ seg
    split_div = omega arith

    split_mod : (seg * 16 + nib) % 16 ≡ nib
    split_mod = omega arith

-- The byte before the mask is the segment over the four bits.
pub pack_lem : (seg pcm : ℕ) → seg < 8 → pcm < 4096 → pack seg pcm ≡ seg * 16 + nibble seg pcm
unfolding pack
pack_lem seg pcm h k = ground (
  arith,
  div-le_self pcm 2,
  div-le_self pcm (2 ^ seg),
  bit_and_fifteen (pcm / 2),
  bit_and_fifteen (pcm / 2 ^ seg),
  bit_or_fields seg (pcm / 2 % 16),
  bit_or_fields seg (pcm / 2 ^ seg % 16),
)

pub quantised_mono : (m n : ℕ) → n < 2 ^ 15 → m ≤ n → quantised m ≤ quantised n
unfolding find_seg expand
quantised_mono m n h k = ground arith

pub quantised_pos : (m : ℕ) → m < 2 ^ 15 → 8 ≤ quantised m
unfolding find_seg expand
quantised_pos m h = ground arith

pub quantised-mod : (m : ℕ) → m < 2 ^ 15 → quantised m % 8 ≡ 0
unfolding find_seg expand
quantised-mod m h = ground arith

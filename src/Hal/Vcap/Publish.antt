-- ===== src/Hal/Vcap/Publish.antt =====
-- The rows that `hal_vcap_publish_rows` writes back.
use esp32_ipc.Base.{
  ℕ, ◌+◌, ◌-◌, ◌*◌, ◌/◌, ◌≤◌, ◌<◌, ◌≡◌, arith, ltb, if◌then◌else◌, some, subst, false,
}
use esp32_ipc.Base.Int.{ℤ, pos, negsuc, ltb_ℤ, ◌-ℤ◌, ◌+ℤ◌}
use native.Mathlib.Nat.{add-mul, mul-le-mul_right, le-div_iff_mul-le, div-lt_iff_lt-mul}
use esp32_ipc.Hal.Vcap.{Vcap, publish_rows, publish_clamped}

-- On the rows of a dirty range.
pub publish_rows_at :
    (cap : Vcap) (first last : ℕ)
    → first < cap.height
    → first ≤ last
    → publish_rows cap (pos first) (pos last)
      ≡ some (
        first * cap.stride,
        ((if ltb (cap.height - 1) last then cap.height - 1 else last) - first + 1) * cap.stride,
      )
unfolding publish_rows publish_clamped ◌-ℤ◌ ◌+ℤ◌
publish_rows_at cap first last h k = ground arith

block_in_frame :
    (height stride a b : ℕ)
    → a ≤ b
    → b < height
    → a * stride + (b - a + 1) * stride ≤ height * stride
block_in_frame height stride a b h k =
    subst (λ x. x ≤ height * stride) (add-mul a (b - a + 1) stride)
      (mul-le-mul_right stride (omega arith))

clamped_in_frame :
    (cap : Vcap) (y_first y_last : ℤ) (offset size : ℕ)
    → ltb_ℤ y_first (pos 0) ≡ false
    → ltb_ℤ (pos cap.height -ℤ pos 1) y_last ≡ false
    → publish_clamped cap y_first y_last ≡ some (offset, size)
    → offset + size ≤ cap.height * cap.stride
unfolding publish_clamped ◌-ℤ◌ ◌+ℤ◌
clamped_in_frame cap (pos a) (pos b) offset size low high e =
    ground (arith, block_in_frame cap.height cap.stride a b)
clamped_in_frame cap (pos a) (negsuc b) offset size low high e = ground arith
clamped_in_frame cap (negsuc a) y_last offset size low high e = ground arith

clamped_low : (y : ℤ) → ltb_ℤ (if ltb_ℤ y (pos 0) then pos 0 else y) (pos 0) ≡ false
clamped_low y = ground arith

clamped_high : (top y : ℤ) → ltb_ℤ top (if ltb_ℤ top y then top else y) ≡ false
clamped_high top y = ground arith

-- Whatever rows it is given, `hal_vcap_publish_rows` writes back nothing outside the frame.
pub publish_rows_in_frame :
    (cap : Vcap) (y_first y_last : ℤ) (offset size : ℕ)
    → publish_rows cap y_first y_last ≡ some (offset, size)
    → offset + size ≤ cap.height * cap.stride
unfolding publish_rows
publish_rows_in_frame cap y_first y_last offset size e =
    let last_row = pos cap.height -ℤ pos 1 in
    clamped_in_frame cap (if ltb_ℤ y_first (pos 0) then pos 0 else y_first)
      (if ltb_ℤ last_row y_last then last_row else y_last) offset size (clamped_low y_first)
      (clamped_high last_row y_last) e

-- A byte of the frame in one of the rows is in what is written back.
pub publish_rows_covers :
    (cap : Vcap) (first last a : ℕ)
    → 0 < cap.stride
    → first ≤ a / cap.stride
    → a / cap.stride ≤ last
    → a / cap.stride < cap.height
    → (offset size : ℕ) × (publish_rows cap (pos first) (pos last) ≡ some (offset, size))
      × (offset ≤ a)
      × (a < offset + size)
publish_rows_covers cap first last a wide low high inside =
    let s = cap.stride in
    let end = if ltb (cap.height - 1) last then cap.height - 1 else last in
    let start = (le-div_iff_mul-le wide).0 low in
    let past : a < (first + (end - first + 1)) * s = (div-lt_iff_lt-mul wide).0 (ground arith) in
    (
      first * s,
      (end - first + 1) * s,
      publish_rows_at cap first last (omega arith) (omega arith),
      start,
      subst (λ x. a < x) (add-mul first (end - first + 1) s) past,
    )

-- ===== src/Osd/Corners/Clip.antt =====
-- What clipping in `draw_corners` of main/core/osd.c leaves: a box inside the frame, whose marks fit.
use esp32_ipc.Base.{ℕ, ◌+◌, ◌/◌, ◌%◌, ◌≤◌, ◌<◌, ◌≡◌, arith, Bool, false, ◌||◌}
use esp32_ipc.Base.Int.{ℤ, pos_part, ◌-ℤ◌, ltb_ℤ}
use esp32_ipc.Osd.Corners.{Clipped, arm_of, clip_low, clip_high}
use esp32_ipc.Osd.Corners.Rows.{Fits}

abbrev pub IsClipped : ℕ → ℕ → Clipped → Type 0
IsClipped width height b = (b.cx1 ≤ b.cx2) × (b.cy1 ≤ b.cy2) × (b.cx2 < width) × (b.cy2 < height)

pub arm-Fits :
    (width height : ℕ) (b : Clipped)
    → width % 2 ≡ 0
    → IsClipped width height b
    → Fits (width + width / 2) height b (arm_of b)
arm-Fits width height b even c = record {
  column = omega arith;
  row = c.3;
  wide = ground arith;
  tall = ground arith;
}

pub clip_axis :
    (n : ℕ) (a b : ℤ)
    → ltb_ℤ (clip_high n b) (clip_low a) ≡ false
    → (pos_part (clip_low a) ≤ pos_part (clip_high n b)) × (pos_part (clip_high n b) < n)
unfolding ◌-ℤ◌
clip_axis n a b h = ground arith

pub or-false : (a b : Bool) → (a || b) ≡ false → (a ≡ false) × (b ≡ false)
or-false a b h = ground arith

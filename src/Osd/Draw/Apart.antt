-- ===== src/Osd/Draw/Apart.antt =====
-- The lines of the frame that the runs of main/core/osd.c do not write to.
use esp32_ipc.Base.{ℕ, ◌+◌, ◌-◌, ◌*◌, ◌/◌, ◌≤◌, ◌<◌, ◌≡◌, ◌≢◌, ◌⊎◌, arith, dec_lt, ◌∙◌, ap}
use esp32_ipc.Osd.Draw.{Frame, draw_hrun, draw_vrun, chroma}
use esp32_ipc.Osd.Draw.Hrun.{draw_hrun-below, draw_hrun_bytes, run_byte}
use esp32_ipc.Osd.Draw.Vrun.{draw_vrun_bytes, row_lt}

-- Byte `o` of line `y` is the same in both frames.
abbrev pub SameAt : ℕ → Frame → Frame → ℕ → ℕ → Type 0
SameAt stride m m' y o = m' (y * stride + o) ≡ m (y * stride + o)

run_byte_past : (x1 x2 yc c old o : ℕ) → x2 / 2 * 3 + 2 < o → run_byte x1 x2 yc c old o ≡ old
run_byte_past x1 x2 yc c old o h = ground arith

lines_apart : (stride y k o : ℕ) → (y + k) * stride + o ≡ y * stride + (k * stride + o)
lines_apart stride y k o = omega arith

line_after : (stride y y' o : ℕ) → y < y' → y' * stride + o ≡ y * stride + ((y' - y) * stride + o)
line_after stride y y' o h =
    let e : y' ≡ y + (y' - y) = omega arith in
    ap (λ k. k * stride + o) e ∙ lines_apart stride y (y' - y) o

past_line : (stride y y' : ℕ) → y < y' → stride ≤ (y' - y) * stride
past_line stride y y' h = grind arith

pub draw_hrun-SameAt :
    (m : Frame) (stride y x1 x2 yc uc vc y' o : ℕ)
    → x2 / 2 * 3 + 2 < stride
    → x1 ≤ x2
    → o < stride
    → y' ≢ y
    → SameAt stride m (draw_hrun m stride y x1 x2 yc uc vc) y' o
draw_hrun-SameAt m stride y x1 x2 yc uc vc y' o fits h k ne = elim (dec_lt y' y) [
  | yes p ↦ draw_hrun-below m stride y x1 x2 yc uc vc _ (omega (arith, row_lt stride y' y o 0 k p))
  | no p ↦ rw (line_after stride y y' o (omega arith)) (
      draw_hrun_bytes m stride y x1 x2 yc uc vc ((y' - y) * stride + o) h
      ∙ run_byte_past x1 x2 yc (chroma y uc vc) _ ((y' - y) * stride + o)
          (omega (arith, past_line stride y y' (omega arith))))
]

pub draw_vrun-SameAt :
    (m : Frame) (stride x y1 y2 yc uc vc y' o : ℕ)
    → x / 2 * 3 + 2 < stride
    → o < stride
    → (y' < y1) ⊎ (y2 < y')
    → SameAt stride m (draw_vrun m stride x y1 y2 yc uc vc) y' o
draw_vrun-SameAt m stride x y1 y2 yc uc vc y' o fits h out =
    ground (arith, draw_vrun_bytes m stride x y1 y2 yc uc vc y' o)

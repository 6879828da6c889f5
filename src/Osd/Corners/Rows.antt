-- ===== src/Osd/Corners/Rows.antt =====
-- Which lines of the frame the corner marks write to.
use esp32_ipc.Base.{
  ℕ, zero, suc, ◌+◌, ◌-◌, ◌*◌, ◌/◌, ◌≤◌, ◌<◌, ◌⊎◌, inl, inr, refl, arith, dec_lt, ◌∙◌,
}
use esp32_ipc.Config.{osd_y, osd_u, osd_v}
use esp32_ipc.Osd.Draw.{Frame}
use esp32_ipc.Osd.Draw.Apart.{SameAt, draw_hrun-SameAt, draw_vrun-SameAt}
use esp32_ipc.Osd.Corners.{Clipped, stroke, strokes}

-- What the marks need of a clipped box in a frame with lines of `stride` bytes.
pub record Fits (stride height : ℕ) (b : Clipped) (arm : ℕ) : Type 0 where
  pub column : b.cx2 / 2 * 3 + 2 < stride
  pub row : b.cy2 < height
  pub wide : b.cx1 + 2 * arm ≤ b.cx2
  pub tall : b.cy1 + 2 * arm ≤ b.cy2

-- The two bands of lines that `draw_corners` reports.
abbrev pub InBands : Clipped → ℕ → ℕ → Type 0
InBands b arm y = ((b.cy1 ≤ y) × (y ≤ b.cy1 + arm)) ⊎ ((b.cy2 - arm ≤ y) × (y ≤ b.cy2))

outside : (lo hi y : ℕ) → ¬ ((lo ≤ y) × (y ≤ hi)) → (y < lo) ⊎ (hi < y)
outside lo hi y h = elim (dec_lt y lo) [
  | yes p ↦ inl p
  | no p ↦ elim (dec_lt hi y) [ yes q ↦ inr q | no q ↦ absurd (h (omega arith, omega arith)) ]
]

module _ (stride height : ℕ) (b : Clipped) (arm : ℕ) (fit : Fits stride height b arm) where
  stroke-SameAt :
      (m : Frame) (t y o : ℕ)
      → t < arm
      → o < stride
      → ¬ InBands b arm y
      → SameAt stride m (stroke m stride b arm t) y o
  unfolding stroke
  stroke-SameAt m t y o h k out =
      let upper = outside b.cy1 (b.cy1 + arm) y (λ w. out (inl w)) in
      let lower = outside (b.cy2 - arm) b.cy2 y (λ w. out (inr w)) in
      draw_vrun-SameAt _ stride (b.cx2 - t) (b.cy2 - arm) b.cy2 osd_y osd_u osd_v y o (omega arith)
        k lower
      ∙ draw_vrun-SameAt _ stride (b.cx2 - t) b.cy1 (b.cy1 + arm) osd_y osd_u osd_v y o
          (omega arith) k upper
      ∙ draw_vrun-SameAt _ stride (b.cx1 + t) (b.cy2 - arm) b.cy2 osd_y osd_u osd_v y o
          (omega arith) k lower
      ∙ draw_vrun-SameAt _ stride (b.cx1 + t) b.cy1 (b.cy1 + arm) osd_y osd_u osd_v y o
          (omega arith) k upper
      ∙ draw_hrun-SameAt _ stride (b.cy2 - t) (b.cx2 - arm) b.cx2 osd_y osd_u osd_v y o
          (omega arith) (omega arith) k (omega arith)
      ∙ draw_hrun-SameAt _ stride (b.cy2 - t) b.cx1 (b.cx1 + arm) osd_y osd_u osd_v y o
          (omega arith) (omega arith) k (omega arith)
      ∙ draw_hrun-SameAt _ stride (b.cy1 + t) (b.cx2 - arm) b.cx2 osd_y osd_u osd_v y o
          (omega arith) (omega arith) k (omega arith)
      ∙ draw_hrun-SameAt _ stride (b.cy1 + t) b.cx1 (b.cx1 + arm) osd_y osd_u osd_v y o
          (omega arith) (omega arith) k (omega arith)

  pub strokes-SameAt :
      (left : ℕ) (m : Frame) (t y o : ℕ)
      → t + left ≤ arm
      → o < stride
      → ¬ InBands b arm y
      → SameAt stride m (strokes left m stride b arm t) y o
  unfolding strokes
  strokes-SameAt zero m t y o h k out = refl
  strokes-SameAt (suc left) m t y o h k out =
      strokes-SameAt left (stroke m stride b arm t) (suc t) y o (omega arith) k out
      ∙ stroke-SameAt m t y o (omega arith) k out

-- ===== src/Detect/Box.antt =====
-- main/core/detector.h, `det_box_t`. A score is a float, which nothing here computes with: its type
-- is a parameter.
use esp32_ipc.Base.Int.{ℤ}

pub record DetBox {ℓ} (Score : Type ℓ) : Type ℓ where
  pub x1 : ℤ
  pub y1 : ℤ
  pub x2 : ℤ
  pub y2 : ℤ
  pub score : Score

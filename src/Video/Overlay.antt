-- ===== src/Video/Overlay.antt =====
-- main/task/task_video.cpp, `overlay_boxes`: the latest boxes are drawn on the frame, and the rows
-- that were drawn are written back for the encoder.
pub mod Published
use esp32_ipc.Base.{
  leb, ltb, ◌&&◌, ◌||◌, ◌+◌, Bool, false, if◌then◌else◌, ℕ, zero, suc, ◌/◌, Option, none, some,
  List, [], ◌∷◌,
}
use esp32_ipc.Base.Int.{pos}
use esp32_ipc.Config.{cam_width, cam_height, det_width, det_height}
use esp32_ipc.Detect.Box.{DetBox}
use esp32_ipc.Hal.Vcap.{Vcap, publish_rows}
use esp32_ipc.Osd.Dirty.{Dirty}
use esp32_ipc.Osd.Corners.{Drawn, draw_boxes}

abbrev pub osd_scale_x : ℕ
osd_scale_x = cam_width / det_width

abbrev pub osd_scale_y : ℕ
osd_scale_y = cam_height / det_height

-- One more block that is written back, if there is one.
abbrev pub also : Option (ℕ × ℕ) → List (ℕ × ℕ) → List (ℕ × ℕ)
also none blocks = blocks
also (some b) blocks = b ∷ blocks

-- The loop of `overlay_boxes` from range `i` on, with `left` rounds left: the offsets and sizes that
-- are written back.
unfoldable pub publish_each : Vcap → Dirty → ℕ → ℕ → List (ℕ × ℕ)
publish_each cap dirty i zero = []
publish_each cap dirty i (suc left) =
    also (publish_rows cap (pos (dirty.range i).first) (pos (dirty.range i).last))
      (publish_each cap dirty (suc i) left)

-- `overlay_boxes`, of the boxes that the detector answers: the frame, and what is written back.
unfoldable pub overlay_boxes {ℓ} :
    {Score : Type ℓ} → Vcap → Drawn → List (DetBox Score) → Drawn × List (ℕ × ℕ)
overlay_boxes cap s boxes =
    let drawn = draw_boxes s cam_width cam_height boxes (pos osd_scale_x) (pos osd_scale_y) in
    (drawn, publish_each cap drawn.dirty 0 drawn.dirty.count)

-- Whether byte `a` is in one of the blocks.
abbrev pub in_blocks : List (ℕ × ℕ) → ℕ → Bool
in_blocks [] a = false
in_blocks (b ∷ blocks) a = (leb b.0 a && ltb a (b.0 + b.1)) || in_blocks blocks a

-- The memory that the encoder reads, after the cache has written these blocks of the frame back to it.
abbrev pub write_back : List (ℕ × ℕ) → (ℕ → ℕ) → (ℕ → ℕ) → ℕ → ℕ
write_back blocks frame memory a = if in_blocks blocks a then frame a else memory a

-- ===== src/Osd/Corners.antt =====
-- main/core/osd.c: `draw_corners` and `osd_draw_boxes_yuv420`. Box coordinates are integers of any
-- sign and do not overflow; after clipping they are natural numbers.
pub mod Rows
pub mod Clip
pub mod Tracks
pub mod Boxes
pub mod Meet
pub mod Marks
use esp32_ipc.Base.{ℕ, zero, suc, ◌+◌, ◌-◌, ◌/◌, ◌||◌, ltb, if◌then◌else◌, List, [], ◌∷◌}
use esp32_ipc.Base.Int.{ℤ, pos, pos_part, ◌-ℤ◌, ◌*ℤ◌, ltb_ℤ}
use esp32_ipc.Config.{osd_y, osd_u, osd_v, osd_thickness, osd_corner_len}
use esp32_ipc.Detect.Box.{DetBox}
use esp32_ipc.Osd.Dirty.{Dirty, add, reset}
use esp32_ipc.Osd.Draw.{Frame, draw_hrun, draw_vrun}

-- The clipped box: `cx1`, `cy1`, `cx2`, `cy2`.
pub record Clipped : Type 0 where
  pub cx1 : ℕ
  pub cy1 : ℕ
  pub cx2 : ℕ
  pub cy2 : ℕ

-- The frame and the dirty rows, which a drawing call changes.
pub record Drawn : Type 0 where
  pub frame : Frame
  pub dirty : Dirty

-- `if (arm > span / 2) arm = span / 2`
abbrev pub cap_arm : ℕ → ℕ → ℕ
cap_arm arm span = if ltb (span / 2) arm then span / 2 else arm

abbrev pub arm_of : Clipped → ℕ
arm_of b = cap_arm (cap_arm osd_corner_len (b.cx2 - b.cx1)) (b.cy2 - b.cy1)

-- `if (thick > arm) thick = arm`
abbrev pub thick_of : ℕ → ℕ
thick_of arm = if ltb arm osd_thickness then arm else osd_thickness

-- One pass of the loop over `t`: four horizontal runs and four vertical ones.
unfoldable pub stroke : Frame → ℕ → Clipped → ℕ → ℕ → Frame
stroke m stride b arm t =
    let top = b.cy1 + t in
    let bot = b.cy2 - t in
    let m1 = draw_hrun m stride top b.cx1 (b.cx1 + arm) osd_y osd_u osd_v in
    let m2 = draw_hrun m1 stride top (b.cx2 - arm) b.cx2 osd_y osd_u osd_v in
    let m3 = draw_hrun m2 stride bot b.cx1 (b.cx1 + arm) osd_y osd_u osd_v in
    let m4 = draw_hrun m3 stride bot (b.cx2 - arm) b.cx2 osd_y osd_u osd_v in
    let lft = b.cx1 + t in
    let rgt = b.cx2 - t in
    let m5 = draw_vrun m4 stride lft b.cy1 (b.cy1 + arm) osd_y osd_u osd_v in
    let m6 = draw_vrun m5 stride lft (b.cy2 - arm) b.cy2 osd_y osd_u osd_v in
    let m7 = draw_vrun m6 stride rgt b.cy1 (b.cy1 + arm) osd_y osd_u osd_v in
    draw_vrun m7 stride rgt (b.cy2 - arm) b.cy2 osd_y osd_u osd_v

-- `for (int t = 0; t < thick; ++t)`, on the `thick - t` rounds that are left.
unfoldable pub strokes : ℕ → Frame → ℕ → Clipped → ℕ → ℕ → Frame
strokes zero m stride b arm t = m
strokes (suc left) m stride b arm t = strokes left (stroke m stride b arm t) stride b arm (suc t)

-- `draw_corners` from the clipped coordinates on.
unfoldable pub draw_clipped : Drawn → ℕ → Clipped → Drawn
draw_clipped s width b =
    let arm = arm_of b in
    let thick = thick_of arm in
    if ltb arm 1 || ltb thick 1 then s else record {
      frame = strokes thick s.frame (width + width / 2) b arm 0;
      dirty = add (add s.dirty b.cy1 (b.cy1 + arm)) (b.cy2 - arm) b.cy2;
    }

abbrev pub clip_low : ℤ → ℤ
clip_low a = if ltb_ℤ a (pos 0) then pos 0 else a

abbrev pub clip_high : ℕ → ℤ → ℤ
clip_high n a = if ltb_ℤ (pos n -ℤ pos 1) a then pos n -ℤ pos 1 else a

-- `draw_corners` once `x1 <= x2` and `y1 <= y2`: clip, and return if nothing is left.
unfoldable pub draw_ordered : Drawn → ℕ → ℕ → ℤ → ℤ → ℤ → ℤ → Drawn
draw_ordered s width height x1 y1 x2 y2 =
    let cx1 = clip_low x1 in
    let cy1 = clip_low y1 in
    let cx2 = clip_high width x2 in
    let cy2 = clip_high height y2 in
    if ltb_ℤ cx2 cx1 || ltb_ℤ cy2 cy1
    then s
    else draw_clipped s width
        (record { cx1 = pos_part cx1; cy1 = pos_part cy1; cx2 = pos_part cx2; cy2 = pos_part cy2 })

abbrev pub lesser : ℤ → ℤ → ℤ
lesser a b = if ltb_ℤ b a then b else a

abbrev pub greater : ℤ → ℤ → ℤ
greater a b = if ltb_ℤ b a then a else b

-- `draw_corners`: the corners of a box in either order.
unfoldable pub draw_corners : Drawn → ℕ → ℕ → ℤ → ℤ → ℤ → ℤ → Drawn
draw_corners s width height x1 y1 x2 y2 =
    draw_ordered s width height (lesser x1 x2) (lesser y1 y2) (greater x1 x2) (greater y1 y2)

-- The loop of `osd_draw_boxes_yuv420`.
unfoldable pub draw_all {ℓ} : {Score : Type ℓ} → Drawn → ℕ → ℕ → List (DetBox Score) → ℤ → ℤ → Drawn
draw_all s width height [] scale_x scale_y = s
draw_all s width height (b ∷ bs) scale_x scale_y =
    draw_all
      (draw_corners s width height (b.x1 *ℤ scale_x) (b.y1 *ℤ scale_y) (b.x2 *ℤ scale_x)
        (b.y2 *ℤ scale_y))
      width height bs scale_x scale_y

-- `osd_draw_boxes_yuv420`
unfoldable pub draw_boxes {ℓ} :
    {Score : Type ℓ} → Drawn → ℕ → ℕ → List (DetBox Score) → ℤ → ℤ → Drawn
draw_boxes s width height boxes scale_x scale_y =
    draw_all (record s { dirty = reset s.dirty }) width height boxes scale_x scale_y

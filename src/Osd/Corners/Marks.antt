-- ===== src/Osd/Corners/Marks.antt =====
-- The picture that `osd_draw_boxes_yuv420` of main/core/osd.c draws, as a set of pixels: the corner
-- marks of the boxes, described without the runs and their order.
pub mod Strokes
pub mod Exact
use esp32_ipc.Base.{ℕ, ◌+◌, ◌-◌, Bool, false, ◌&&◌, ◌||◌, leb, ltb, if◌then◌else◌, List, [], ◌∷◌}
use esp32_ipc.Base.Int.{ℤ, pos_part, ◌*ℤ◌, ltb_ℤ}
use esp32_ipc.Detect.Box.{DetBox}
use esp32_ipc.Osd.Draw.Paint.{Pixels, between}
use esp32_ipc.Osd.Corners.{Clipped, arm_of, thick_of, clip_low, clip_high, lesser, greater}

-- Within `thick` of one end of `lo..hi`, and within `arm` steps of one end.
abbrev pub at_edge : ℕ → ℕ → ℕ → ℕ → Bool
at_edge lo hi thick v = (leb lo v && ltb v (lo + thick)) || (leb v hi && ltb hi (v + thick))

abbrev pub at_arms : ℕ → ℕ → ℕ → ℕ → Bool
at_arms lo hi arm v = between lo (lo + arm) v || between (hi - arm) hi v

-- The marks of a box whose strokes `t..t + thick - 1` are drawn.
abbrev pub marks_from : Clipped → ℕ → ℕ → ℕ → Pixels
marks_from b arm t thick x y =
    (at_edge (b.cy1 + t) (b.cy2 - t) thick y && at_arms b.cx1 b.cx2 arm x)
    || (at_edge (b.cx1 + t) (b.cx2 - t) thick x && at_arms b.cy1 b.cy2 arm y)

-- The pixels of the four L-shaped marks: near a horizontal edge and along one of its arms, or near
-- a vertical edge and along one of its arms.
abbrev pub corner_marks : Clipped → Pixels
corner_marks b x y =
    let arm = arm_of b in
    let thick = thick_of arm in
    (at_edge b.cy1 b.cy2 thick y && at_arms b.cx1 b.cx2 arm x)
    || (at_edge b.cx1 b.cx2 thick x && at_arms b.cy1 b.cy2 arm y)

-- The marks of a box with ordered corners, which may leave the frame.
abbrev pub clipped_marks : ℕ → ℕ → ℤ → ℤ → ℤ → ℤ → Pixels
clipped_marks width height x1 y1 x2 y2 x y =
    let left = clip_low x1 in
    let top = clip_low y1 in
    let right = clip_high width x2 in
    let bottom = clip_high height y2 in
    if ltb_ℤ right left || ltb_ℤ bottom top
    then false
    else corner_marks
        (record {
          cx1 = pos_part left;
          cy1 = pos_part top;
          cx2 = pos_part right;
          cy2 = pos_part bottom;
        })
        x y

-- The marks of a box with corners in any order.
abbrev pub box_marks : ℕ → ℕ → ℤ → ℤ → ℤ → ℤ → Pixels
box_marks width height x1 y1 x2 y2 =
    clipped_marks width height (lesser x1 x2) (lesser y1 y2) (greater x1 x2) (greater y1 y2)

-- The marks of any of the boxes.
unfoldable pub boxes_marks {ℓ} : {Score : Type ℓ} → ℕ → ℕ → List (DetBox Score) → ℤ → ℤ → Pixels
boxes_marks width height [] sx sy x y = false
boxes_marks width height (b ∷ bs) sx sy x y =
    box_marks width height (b.x1 *ℤ sx) (b.y1 *ℤ sy) (b.x2 *ℤ sx) (b.y2 *ℤ sy) x y
    || boxes_marks width height bs sx sy x y

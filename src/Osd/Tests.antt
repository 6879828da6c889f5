-- ===== src/Osd/Tests.antt =====
-- Drawing on a frame of 16 by 12 pixels, and the theorems at inputs that can be followed by hand.
use esp32_ipc.Base.{◌+◌, ◌*◌, ◌/◌, ◌≤◌, ◌≡◌, ◌↔◌, ◌⊎◌, if◌then◌else◌, refl, arith, List, [], ◌∷◌}
use esp32_ipc.Base.Int.{pos, ◌*ℤ◌, ◌-ℤ◌}
use esp32_ipc.Config.{osd_y, osd_u, osd_v}
use esp32_ipc.Detect.Box.{DetBox}
use esp32_ipc.Osd.Dirty.{Dirty, rows, add, reset, skip, absorb, place, shift_down, shift_up}
use esp32_ipc.Osd.Dirty.Search.{Within}
use esp32_ipc.Osd.Dirty.Cover.{Covered, IsValid, add-IsValid, Covered-add}
use esp32_ipc.Osd.Draw.{Frame, draw_hrun, draw_vrun, hrun_lead, hrun_groups, hrun_tail, vrun_rows}
use esp32_ipc.Osd.Draw.Paint.{owns, ink}
use esp32_ipc.Osd.Corners.{
  Drawn, draw_boxes, draw_all, draw_corners, draw_ordered, draw_clipped, strokes, stroke,
}
use esp32_ipc.Osd.Corners.Marks.{boxes_marks}
use esp32_ipc.Osd.Corners.Marks.Exact.{draw_boxes_paints}
use esp32_ipc.Osd.Corners.Boxes.{draw_boxes_same, draw_boxes_in_frame}

abbrev none_yet : Dirty
none_yet = record { count = 0; range = λ k. rows 0 0 }

abbrev top_rows : Dirty
top_rows = record { count = 1; range = λ k. rows 2 4 }

abbrev black : Frame
black a = 0

abbrev blank : Drawn
blank = record { frame = black; dirty = none_yet }

-- A box whose corners come in the other order, and which leaves the frame on the right.
abbrev boxes : List (DetBox (Unit {0}))
boxes = record { x1 = pos 20; y1 = pos 9; x2 = pos 4; y2 = pos 3; score = tt } ∷ []

-- What a run of the drawing calls computes with, by one name.
drawn : Drawn
unfolding draw_boxes draw_all draw_corners draw_ordered draw_clipped add skip absorb place
    shift_down shift_up reset ◌*ℤ◌ ◌-ℤ◌
drawn = draw_boxes blank 16 12 boxes (pos 1) (pos 1)

drawn_once : drawn.dirty.count ≡ 1
unfolding drawn
drawn_once = refl

drawn_range : drawn.dirty.range 0 ≡ rows 3 9
unfolding drawn
drawn_range = refl

add_abutting : (add top_rows 5 9).range 0 ≡ rows 2 9
unfolding add skip absorb place shift_down
add_abutting = refl

hrun_odd : draw_hrun black 24 1 3 6 76 84 255 (24 + 5) ≡ 76
unfolding draw_hrun hrun_lead hrun_groups hrun_tail
hrun_odd = refl

top_rows-IsValid : IsValid top_rows
top_rows-IsValid = record {
  small = omega arith;
  sorted = record { ordered = λ k h. omega arith; apart = λ k h. absurd (omega arith) };
}

add-IsValid_example : IsValid (add top_rows 5 9) × ((add top_rows 5 9).count ≤ 2)
add-IsValid_example = add-IsValid top_rows 5 9 top_rows-IsValid (omega arith) (omega arith)

Covered-add_example : Covered (add top_rows 5 9) 7 ↔ (Covered top_rows 7 ⊎ Within 5 9 7)
Covered-add_example = Covered-add top_rows 5 9 7 top_rows-IsValid (omega arith) (omega arith)

drawn_rows : Covered (draw_boxes blank 16 12 boxes (pos 1) (pos 1)).dirty 4
unfolding drawn
drawn_rows = (0, omega arith, omega arith)

row_two_free : ¬ Covered (draw_boxes blank 16 12 boxes (pos 1) (pos 1)).dirty (50 / (16 + 16 / 2))
unfolding drawn
row_two_free (k, h, w) = ground arith

draw_boxes_same_example : (draw_boxes blank 16 12 boxes (pos 1) (pos 1)).frame 50 ≡ 0
draw_boxes_same_example =
    draw_boxes_same blank 16 12 boxes (pos 1) (pos 1) 50 (omega arith) (omega arith) (omega arith)
      row_two_free

draw_boxes_in_frame_example : (draw_boxes blank 16 12 boxes (pos 1) (pos 1)).frame 300 ≡ 0
draw_boxes_in_frame_example =
    draw_boxes_in_frame blank 16 12 boxes (pos 1) (pos 1) 300 (omega arith) (omega arith)
      (omega arith) (omega arith)

-- The first luma of group 7 is column 14, which is on the upper right mark in row 4.
mark_luma : (draw_boxes blank 16 12 boxes (pos 1) (pos 1)).frame (4 * 24 + 22) ≡ osd_y
unfolding drawn strokes stroke draw_vrun vrun_rows draw_hrun hrun_tail hrun_groups hrun_lead
mark_luma = refl

draw_boxes_paints_example :
    (draw_boxes blank 16 12 boxes (pos 1) (pos 1)).frame (4 * (16 + 16 / 2) + 22) ≡ (
      if owns (boxes_marks 16 12 boxes (pos 1) (pos 1)) 4 22 then ink osd_y osd_u osd_v 4 22 else 0)
draw_boxes_paints_example =
    draw_boxes_paints blank 16 12 boxes (pos 1) (pos 1) 4 22 (omega arith) (omega arith)

-- ===== src/Osd/Corners/Meet.antt =====
-- The arms of the marks, and the boxes on which the two bands of `draw_corners` meet.
use esp32_ipc.Base.{ℕ, ◌+◌, ◌-◌, ◌*◌, ◌/◌, ◌≤◌, ◌≡◌, arith}
use esp32_ipc.Config.{osd_corner_len}
use esp32_ipc.Osd.Dirty.{rows, add}
use esp32_ipc.Osd.Dirty.Touch.{add_twice_touching}
use esp32_ipc.Osd.Corners.{Clipped, Drawn, arm_of, draw_clipped}

arm_small :
    (b : Clipped)
    → b.cy1 + 2 ≤ b.cy2
    → b.cy2 ≤ b.cy1 + (2 * osd_corner_len + 1)
    → b.cx1 + (b.cy2 - b.cy1) ≤ b.cx2
    → arm_of b ≡ (b.cy2 - b.cy1) / 2
arm_small b h k w = ground arith

draw_clipped-dirty :
    (s : Drawn) (width : ℕ) (b : Clipped)
    → 1 ≤ arm_of b
    → (draw_clipped s width b).dirty
      ≡ add (add s.dirty b.cy1 (b.cy1 + arm_of b)) (b.cy2 - arm_of b) b.cy2
unfolding draw_clipped
draw_clipped-dirty s width b h = ground arith

-- A box that is at least 2 and at most 97 rows from top to bottom and no narrower than tall, drawn
-- on an empty dirty list, makes one range that goes from its top row to its bottom row: its two
-- bands meet in the middle.
pub small_box_merges :
    (s : Drawn) (width : ℕ) (b : Clipped)
    → s.dirty.count ≡ 0
    → b.cy1 + 2 ≤ b.cy2
    → b.cy2 ≤ b.cy1 + (2 * osd_corner_len + 1)
    → b.cx1 + (b.cy2 - b.cy1) ≤ b.cx2
    → let d = (draw_clipped s width b).dirty in (d.count ≡ 1) × (d.range 0 ≡ rows b.cy1 b.cy2)
small_box_merges s width b e h k w =
    let arm = arm_small b h k w in
    rw (draw_clipped-dirty s width b (omega (arith, arm))) (
      add_twice_touching s.dirty b.cy1 (b.cy1 + arm_of b) (b.cy2 - arm_of b) b.cy2 e
        (omega (arith, arm)) (omega (arith, arm)) (omega arith) (omega (arith, arm)))

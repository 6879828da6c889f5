-- ===== src/Osd/Corners/Marks/Strokes.antt =====
-- The strokes of `draw_corners` in main/core/osd.c paint the marks of a clipped box.
use esp32_ipc.Base.{
  ℕ, zero, suc, ◌+◌, ◌-◌, ◌*◌, ◌/◌, ◌≤◌, ◌<◌, ◌≡◌, refl, arith, Bool, false, ◌&&◌, ◌||◌,
}
use esp32_ipc.Config.{osd_y, osd_u, osd_v}
use esp32_ipc.Osd.Draw.{Frame, draw_hrun, draw_vrun}
use esp32_ipc.Osd.Draw.Paint.{
  Pixels, Paints, between, rect, both, Paints-then, Paints-cong, Paints-none, draw_hrun-Paints,
  draw_vrun-Paints,
}
use esp32_ipc.Osd.Corners.{Clipped, stroke, strokes}
use esp32_ipc.Osd.Corners.Rows.{Fits}
use esp32_ipc.Osd.Corners.Marks.{at_edge, at_arms, marks_from}

-- The pixels of the eight runs of one stroke, in the order of the calls.
abbrev stroke_pixels : Clipped → ℕ → ℕ → Pixels
stroke_pixels b arm t =
    let top = b.cy1 + t in
    let bot = b.cy2 - t in
    let lft = b.cx1 + t in
    let rgt = b.cx2 - t in
    let above = both (rect b.cx1 (b.cx1 + arm) top top) (rect (b.cx2 - arm) b.cx2 top top) in
    let below = both (rect b.cx1 (b.cx1 + arm) bot bot) (rect (b.cx2 - arm) b.cx2 bot bot) in
    let before = both (rect lft lft b.cy1 (b.cy1 + arm)) (rect lft lft (b.cy2 - arm) b.cy2) in
    let after = both (rect rgt rgt b.cy1 (b.cy1 + arm)) (rect rgt rgt (b.cy2 - arm) b.cy2) in
    both (both above below) (both before after)

edge_more :
    (lo hi t thick v : ℕ)
    → t < hi
    → at_edge (lo + t) (hi - t) (suc thick) v ≡ (
        (between (lo + t) (lo + t) v || between (hi - t) (hi - t) v)
        || at_edge (lo + suc t) (hi - suc t) thick v)
edge_more lo hi t thick v h = ground arith

half :
    (one two near far : Bool)
    → (((one && near) || (one && far)) || ((two && near) || (two && far)))
      ≡ ((one || two) && (near || far))
half one two near far = ground arith

half_down :
    (one two near far : Bool)
    → (((near && one) || (far && one)) || ((near && two) || (far && two)))
      ≡ ((one || two) && (near || far))
half_down one two near far = ground arith

pub edge_none : (lo hi v : ℕ) → at_edge lo hi 0 v ≡ false
edge_none lo hi v = ground arith

distribute :
    (e e' a f f' c : Bool)
    → (((e && a) || (f && c)) || ((e' && a) || (f' && c))) ≡ (((e || e') && a) || ((f || f') && c))
distribute e e' a f f' c = ground arith

module _ (stride : ℕ) where
  abbrev pub Marks : Pixels → Frame → Frame → Type 0
  Marks = Paints stride osd_y osd_u osd_v

  pub and_then :
      (p q : Pixels) (m m' m'' : Frame) → Marks p m m' → Marks q m' m'' → Marks (both p q) m m''
  and_then = Paints-then stride osd_y osd_u osd_v

  hrun :
      (m : Frame) (y x1 x2 : ℕ)
      → x2 / 2 * 3 + 2 < stride
      → x1 ≤ x2
      → Marks (rect x1 x2 y y) m (draw_hrun m stride y x1 x2 osd_y osd_u osd_v)
  hrun = draw_hrun-Paints stride osd_y osd_u osd_v

  vrun :
      (m : Frame) (x y1 y2 : ℕ)
      → x / 2 * 3 + 2 < stride
      → Marks (rect x x y1 y2) m (draw_vrun m stride x y1 y2 osd_y osd_u osd_v)
  vrun = draw_vrun-Paints stride osd_y osd_u osd_v

module _ (stride height : ℕ) (b : Clipped) (arm : ℕ) (fit : Fits stride height b arm) where
  stroke-Paints :
      (m : Frame) (t : ℕ)
      → t < arm
      → Marks stride (stroke_pixels b arm t) m (stroke m stride b arm t)
  unfolding stroke
  stroke-Paints m t h =
      and_then stride _ _ _ _ _
        (and_then stride _ _ _ _ _
          (and_then stride _ _ _ _ _ (hrun stride _ _ _ _ (omega arith) (omega arith))
            (hrun stride _ _ _ _ (omega arith) (omega arith)))
          (and_then stride _ _ _ _ _ (hrun stride _ _ _ _ (omega arith) (omega arith))
            (hrun stride _ _ _ _ (omega arith) (omega arith))))
        (and_then stride _ _ _ _ _
          (and_then stride _ _ _ _ _ (vrun stride _ _ _ _ (omega arith))
            (vrun stride _ _ _ _ (omega arith)))
          (and_then stride _ _ _ _ _ (vrun stride _ _ _ _ (omega arith))
            (vrun stride _ _ _ _ (omega arith))))

  one_more :
      (t thick x y : ℕ)
      → t < arm
      → both (stroke_pixels b arm t) (marks_from b arm (suc t) thick) x y
        ≡ marks_from b arm t (suc thick) x y
  one_more t thick x y h =
      rw
        (
          edge_more b.cy1 b.cy2 t thick y (omega (arith, fit.tall)),
          edge_more b.cx1 b.cx2 t thick x (omega (arith, fit.wide)),
          half (between (b.cy1 + t) (b.cy1 + t) y) (between (b.cy2 - t) (b.cy2 - t) y)
              (between b.cx1 (b.cx1 + arm) x) (between (b.cx2 - arm) b.cx2 x),
          half_down (between (b.cx1 + t) (b.cx1 + t) x) (between (b.cx2 - t) (b.cx2 - t) x)
              (between b.cy1 (b.cy1 + arm) y) (between (b.cy2 - arm) b.cy2 y),
        )
        (distribute (between (b.cy1 + t) (b.cy1 + t) y || between (b.cy2 - t) (b.cy2 - t) y)
          (at_edge (b.cy1 + suc t) (b.cy2 - suc t) thick y) (at_arms b.cx1 b.cx2 arm x)
          (between (b.cx1 + t) (b.cx1 + t) x || between (b.cx2 - t) (b.cx2 - t) x)
          (at_edge (b.cx1 + suc t) (b.cx2 - suc t) thick x) (at_arms b.cy1 b.cy2 arm y))

  pub strokes-Paints :
      (thick : ℕ) (m : Frame) (t : ℕ)
      → t + thick ≤ arm
      → Marks stride (marks_from b arm t thick) m (strokes thick m stride b arm t)
  unfolding strokes
  strokes-Paints zero m t h =
      Paints-cong stride osd_y osd_u osd_v _ _ m m
        (λ x y. rw (edge_none (b.cy1 + t) (b.cy2 - t) y, edge_none (b.cx1 + t) (b.cx2 - t) x) refl)
        (Paints-none stride osd_y osd_u osd_v m)
  strokes-Paints (suc thick) m t h =
      Paints-cong stride osd_y osd_u osd_v _ _ m _ (λ x y. one_more t thick x y (omega arith))
        (and_then stride _ _ _ _ _ (stroke-Paints m t (omega arith))
          (strokes-Paints thick (stroke m stride b arm t) (suc t) (omega arith)))

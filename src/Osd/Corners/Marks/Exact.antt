-- ===== src/Osd/Corners/Marks/Exact.antt =====
-- `osd_draw_boxes_yuv420` of main/core/osd.c paints the marks of the boxes and nothing else.
use esp32_ipc.Base.{
  ℕ, ◌+◌, ◌-◌, ◌*◌, ◌/◌, ◌%◌, ◌≤◌, ◌<◌, ◌≡◌, inl, inr, refl, arith, sym, ap, ap₂, ◌∙◌, false, ◌&&◌,
  ◌||◌, ltb, if◌then◌else◌, Bool-cases, List, [], ◌∷◌,
}
use esp32_ipc.Base.Int.{ℤ, ◌*ℤ◌, ltb_ℤ}
use esp32_ipc.Config.{osd_y, osd_u, osd_v}
use esp32_ipc.Detect.Box.{DetBox}
use esp32_ipc.Osd.Dirty.{reset}
use esp32_ipc.Osd.Draw.{Frame}
use esp32_ipc.Osd.Draw.Paint.{Pixels, owns, ink, Paints-cong, Paints-none}
use esp32_ipc.Osd.Corners.{
  Clipped, Drawn, arm_of, thick_of, draw_clipped, draw_ordered, draw_corners, draw_all, draw_boxes,
  clip_low, clip_high, lesser, greater,
}
use esp32_ipc.Osd.Corners.Clip.{IsClipped, arm-Fits, clip_axis, or-false}
use esp32_ipc.Osd.Corners.Marks.{
  at_edge, at_arms, marks_from, corner_marks, clipped_marks, box_marks, boxes_marks,
}
use esp32_ipc.Osd.Corners.Marks.Strokes.{Marks, and_then, strokes-Paints, edge_none}

corner_marks-none : (b : Clipped) (x y : ℕ) → thick_of (arm_of b) ≡ 0 → corner_marks b x y ≡ false
corner_marks-none b x y h =
    ap₂ (λ e f. (e && at_arms b.cx1 b.cx2 (arm_of b) x) || (f && at_arms b.cy1 b.cy2 (arm_of b) y))
      (ap (λ k. at_edge b.cy1 b.cy2 k y) h ∙ edge_none b.cy1 b.cy2 y)
      (ap (λ k. at_edge b.cx1 b.cx2 k x) h ∙ edge_none b.cx1 b.cx2 x)

edge_zero : (lo hi thick v : ℕ) → at_edge (lo + 0) (hi - 0) thick v ≡ at_edge lo hi thick v
edge_zero lo hi thick v = ground arith

marks_from-zero :
    (b : Clipped) (x y : ℕ)
    → marks_from b (arm_of b) 0 (thick_of (arm_of b)) x y ≡ corner_marks b x y
marks_from-zero b x y =
    ap₂ (λ e f. (e && at_arms b.cx1 b.cx2 (arm_of b) x) || (f && at_arms b.cy1 b.cy2 (arm_of b) y))
      (edge_zero b.cy1 b.cy2 (thick_of (arm_of b)) y)
      (edge_zero b.cx1 b.cx2 (thick_of (arm_of b)) x)

module _ (width height : ℕ) (even : width % 2 ≡ 0) where
  abbrev bytes : ℕ
  bytes = width + width / 2

  nothing : (m : Frame) (p : Pixels) → ((x y : ℕ) → false ≡ p x y) → Marks bytes p m m
  nothing m p e =
      Paints-cong bytes osd_y osd_u osd_v _ p m m e (Paints-none bytes osd_y osd_u osd_v m)

  draw_clipped-Paints :
      (s : Drawn) (b : Clipped)
      → IsClipped width height b
      → Marks bytes (corner_marks b) s.frame (draw_clipped s width b).frame
  unfolding draw_clipped
  draw_clipped-Paints s b c = elim (Bool-cases (ltb (arm_of b) 1 || ltb (thick_of (arm_of b)) 1)) [
    | inl small ↦
        let none : thick_of (arm_of b) ≡ 0 = ground arith in
        rw small (nothing s.frame (corner_marks b) (λ x y. sym (corner_marks-none b x y none)))
    | inr drawn ↦
        let thin : thick_of (arm_of b) ≤ arm_of b = ground arith in
        rw drawn (
          Paints-cong bytes osd_y osd_u osd_v _ _ s.frame _ (λ x y. marks_from-zero b x y)
            (strokes-Paints bytes height b (arm_of b) (arm-Fits width height b even c)
              (thick_of (arm_of b)) s.frame 0 (omega (arith, thin))))
  ]

  draw_ordered-Paints :
      (s : Drawn) (x1 y1 x2 y2 : ℤ)
      → Marks bytes
          (clipped_marks width height x1 y1 x2 y2)
          s.frame
          (draw_ordered s width height x1 y1 x2 y2).frame
  unfolding draw_ordered
  draw_ordered-Paints s x1 y1 x2 y2 =
      elim (Bool-cases
        (ltb_ℤ (clip_high width x2) (clip_low x1) || ltb_ℤ (clip_high height y2) (clip_low y1))) [
          | inl gone ↦
              rw gone
                (nothing s.frame (clipped_marks width height x1 y1 x2 y2) (λ x y. rw gone refl))
          | inr left ↦
              let (across, down) = or-false _ _ left in
              let (p, q) = clip_axis width x1 x2 across in
              let (p', q') = clip_axis height y1 y2 down in
              rw left (
                Paints-cong bytes osd_y osd_u osd_v _ (clipped_marks width height x1 y1 x2 y2)
                  s.frame _ (λ x y. rw left refl) (draw_clipped-Paints s _ (p, p', q, q')))
        ]

  draw_corners-Paints :
      (s : Drawn) (x1 y1 x2 y2 : ℤ)
      → Marks bytes
          (box_marks width height x1 y1 x2 y2)
          s.frame
          (draw_corners s width height x1 y1 x2 y2).frame
  unfolding draw_corners
  draw_corners-Paints s x1 y1 x2 y2 =
      draw_ordered-Paints s (lesser x1 x2) (lesser y1 y2) (greater x1 x2) (greater y1 y2)

  draw_all-Paints {ℓ} :
      {Score : Type ℓ} (s : Drawn) (bs : List (DetBox Score)) (sx sy : ℤ)
      → Marks bytes
          (boxes_marks width height bs sx sy)
          s.frame
          (draw_all s width height bs sx sy).frame
  unfolding draw_all boxes_marks
  draw_all-Paints s [] sx sy = nothing s.frame _ (λ x y. refl)
  draw_all-Paints s (b ∷ bs) sx sy =
      let s' = draw_corners s width height (b.x1 *ℤ sx) (b.y1 *ℤ sy) (b.x2 *ℤ sx) (b.y2 *ℤ sy) in
      and_then bytes _ _ s.frame s'.frame _
        (draw_corners-Paints s (b.x1 *ℤ sx) (b.y1 *ℤ sy) (b.x2 *ℤ sx) (b.y2 *ℤ sy))
        (draw_all-Paints s' bs sx sy)

-- On a frame of even width, `osd_draw_boxes_yuv420` paints exactly the marks of the boxes: a byte of
-- a line gets the mark's luma, or the mark's U on even lines and V on odd lines, if it belongs to a
-- pixel of a mark of some box, and it keeps its value if it belongs to none. The marks of a box are
-- the pixels of the clipped box within the thickness of a horizontal edge and on one of its arms,
-- or within the thickness of a vertical edge and on one of its arms.
pub draw_boxes_paints {ℓ} :
    {Score : Type ℓ} (s : Drawn) (width height : ℕ) (bs : List (DetBox Score)) (sx sy : ℤ) (y o : ℕ)
    → width % 2 ≡ 0
    → o < width + width / 2
    → (draw_boxes s width height bs sx sy).frame (y * (width + width / 2) + o) ≡ (
        if owns (boxes_marks width height bs sx sy) y o
        then ink osd_y osd_u osd_v y o
        else s.frame (y * (width + width / 2) + o))
unfolding draw_boxes
draw_boxes_paints s width height bs sx sy y o even h =
    (draw_all-Paints width height even (record s { dirty = reset s.dirty }) bs sx sy).bytes y o h

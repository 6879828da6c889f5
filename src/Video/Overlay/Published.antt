-- ===== src/Video/Overlay/Published.antt =====
-- What is written back is all that was drawn.
use esp32_ipc.Base.{
  Bool-cases, false, refl, ℕ, zero, suc, ◌+◌, ◌/◌, ◌≤◌, ◌<◌, ◌≡◌, ◌⊎◌, inl, inr, arith, Option,
  none, some, List, [], ◌∷◌, length, subst, sym, ℕ_discrete,
}
use esp32_ipc.Base.Int.{pos}
use esp32_ipc.Config.{cam_width, cam_height, det_max_box}
use esp32_ipc.Detect.Box.{DetBox}
use esp32_ipc.Hal.Vcap.{Vcap}
use esp32_ipc.Hal.Vcap.Publish.{publish_rows_covers}
use esp32_ipc.Osd.Dirty.{Dirty}
use esp32_ipc.Osd.Dirty.Cover.{Covered}
use esp32_ipc.Osd.Corners.{Drawn, draw_boxes}
use esp32_ipc.Osd.Corners.Boxes.{draw_boxes_same, draw_boxes_inside}
use esp32_ipc.Video.Overlay.{
  also, publish_each, overlay_boxes, in_blocks, write_back, osd_scale_x, osd_scale_y,
}

-- Byte `a` is in one of the blocks.
abbrev pub InBlocks : List (ℕ × ℕ) → ℕ → Type 0
InBlocks [] a = ⊥
InBlocks (b ∷ blocks) a = ((b.0 ≤ a) × (a < b.0 + b.1)) ⊎ InBlocks blocks a

InBlocks-also :
    (o : Option (ℕ × ℕ)) (blocks : List (ℕ × ℕ)) (a : ℕ)
    → InBlocks blocks a
    → InBlocks (also o blocks) a
InBlocks-also none blocks a h = h
InBlocks-also (some b) blocks a h = inr h

-- A byte in a row of one of the ranges is written back.
publish_each_covers :
    (cap : Vcap) (dirty : Dirty) (i left k a : ℕ)
    → 0 < cap.stride
    → a / cap.stride < cap.height
    → i ≤ k
    → k < i + left
    → (dirty.range k).first ≤ a / cap.stride
    → a / cap.stride ≤ (dirty.range k).last
    → InBlocks (publish_each cap dirty i left) a
unfolding publish_each
publish_each_covers cap dirty i zero k a wide inside low high first last = absurd (omega arith)
publish_each_covers cap dirty i (suc left) k a wide inside low high first last =
    elim (ℕ_discrete i k) [
      | yes same ↦
          let (offset, size, e, start, end) =
            publish_rows_covers cap (dirty.range i).first (dirty.range i).last a wide
              (rw same first) (rw same last) inside in
          rw e (inl (start, end))
      | no apart ↦ InBlocks-also _ _ a (
          publish_each_covers cap dirty (suc i) left k a wide inside (omega arith) (omega arith)
            first last)
    ]

Covered-InBlocks :
    (cap : Vcap) (dirty : Dirty) (a : ℕ)
    → 0 < cap.stride
    → Covered dirty (a / cap.stride)
    → a / cap.stride < cap.height
    → InBlocks (publish_each cap dirty 0 dirty.count) a
Covered-InBlocks cap dirty a wide (k, h, within) inside =
    publish_each_covers cap dirty 0 dirty.count k a wide inside (omega arith) (omega arith) within.0
      within.1

-- On a capture device of the camera's geometry and at most `DET_MAX_BOX` boxes, a byte that
-- `overlay_boxes` does not write back keeps its value.
pub overlay_boxes_same {ℓ} :
    {Score : Type ℓ} (cap : Vcap) (s : Drawn) (boxes : List (DetBox Score)) (a : ℕ)
    → cap.height ≡ cam_height
    → cap.stride ≡ cam_width + cam_width / 2
    → length boxes ≤ det_max_box
    → ¬ InBlocks (overlay_boxes cap s boxes).1 a
    → (overlay_boxes cap s boxes).0.frame a ≡ s.frame a
unfolding overlay_boxes
overlay_boxes_same cap s boxes a tall wide few out =
    draw_boxes_same s cam_width cam_height boxes (pos osd_scale_x) (pos osd_scale_y) a (omega arith)
      (omega arith) few
      (λ c. out (
        Covered-InBlocks cap
          (draw_boxes s cam_width cam_height boxes (pos osd_scale_x) (pos osd_scale_y)).dirty a
          (omega arith)
          (subst
            (λ n.
              Covered
                (draw_boxes s cam_width cam_height boxes (pos osd_scale_x) (pos osd_scale_y)).dirty
                (a / n))
            (sym wide) c)
          (rw (wide, tall)
            (draw_boxes_inside s cam_width cam_height boxes (pos osd_scale_x) (pos osd_scale_y) _
              (omega arith) few c))))

not_in_blocks : (blocks : List (ℕ × ℕ)) (a : ℕ) → in_blocks blocks a ≡ false → ¬ InBlocks blocks a
not_in_blocks [] a e h = h
not_in_blocks (b ∷ blocks) a e (inl (low, high)) = ground arith
not_in_blocks (b ∷ blocks) a e (inr h) = not_in_blocks blocks a (ground arith) h

-- The memory then holds what was drawn, also where nothing was written back.
pub written_back_all {ℓ} :
    {Score : Type ℓ} (cap : Vcap) (s : Drawn) (boxes : List (DetBox Score)) (a : ℕ)
    → cap.height ≡ cam_height
    → cap.stride ≡ cam_width + cam_width / 2
    → length boxes ≤ det_max_box
    → write_back (overlay_boxes cap s boxes).1 (overlay_boxes cap s boxes).0.frame s.frame a
      ≡ (overlay_boxes cap s boxes).0.frame a
written_back_all cap s boxes a tall wide few =
    elim (Bool-cases (in_blocks (overlay_boxes cap s boxes).1 a)) [
      | inl within ↦ rw within refl
      | inr out ↦
          rw out (sym (overlay_boxes_same cap s boxes a tall wide few (not_in_blocks _ a out)))
    ]

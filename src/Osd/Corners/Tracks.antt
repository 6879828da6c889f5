-- ===== src/Osd/Corners/Tracks.antt =====
-- What a pass of `osd_draw_boxes_yuv420` in main/core/osd.c keeps true of the frame and the dirty list.
use esp32_ipc.Base.{
  ℕ, suc, ◌+◌, ◌-◌, ◌*◌, ◌/◌, ◌%◌, ◌≤◌, ◌<◌, ◌≡◌, ◌⊎◌, ◌↔◌, inl, inr, refl, arith, ◌||◌, ltb,
  Bool-cases, ◌∙◌, subst, List, [], ◌∷◌, length,
}
use esp32_ipc.Base.Int.{ℤ, ◌*ℤ◌, ltb_ℤ}
use esp32_ipc.Config.{det_max_box}
use esp32_ipc.Detect.Box.{DetBox}
use esp32_ipc.Osd.Draw.{Frame}
use esp32_ipc.Osd.Draw.Apart.{SameAt}
use esp32_ipc.Osd.Dirty.{Dirty, add, reset, max_dirty_ranges}
use esp32_ipc.Osd.Dirty.Search.{Within}
use esp32_ipc.Osd.Dirty.Cover.{
  Covered, IsValid, reset-IsValid, count-reset, add-IsValid, Covered-add,
}
use esp32_ipc.Osd.Corners.{
  Clipped, Drawn, arm_of, thick_of, strokes, draw_clipped, draw_ordered, draw_corners, draw_all,
  draw_boxes, clip_low, clip_high, lesser, greater,
}
use esp32_ipc.Osd.Corners.Rows.{Fits, strokes-SameAt}
use esp32_ipc.Osd.Corners.Clip.{IsClipped, arm-Fits, clip_axis, or-false}

-- `d` covers what `c` covers and the rows `f..l`.
add_twice :
    (d : Dirty) (f l g k y : ℕ)
    → IsValid d
    → suc d.count < max_dirty_ranges
    → f ≤ l
    → g ≤ k
    → Covered (add (add d f l) g k) y ↔ (Covered d y ⊎ (Within f l y ⊎ Within g k y))
add_twice d f l g k y v room h h' =
    let (valid, grown) = add-IsValid d f l v (omega arith) h in
    let first = Covered-add d f l y v (omega arith) h in
    let second = Covered-add (add d f l) g k y valid (omega arith) h' in
    (
      λ c. elim (second.0 c) [
        | inl old ↦ elim (first.0 old) [ inl older ↦ inl older | inr w ↦ inr (inl w) ]
        | inr w ↦ inr (inr w)
      ],
      λ c. elim c [
        | inl old ↦ second.1 (inl (first.1 (inl old)))
        | inr w ↦ elim w [ inl a ↦ second.1 (inl (first.1 (inr a))) | inr b ↦ second.1 (inr b) ]
      ],
    )

-- What a pass over the boxes keeps, after `n` of them, from the frame `m` on.
pub record Tracks (stride height : ℕ) (m : Frame) (n : ℕ) (s : Drawn) : Type 0 where
  pub valid : IsValid s.dirty
  pub few : s.dirty.count ≤ 2 * n
  pub inside : (y : ℕ) → Covered s.dirty y → y < height
  pub same : (y o : ℕ) → o < stride → ¬ Covered s.dirty y → SameAt stride m s.frame y o

module _ (width height : ℕ) (m : Frame) (even : width % 2 ≡ 0) where
  abbrev stride : ℕ
  stride = width + width / 2

  Tracks-suc : (n : ℕ) (s : Drawn) → Tracks stride height m n s → Tracks stride height m (suc n) s
  Tracks-suc n s t = record {
    valid = t.valid;
    few = omega (arith, t.few);
    inside = t.inside;
    same = t.same;
  }

  Tracks-strokes :
      (n : ℕ) (s : Drawn) (b : Clipped) (arm thick : ℕ)
      → n < det_max_box
      → thick ≤ arm
      → Fits stride height b arm
      → Tracks stride height m n s
      → Tracks stride height m (suc n) (record {
        frame = strokes thick s.frame stride b arm 0;
        dirty = add (add s.dirty b.cy1 (b.cy1 + arm)) (b.cy2 - arm) b.cy2;
      })
  Tracks-strokes n s b arm thick room h fit t =
      let (valid, grown) =
        add-IsValid s.dirty b.cy1 (b.cy1 + arm) t.valid (omega (arith, t.few)) (omega arith) in
      let (valid', grown') =
        add-IsValid _ (b.cy2 - arm) b.cy2 valid (omega (arith, t.few)) (omega arith) in
      let rows = λ (y : ℕ).
        add_twice s.dirty b.cy1 (b.cy1 + arm) (b.cy2 - arm) b.cy2 y t.valid (omega (arith, t.few))
          (omega arith) (omega arith) in
      record {
        valid = valid';
        few = omega (arith, t.few);
        inside = λ y c. elim ((rows y).0 c) [
          | inl old ↦ t.inside y old
          | inr new ↦ omega (arith, fit.row, fit.tall)
        ];
        same = λ y o k out.
            strokes-SameAt stride height b arm fit thick s.frame 0 y o (omega arith) k
              (λ w. out ((rows y).1 (inr w)))
            ∙ t.same y o k (λ c. out ((rows y).1 (inl c)));
      }

  Tracks-clipped :
      (n : ℕ) (s : Drawn) (b : Clipped)
      → n < det_max_box
      → IsClipped width height b
      → Tracks stride height m n s
      → Tracks stride height m (suc n) (draw_clipped s width b)
  unfolding draw_clipped
  Tracks-clipped n s b room c t =
      elim (Bool-cases (ltb (arm_of b) 1 || ltb (thick_of (arm_of b)) 1)) [
        | inl small ↦ rw small (Tracks-suc n s t)
        | inr drawn ↦ rw drawn (
            Tracks-strokes n s b (arm_of b) (thick_of (arm_of b)) room (ground arith)
              (arm-Fits width height b even c) t)
      ]

  Tracks-ordered :
      (n : ℕ) (s : Drawn) (x1 y1 x2 y2 : ℤ)
      → n < det_max_box
      → Tracks stride height m n s
      → Tracks stride height m (suc n) (draw_ordered s width height x1 y1 x2 y2)
  unfolding draw_ordered
  Tracks-ordered n s x1 y1 x2 y2 room t =
      elim (Bool-cases
        (ltb_ℤ (clip_high width x2) (clip_low x1) || ltb_ℤ (clip_high height y2) (clip_low y1))) [
          | inl gone ↦ rw gone (Tracks-suc n s t)
          | inr left ↦
              let (across, down) = or-false _ _ left in
              let (p, q) = clip_axis width x1 x2 across in
              let (p', q') = clip_axis height y1 y2 down in
              rw left (Tracks-clipped n s _ room (p, p', q, q') t)
        ]

  Tracks-corners :
      (n : ℕ) (s : Drawn) (x1 y1 x2 y2 : ℤ)
      → n < det_max_box
      → Tracks stride height m n s
      → Tracks stride height m (suc n) (draw_corners s width height x1 y1 x2 y2)
  unfolding draw_corners
  Tracks-corners n s x1 y1 x2 y2 room t =
      Tracks-ordered n s (lesser x1 x2) (lesser y1 y2) (greater x1 x2) (greater y1 y2) room t

  Tracks-all {ℓ} :
      {Score : Type ℓ} (n : ℕ) (s : Drawn) (bs : List (DetBox Score)) (sx sy : ℤ)
      → n + length bs ≤ det_max_box
      → Tracks stride height m n s
      → Tracks stride height m (n + length bs) (draw_all s width height bs sx sy)
  unfolding draw_all
  Tracks-all n s [] sx sy h t = subst (λ k. Tracks stride height m k s) (omega arith) t
  Tracks-all n s (b ∷ bs) sx sy h t =
      let s' = draw_corners s width height (b.x1 *ℤ sx) (b.y1 *ℤ sy) (b.x2 *ℤ sx) (b.y2 *ℤ sy) in
      let e : suc n + length bs ≡ n + suc (length bs) = omega arith in
      subst (λ k. Tracks stride height m k (draw_all s' width height bs sx sy)) e
        (Tracks-all (suc n) s' bs sx sy (omega arith)
          (Tracks-corners n s (b.x1 *ℤ sx) (b.y1 *ℤ sy) (b.x2 *ℤ sx) (b.y2 *ℤ sy) (omega arith) t))

no_rows : (d : Dirty) (y : ℕ) → ¬ Covered (reset d) y
no_rows d y (k, h, w) = omega (arith, count-reset d)

pub draw_boxes-Tracks {ℓ} :
    {Score : Type ℓ} (s : Drawn) (width height : ℕ) (bs : List (DetBox Score)) (sx sy : ℤ)
    → width % 2 ≡ 0
    → length bs ≤ det_max_box
    → Tracks (width + width / 2) height s.frame (length bs) (draw_boxes s width height bs sx sy)
unfolding draw_boxes
draw_boxes-Tracks s width height bs sx sy even h =
    let e : 0 + length bs ≡ length bs = omega arith in
    subst (λ k. Tracks (width + width / 2) height s.frame k (draw_boxes s width height bs sx sy)) e
      (Tracks-all width height s.frame even 0 (record s { dirty = reset s.dirty }) bs sx sy
        (omega arith)
        (record {
          valid = reset-IsValid s.dirty;
          few = omega (arith, count-reset s.dirty);
          inside = λ y c. absurd (no_rows s.dirty y c);
          same = λ y o k out. refl;
        }))

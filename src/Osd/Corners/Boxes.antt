-- ===== src/Osd/Corners/Boxes.antt =====
-- `osd_draw_boxes_yuv420`: the dirty list reports every line that was written, and no byte outside
-- the frame is.
use esp32_ipc.Base.{ℕ, ◌+◌, ◌*◌, ◌/◌, ◌%◌, ◌≤◌, ◌<◌, ◌≡◌, arith, subst, List, length}
use esp32_ipc.Base.Int.{ℤ}
use native.Mathlib.Nat.{mod-lt, div-add-mod', le-div_iff_mul-le}
use esp32_ipc.Config.{det_max_box}
use esp32_ipc.Detect.Box.{DetBox}
use esp32_ipc.Osd.Dirty.Cover.{Covered, IsValid}
use esp32_ipc.Osd.Corners.{Drawn, draw_boxes}
use esp32_ipc.Osd.Corners.Tracks.{draw_boxes-Tracks}

-- After drawing at most `DET_MAX_BOX` boxes on a frame of even width, the dirty list is sorted, its
-- ranges neither overlap nor abut, it fits its array, and it has two ranges a box at most.
pub draw_boxes-IsValid {ℓ} :
    {Score : Type ℓ} (s : Drawn) (width height : ℕ) (bs : List (DetBox Score)) (sx sy : ℤ)
    → width % 2 ≡ 0
    → length bs ≤ det_max_box
    → let d = (draw_boxes s width height bs sx sy).dirty in IsValid d × (d.count ≤ 2 * length bs)
draw_boxes-IsValid s width height bs sx sy even h =
    let t = draw_boxes-Tracks s width height bs sx sy even h in (t.valid, t.few)

-- Every row that the dirty list covers after drawing at most `DET_MAX_BOX` boxes on a frame of even
-- width is a row of the frame.
pub draw_boxes_inside {ℓ} :
    {Score : Type ℓ} (s : Drawn) (width height : ℕ) (bs : List (DetBox Score)) (sx sy : ℤ) (y : ℕ)
    → width % 2 ≡ 0
    → length bs ≤ det_max_box
    → Covered (draw_boxes s width height bs sx sy).dirty y
    → y < height
draw_boxes_inside s width height bs sx sy y even h =
    (draw_boxes-Tracks s width height bs sx sy even h).inside y

-- Drawing at most `DET_MAX_BOX` boxes on a frame of even and positive width leaves every byte of the
-- buffer alone whose row the dirty list does not cover.
pub draw_boxes_same {ℓ} :
    {Score : Type ℓ} (s : Drawn) (width height : ℕ) (bs : List (DetBox Score)) (sx sy : ℤ) (a : ℕ)
    → width % 2 ≡ 0
    → 0 < width
    → length bs ≤ det_max_box
    → ¬ Covered (draw_boxes s width height bs sx sy).dirty (a / (width + width / 2))
    → (draw_boxes s width height bs sx sy).frame a ≡ s.frame a
draw_boxes_same s width height bs sx sy a even wide h out =
    let t = draw_boxes-Tracks s width height bs sx sy even h in
    let n = width + width / 2 in
    subst (λ x. (draw_boxes s width height bs sx sy).frame x ≡ s.frame x) (div-add-mod' a n)
      (t.same (a / n) (a % n) (mod-lt a (omega arith)) out)

row-of-past : (height n a : ℕ) → 0 < n → height * n ≤ a → height ≤ a / n
row-of-past height n a h past = (le-div_iff_mul-le h).1 past

-- Drawing at most `DET_MAX_BOX` boxes on a frame of even and positive width leaves every byte past
-- the last row of the frame alone.
pub draw_boxes_in_frame {ℓ} :
    {Score : Type ℓ} (s : Drawn) (width height : ℕ) (bs : List (DetBox Score)) (sx sy : ℤ) (a : ℕ)
    → width % 2 ≡ 0
    → 0 < width
    → length bs ≤ det_max_box
    → height * (width + width / 2) ≤ a
    → (draw_boxes s width height bs sx sy).frame a ≡ s.frame a
draw_boxes_in_frame s width height bs sx sy a even wide h past =
    draw_boxes_same s width height bs sx sy a even wide h λ c.
      let row = row-of-past height (width + width / 2) a (omega arith) past in
      omega (arith, draw_boxes_inside s width height bs sx sy _ even h c)

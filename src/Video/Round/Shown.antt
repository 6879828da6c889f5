-- ===== src/Video/Round/Shown.antt =====
-- What a frame shows: the detector's results, as the drawing of a round of the encode task puts them
-- on the frame.
use esp32_ipc.Base.{
  ℕ, zero, suc, ◌+◌, ◌*◌, ◌/◌, ◌<◌, ◌≤◌, length, length-take, ◌≡◌, refl, arith, ap, ◌∙◌, Bool, some,
  List, [], ◌∷◌, take, if◌then◌else◌,
}
use esp32_ipc.Base.Int.{ℤ, pos}
use esp32_ipc.Config.{cam_width, cam_height, det_max_box, osd_y, osd_u, osd_v}
use esp32_ipc.Esp.{EspErr, Semaphore}
use esp32_ipc.Detect.Box.{DetBox}
use esp32_ipc.Detect.Pedestrian.{Started}
use esp32_ipc.Detect.Iface.{DetectorIface, pedestrian, ped_get_boxes}
use esp32_ipc.Detect.Results.{Result, Boxes, store_results}
use esp32_ipc.Detect.Results.Laws.{reported, get_boxes-store_results}
use esp32_ipc.Hal.Device.{Device}
use esp32_ipc.Hal.Vcap.{Vcap, VcapFrame}
use esp32_ipc.Osd.Corners.{Drawn}
use esp32_ipc.Osd.Corners.Marks.{boxes_marks}
use esp32_ipc.Osd.Corners.Marks.Exact.{draw_boxes_paints}
use esp32_ipc.Osd.Draw.Paint.{Pixels, owns, ink}
use esp32_ipc.Video.Overlay.{overlay_boxes, osd_scale_x, osd_scale_y, write_back}
use esp32_ipc.Video.Overlay.Published.{written_back_all}
use esp32_ipc.Video.Round.{Loop, encode_round, overlay_frame, encode_memory}

take_twice {ℓ} : {A : Type ℓ} (n : ℕ) (xs : List A) → take n (take n xs) ≡ take n xs
take_twice zero xs = refl
take_twice (suc n) [] = refl
take_twice (suc n) (x ∷ xs) = ap (λ ys. x ∷ ys) (take_twice n xs)

-- The marks of the boxes that `boxes` holds, scaled to the frame.
abbrev pub frame_marks : {Score : Type 0} → List (DetBox Score) → Pixels
frame_marks boxes = boxes_marks cam_width cam_height boxes (pos osd_scale_x) (pos osd_scale_y)

-- The marks of the results of the model that have a whole box, the first `DET_MAX_BOX` of them.
abbrev pub marks_of : {Score : Type 0} → List (Result Score) → Pixels
marks_of results = frame_marks (take det_max_box (reported results))

overlay_boxes_paints :
    {Score : Type 0} (cap : Vcap) (s : Drawn) (boxes : List (DetBox Score)) (y o : ℕ)
    → o < cam_width + cam_width / 2
    → (overlay_boxes cap s boxes).0.frame (y * (cam_width + cam_width / 2) + o) ≡ (
        if owns (frame_marks boxes) y o
        then ink osd_y osd_u osd_v y o
        else s.frame (y * (cam_width + cam_width / 2) + o))
unfolding overlay_boxes
overlay_boxes_paints cap s boxes y o h =
    draw_boxes_paints s cam_width cam_height boxes (pos osd_scale_x) (pos osd_scale_y) y o
      (omega arith) h

found_boxes :
    {Score : Type 0} (earlier : Boxes Score) (results : List (Result Score))
    → ped_get_boxes (some (store_results earlier results)) det_max_box
      ≡ take det_max_box (reported results)
unfolding ped_get_boxes
found_boxes earlier results =
    get_boxes-store_results earlier results det_max_box ∙ take_twice det_max_box (reported results)

-- The memory after the drawing shows the marks.
memory_shows :
    {Score : Type 0} (cap : Vcap) (s : Drawn) (boxes : List (DetBox Score)) (y o : ℕ)
    → cap.height ≡ cam_height
    → cap.stride ≡ cam_width + cam_width / 2
    → length boxes ≤ det_max_box
    → o < cam_width + cam_width / 2
    → write_back
        (overlay_boxes cap s boxes).1
        (overlay_boxes cap s boxes).0.frame
        s.frame
        (y * (cam_width + cam_width / 2) + o)
      ≡ (if owns (frame_marks boxes) y o
          then ink osd_y osd_u osd_v y o
          else s.frame (y * (cam_width + cam_width / 2) + o))
memory_shows cap s boxes y o tall wide few h =
    written_back_all cap s boxes (y * (cam_width + cam_width / 2) + o) tall wide few
    ∙ overlay_boxes_paints cap s boxes y o h

module _ (E C : Device) {Score : Type 0} (S : Semaphore) (started : EspErr × Started S)
    {Peer : Type 0} (send_video : Peer → ℕ → ℤ × Peer) where
  abbrev detector : DetectorIface Score
  detector = pedestrian S started

  -- With a capture device of the camera's geometry, the frame that the encoder reads from memory in a
  -- round of the encode task shows the latest results of the detector and nothing else: a byte of a
  -- line that belongs to a pixel of a mark of one of the first `DET_MAX_BOX` results with a whole box,
  -- scaled to the frame, has the colour of the marks, and every other byte of the line has the camera's
  -- value. The marks are drawn in the cache before the encoder is called, and every byte of them is
  -- written back to memory. What the detector found before does not matter.
  pub encode_round_shows :
      (l : Loop E C detector send_video) (frame : VcapFrame) (pixels : Drawn)
      (requested scaled : Bool) (earlier : Boxes Score) (results : List (Result Score)) (y o : ℕ)
      → l.vcap.height ≡ cam_height
      → l.vcap.stride ≡ cam_width + cam_width / 2
      → o < cam_width + cam_width / 2
      → (encode_round E C detector send_video l frame pixels requested scaled
            (some (store_results earlier results))).2
          (y * (cam_width + cam_width / 2) + o)
        ≡ (if owns (marks_of results) y o
            then ink osd_y osd_u osd_v y o
            else pixels.frame (y * (cam_width + cam_width / 2) + o))
  unfolding encode_round overlay_frame encode_memory
  encode_round_shows l frame pixels requested scaled earlier results y o tall wide h =
      rw (found_boxes earlier results) (
        memory_shows l.vcap pixels (take det_max_box (reported results)) y o tall wide
          (omega (arith, length-take det_max_box (reported results))) h)

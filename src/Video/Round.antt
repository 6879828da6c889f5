-- ===== src/Video/Round.antt =====
-- main/task/task_video.cpp, a whole round of the loop of `video_encode_task` on the frame that it has
-- received: the key frame request, the detector, the drawing, the encoder and the send.
pub mod Balanced
pub mod Shown
use esp32_ipc.Base.{ℕ, Bool, List}
use esp32_ipc.Base.Int.{ℤ}
use esp32_ipc.Config.{det_max_box}
use esp32_ipc.Detect.Iface.{DetectorIface}
use esp32_ipc.Hal.Device.{Device}
use esp32_ipc.Hal.Vcap.{Vcap, VcapFrame}
use esp32_ipc.Osd.Corners.{Drawn}
use esp32_ipc.Video.Encode.{Stage, encode_and_send}
use esp32_ipc.Video.Feed.{feed_detector}
use esp32_ipc.Video.Overlay.{overlay_boxes, write_back}
use esp32_ipc.Detect.Box.{DetBox}

module _ (E C : Device) {Score : Type 0} (D : DetectorIface Score) {Peer : Type 0}
    (send_video : Peer → ℕ → ℤ × Peer) where
  -- What the loop works on beside the frame.
  pub record Loop : Type 0 where
    pub stage : Stage E C send_video
    pub feed : D.Feed
    pub frame_no : ℕ
    pub vcap : Vcap

  -- `overlay_boxes` on a frame that the camera has just left in memory: what it draws, the blocks that
  -- are written back, and the memory then.
  unfoldable pub overlay_frame : Vcap → Drawn → List (DetBox Score) → Drawn × List (ℕ × ℕ) × (ℕ → ℕ)
  overlay_frame cap pixels boxes =
      let (drawn, blocks) = overlay_boxes cap pixels boxes in
      (drawn, blocks, write_back blocks drawn.frame pixels.frame)

  -- `hal_h264_encode` and what follows it, on a memory: the stage, and what the encoder has read.
  unfoldable pub encode_memory :
      Stage E C send_video → VcapFrame → Bool → (ℕ → ℕ) → Stage E C send_video × (ℕ → ℕ)
  encode_memory s frame requested memory =
      (encode_and_send E C send_video s frame requested, memory)

  -- A round, by whether a key frame was asked for, whether the scaler succeeds and what the detector
  -- has found when the drawing asks for its boxes: the loop, the blocks that are written back, and the
  -- frame that the encoder has read.
  unfoldable pub encode_round :
      Loop → VcapFrame → Drawn → Bool → Bool → D.Found → Loop × List (ℕ × ℕ) × (ℕ → ℕ)
  unfolding overlay_frame encode_memory
  encode_round l frame pixels requested scaled found =
      let (feed', frame_no') = feed_detector D l.feed l.frame_no scaled in
      let (drawn, blocks, memory) = overlay_frame l.vcap pixels (D.get_boxes found det_max_box) in
      let (stage', read) = encode_memory l.stage frame requested memory in
      (record l { stage = stage'; feed = feed'; frame_no = frame_no' }, blocks, read)

-- ===== src/Video/Feed.antt =====
-- main/task/task_video.cpp, `feed_detector`: every third frame goes to the detector, when it has a
-- buffer to lend.
pub mod Lend
use esp32_ipc.Base.{ℕ, ◌+◌, ◌%◌, ◌^◌, ◌==◌, not, Bool, Option, none, some, if◌then◌else◌}
use esp32_ipc.Config.{det_feed_every_n}
use esp32_ipc.Detect.Pedestrian.{DetInput}
use esp32_ipc.Detect.Iface.{DetectorIface}

module _ {Score : Type 0} (D : DetectorIface Score) where
  open D use {Feed, acquire_input, submit, discard}

  -- What comes after `acquire_input`, by whether `hal_ppa_yuv420_to_rgb565` answers `ESP_OK`.
  unfoldable pub fill : Option DetInput × Feed → Bool → Feed
  fill (none, feed) scaled = feed
  fill (some input, feed) scaled = if not scaled then discard feed input else submit feed input

  -- `feed_detector`: the detector's buffers and the static `frame_no`.
  unfoldable pub feed_detector : Feed → ℕ → Bool → Feed × ℕ
  unfolding fill
  feed_detector feed frame_no scaled =
      let frame_no' = (frame_no + 1) % 2 ^ 32 in
      if not (frame_no % det_feed_every_n == 0)
      then (feed, frame_no')
      else (fill (acquire_input feed) scaled, frame_no')

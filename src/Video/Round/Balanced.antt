-- ===== src/Video/Round/Balanced.antt =====
-- What a round of the encode task gives back.
use esp32_ipc.Base.{ℕ, ◌<◌, ◌≡◌, Bool, some}
use esp32_ipc.Base.Int.{ℤ}
use esp32_ipc.Esp.{EspErr, Semaphore}
use esp32_ipc.Detect.Pedestrian.{Started}
use esp32_ipc.Detect.Iface.{DetectorIface, pedestrian}
use esp32_ipc.FramePool.{Pool}
use esp32_ipc.FramePool.Inv.{IsValid}
use esp32_ipc.Hal.Device.{Device, capture}
use esp32_ipc.Hal.H264.Slots.{Fits}
use esp32_ipc.Config.{cap_buf_count, enc_out_buf_count}
use esp32_ipc.Hal.Vcap.{VcapFrame}
use esp32_ipc.Hal.Vcap.Queues.{Accepts}
use esp32_ipc.Osd.Corners.{Drawn}
use esp32_ipc.Video.Encode.Balance.{GivenBack, asked_for_slot, encode_and_send-GivenBack}
use esp32_ipc.FramePool.PutBack.{SameHeld}
use esp32_ipc.Video.Feed.Lend.{feed_detector-SameHeld}
use esp32_ipc.Video.Round.{Loop, encode_round, encode_memory}

module _ (E C : Device) {Score : Type 0} (S : Semaphore) (started : EspErr × Started S)
    {Peer : Type 0} (send_video : Peer → ℕ → ℤ × Peer) where
  abbrev detector : DetectorIface Score
  detector = pedestrian S started

  -- However the scaling and the encoding of a frame that the camera has lent end, a round of the encode
  -- task on a valid detector pool, with drivers that take back a buffer that they do not have: the
  -- camera has the buffer of that frame again, and no other more or less than before; the encoder's
  -- driver has each bitstream buffer that it had; its input slot is back, unless the driver would not
  -- hand it back when it was asked; and the detector pool is valid, with the same elements checked out.
  pub encode_round-GivenBack :
      Accepts E enc_out_buf_count
      → Accepts C cap_buf_count
      → (l : Loop E C detector send_video) (p : Pool S.Sem) (frame : VcapFrame) (pixels : Drawn)
        (requested scaled : Bool) (found : detector.Found)
      → Fits E l.stage.encoder
      → frame.buf.index < cap_buf_count
      → C.queued l.stage.camera capture frame.buf.index ≡ 0
      → l.feed ≡ some p
      → IsValid p
      → let l' = (encode_round E C detector send_video l frame pixels requested scaled found).0 in
        GivenBack E C send_video
          (asked_for_slot E C send_video l.stage frame requested)
          frame
          l.stage
          l'.stage
        × (p' : Pool S.Sem) × (l'.feed ≡ some p')
        × SameHeld p p'
  unfolding encode_round encode_memory
  encode_round-GivenBack takes accepts l p frame pixels requested scaled found f small lent e v =
      let back =
        encode_and_send-GivenBack E C send_video takes accepts l.stage frame requested f small
          lent in
      let (p', fed, same) = feed_detector-SameHeld Score S started p l.frame_no scaled v in
      (back, p', rw e fed, same)

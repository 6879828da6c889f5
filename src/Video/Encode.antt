-- ===== src/Video/Encode.antt =====
-- main/task/task_video.cpp, the loop of `video_encode_task` from the encoder on: a frame is encoded,
-- its capture buffer goes back, and the bitstream is sent and goes back. The clock and the times per
-- stage are left out; the drawing before it is in Video.Overlay.
pub mod Balance
use esp32_ipc.Base.{ℕ, ◌+◌, ◌%◌, ◌^◌, Bool, if◌then◌else◌}
use esp32_ipc.Base.Int.{ℤ, pos, ltb_ℤ}
use esp32_ipc.Hal.Device.{Device}
use esp32_ipc.Hal.Device.Outcome.{Outcome, fails, gives}
use esp32_ipc.Hal.H264.{Encoder, Bitstream, encode, force_idr}
use esp32_ipc.Hal.Vcap.{VcapFrame}

-- The counters of `video_ctx_t` that the loop keeps, and what `hal_h264_t` holds.
pub record Encodes : Type 0 where
  pub enc : Encoder
  pub stat_loop : ℕ
  pub stat_enc : ℕ
  pub stat_send_ok : ℕ
  pub stat_send_fail : ℕ
  pub stat_bytes : ℕ

abbrev pub count : ℕ → ℕ
count n = (n + 1) % 2 ^ 32

-- What `webrtc_send_video` answered, in the counters.
abbrev pub counted : Encodes → ℤ → Encodes
counted c sent =
    if ltb_ℤ (pos 0) sent
    then record c { stat_send_ok = count c.stat_send_ok }
    else if ltb_ℤ sent (pos 0)
    then record c { stat_send_fail = count c.stat_send_fail }
    else c

module _ (E C : Device) {Peer : Type 0} (send_video : Peer → ℕ → ℤ × Peer) where
  -- The encoder, the camera, the peer connection and the counters.
  pub record Stage : Type 0 where
    pub encoder : E.Dev
    pub camera : C.Dev
    pub peer : Peer
    pub counters : Encodes

  -- The answer of `hal_h264_encode` and what the loop does with it.
  unfoldable pub deliver : Stage → VcapFrame → Outcome E.Dev Bitstream → Stage
  deliver s frame (fails e d) = record s {
    encoder = d;
    camera = (esp32_ipc.Hal.Vcap.release C frame s.camera).1;
  }
  deliver s frame (gives bits d) =
      let (sent, peer') = send_video s.peer bits.bytesused in
      let c = record (s.counters) {
        stat_enc = count s.counters.stat_enc;
        stat_bytes = (s.counters.stat_bytes + bits.bytesused) % 2 ^ 32;
      } in
      record {
        encoder = (esp32_ipc.Hal.H264.release E bits d).1;
        camera = (esp32_ipc.Hal.Vcap.release C frame s.camera).1;
        peer = peer';
        counters = counted c sent;
      }

  -- The request for a key frame, if the encode task has read one.
  unfoldable pub answer_request : Stage → Bool → Stage
  answer_request s requested =
      let (e, enc', d) = force_idr E s.counters.enc s.encoder in
      if requested
      then record s { encoder = d; counters = record (s.counters) { enc = enc' } }
      else s

  abbrev pub counts_loop : Stage → Stage
  counts_loop s = record s {
    counters = record (s.counters) { stat_loop = count s.counters.stat_loop };
  }

  -- A round of the loop without the detector and the drawing, on a frame that the task has received.
  unfoldable pub encode_and_send : Stage → VcapFrame → Bool → Stage
  unfolding deliver answer_request
  encode_and_send s frame requested =
      let s2 = answer_request (counts_loop s) requested in
      deliver s2 frame (encode E s2.counters.enc frame.data_at frame.bytesused s2.encoder)

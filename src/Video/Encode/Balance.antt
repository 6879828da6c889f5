-- ===== src/Video/Encode/Balance.antt =====
-- What a round of the encode task leaves in the queues of the camera and of the encoder.
use esp32_ipc.Base.{
  ℕ, suc, ◌<◌, ◌≡◌, ◌==◌, if◌then◌else◌, arith, inl, inr, refl, Bool, Bool-cases, ◌∙◌, ap,
}
use esp32_ipc.Base.Int.{ℤ}
use esp32_ipc.Config.{cap_buf_count, enc_out_buf_count}
use esp32_ipc.Hal.Device.{Device, Queue, capture, output}
use esp32_ipc.Hal.Device.Outcome.{Outcome, fails, gives}
use esp32_ipc.Hal.H264.{Encoder, Bitstream, encode}
use esp32_ipc.Hal.H264.Slots.{Fits, SlotBack, slot_asked, encode-gives, force_idr-queued}
use esp32_ipc.Hal.H264.Counted.{encode-fails}
use esp32_ipc.Hal.Vcap.{VcapFrame}
use esp32_ipc.Hal.Vcap.Queues.{Accepts, release_lem}
use esp32_ipc.Video.Encode.{Stage, counts_loop, deliver, answer_request, encode_and_send}

module _ (E C : Device) {Peer : Type 0} (send_video : Peer → ℕ → ℤ × Peer) where
  -- The encoder has the bitstream buffers that it had, and its input slot is back or could not be had
  -- back from the driver `k`; the camera has the buffer of the frame, and the others as before.
  pub record GivenBack (k : E.Dev) (frame : VcapFrame) (s s' : Stage E C send_video) : Type 0 where
    pub caps : (j : ℕ) → E.queued s'.encoder capture j ≡ E.queued s.encoder capture j
    pub slot : SlotBack E k s.encoder s'.encoder
    pub camera :
        (j : ℕ)
        → C.queued s'.camera capture j ≡ (
            if j == frame.buf.index
            then suc (C.queued s.camera capture j)
            else C.queued s.camera capture j)

  deliver-GivenBack :
      Accepts E enc_out_buf_count
      → Accepts C cap_buf_count
      → (s : Stage E C send_video) (frame : VcapFrame) (enc : Encoder) (at len : ℕ)
        (o : Outcome E.Dev Bitstream)
      → Fits E s.encoder
      → frame.buf.index < cap_buf_count
      → C.queued s.camera capture frame.buf.index ≡ 0
      → encode E enc at len s.encoder ≡ o
      → GivenBack (slot_asked E at len s.encoder) frame s (deliver E C send_video s frame o)
  unfolding deliver
  deliver-GivenBack takes accepts s frame enc at len (fails e d) f small lent h =
      let (caps, slot) = encode-fails E takes enc at len s.encoder d e f h in
      record { caps = caps; slot = slot; camera = release_lem C accepts frame s.camera small lent }
  deliver-GivenBack takes accepts s frame enc at len (gives bits d) f small lent h =
      let (outs, caps, sound) = encode-gives E enc at len s.encoder d bits f h in
      let b = bits.buf.index in
      let mine : b < enc_out_buf_count = ground (arith, caps b, f.caps b) in
      let out : E.queued d capture b ≡ 0 = ground (arith, caps b, f.caps b) in
      let back = esp32_ipc.Hal.H264.Slots.release_lem E takes bits d mine out in
      record {
        caps = λ j. ground (arith, (back j).0, caps j);
        slot = inl (λ j. (back j).1 ∙ outs j);
        camera = release_lem C accepts frame s.camera small lent;
      }

  answer_request-queued :
      (s : Stage E C send_video) (requested : Bool) (q : Queue) (j : ℕ)
      → (E.queued (answer_request E C send_video s requested).encoder q j ≡ E.queued s.encoder q j)
        × ((answer_request E C send_video s requested).camera ≡ s.camera)
  unfolding answer_request
  answer_request-queued s requested q j = elim (Bool-cases requested) [
    | inl yes_idr ↦ rw yes_idr (force_idr-queued E s.counters.enc s.encoder q j, refl)
    | inr no_idr ↦ rw no_idr (refl, refl)
  ]

  -- The encoder when it is asked for the input slot of the frame.
  abbrev pub asked_for_slot : Stage E C send_video → VcapFrame → Bool → E.Dev
  asked_for_slot s frame requested =
      slot_asked E frame.data_at frame.bytesused
        (answer_request E C send_video (counts_loop E C send_video s) requested).encoder

  -- However the encode of a frame that the camera has lent ends: the camera has the buffer of that frame
  -- again, and no other more or less than before; the encoder's driver has each bitstream buffer that
  -- it had; and the input slot is back, unless the driver would not hand it back when it was asked.
  pub encode_and_send-GivenBack :
      Accepts E enc_out_buf_count
      → Accepts C cap_buf_count
      → (s : Stage E C send_video) (frame : VcapFrame) (requested : Bool) → Fits E s.encoder
      → frame.buf.index < cap_buf_count
      → C.queued s.camera capture frame.buf.index ≡ 0
      → GivenBack
          (asked_for_slot s frame requested)
          frame
          s
          (encode_and_send E C send_video s frame requested)
  unfolding encode_and_send
  encode_and_send-GivenBack takes accepts s frame requested f small lent =
      let s1 = counts_loop E C send_video s in
      let s2 = answer_request E C send_video s1 requested in
      let same = λ (q : Queue) (j : ℕ). (answer_request-queued s1 requested q j).0 in
      let cam : s2.camera ≡ s.camera = (answer_request-queued s1 requested capture 0).1 in
      let fits : Fits E s2.encoder = record {
        caps = λ i. omega (arith, same capture i, f.caps i);
        outs = λ i. omega (arith, same output i, f.outs i);
      } in
      let g =
        deliver-GivenBack takes accepts s2 frame s2.counters.enc frame.data_at frame.bytesused _
          fits small (ap (λ d. C.queued d capture frame.buf.index) cam ∙ lent) refl in
      record {
        caps = λ j. g.caps j ∙ same capture j;
        slot = elim g.slot [
          | inl back ↦ inl (λ j. back j ∙ same output j)
          | inr (stuck, refused) ↦ inr (λ j. omega (arith, stuck j, same output j), refused)
        ];
        camera = λ j. ground (arith, g.camera j, ap (λ d. C.queued d capture j) cam);
      }

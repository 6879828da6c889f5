-- ===== src/Hal/H264/Counted.antt =====
-- main/hal/hal_h264_encoder.c: the two queues of the encoder after an encode, however it ends.
use esp32_ipc.Base.{
  ℕ, ◌+◌, ◌<◌, ◌≡◌, ◌==◌, if◌then◌else◌, arith, ap, subst, sym, ◌∙◌, inl, inr, some,
}
use esp32_ipc.Config.{enc_out_buf_count}
use esp32_ipc.Esp.{EspErr, esp_fail}
use esp32_ipc.Hal.Device.{Device, Reply, capture, output, dqbuf, qbuf_userptr}
use esp32_ipc.Hal.Device.Outcome.{Outcome, fails, gives, Outcome-cases, needs-fails}
use esp32_ipc.Hal.H264.{Encoder, Bitstream, encode, filled, release}
use esp32_ipc.Hal.H264.Slots.{
  IsSound, Fits, SlotBack, slot_asked, slot_asked-SlotBack, encode-gives, release_lem,
  collect-fails,
}
use esp32_ipc.Hal.Vcap.Queues.{Accepts}

module _ (D : Device) where
  open D use {Dev, ioctl, queued, queued_ok, queued_fail, dqbuf_some}

  -- The bitstream buffer that was taken goes back, and the input slot stays where it is.
  released-back :
      Accepts D enc_out_buf_count
      → (enc : Encoder) (d d1 k b : Dev) (y : Reply) → Fits D d
      → ((j : ℕ) → queued d1 capture j ≡ queued d capture j)
      → ioctl (dqbuf capture) d1 ≡ (some y, k)
      → ((j : ℕ) → queued b capture j ≡ queued k capture j)
      → (j : ℕ)
      → (queued (release D (filled enc y) b).1 capture j ≡ queued d capture j)
        × (queued (release D (filled enc y) b).1 output j ≡ queued b output j)
  released-back accepts enc d d1 k b y f on got same j =
      let off = λ (i : ℕ). queued_ok (dqbuf capture) capture d1 k y got i in
      let had = dqbuf_some capture d1 k y got in
      let small : y.index < enc_out_buf_count = ground (arith, f.caps y.index, on y.index, had) in
      let lent : queued b capture y.index ≡ 0 =
        ground (arith, f.caps y.index, on y.index, off y.index, same y.index) in
      let (put, left) = release_lem D accepts (filled enc y) b small lent j in
      (ground (arith, put, same j, off j, on j, had), left)

  -- A call that leaves the input slot alone.
  still_back :
      (k d b d' : Dev)
      → SlotBack D k d b
      → ((j : ℕ) → queued d' output j ≡ queued b output j)
      → SlotBack D k d d'
  still_back k d b d' (inl free) same = inl (λ j. same j ∙ free j)
  still_back k d b d' (inr (stuck, refused)) same = inr (λ j. same j ∙ stuck j, refused)

  pub encode-fails :
      Accepts D enc_out_buf_count
      → (enc : Encoder) (frame len : ℕ) (d d' : Dev) (e : EspErr) → Fits D d
      → encode D enc frame len d ≡ fails e d'
      → ((j : ℕ) → queued d' capture j ≡ queued d capture j)
        × SlotBack D (slot_asked D frame len d) d d'
  unfolding encode
  encode-fails accepts enc frame len d d' e f h =
      elim (needs-fails (ioctl (qbuf_userptr 0 frame len) d) esp_fail _ e d' h) [
        | inl p ↦ (queued_fail _ capture d d' p, inl (queued_fail _ output d d' p))
        | inr (x, d1, p, h1) ↦
            let on = queued_ok (qbuf_userptr 0 frame len) capture d d1 x p in
            elim (collect-fails D enc (ioctl (dqbuf capture) d1) e d' h1) [
              | inl (k, none_filled, end) ↦
                  let (slot, same) =
                    slot_asked-SlotBack D frame len d d1 k x f p
                      (queued_fail (dqbuf capture) output d1 k none_filled) in
                  let caps = queued_fail (dqbuf capture) capture d1 k none_filled in
                  let asked : slot_asked D frame len d ≡ k =
                    ap (λ c. (ioctl (dqbuf capture) c.1).1) p ∙ ap (λ c. c.1) none_filled in
                  rw end (
                    λ j. omega (arith, same j, caps j, on j),
                    subst (λ w. SlotBack D w d (ioctl (dqbuf output) k).1) (sym asked) slot,
                  )
              | inr (y, k, got, end) ↦
                  let (slot, same) =
                    slot_asked-SlotBack D frame len d d1 k x f p
                      (queued_ok (dqbuf capture) output d1 k y got) in
                  let back =
                    released-back accepts enc d d1 k (ioctl (dqbuf output) k).1 y f on got same in
                  let asked : slot_asked D frame len d ≡ k =
                    ap (λ c. (ioctl (dqbuf capture) c.1).1) p ∙ ap (λ c. c.1) got in
                  rw end (
                    λ j. (back j).0,
                    subst
                        (λ w.
                          SlotBack D w d (release D (filled enc y) (ioctl (dqbuf output) k).1).1)
                        (sym asked)
                        (still_back k d (ioctl (dqbuf output) k).1 _ slot (λ j. (back j).1)),
                  )
            ]
      ]

  -- The two queues after an encode of a frame that began on this driver.
  abbrev pub Counted : ℕ → ℕ → Dev → Outcome Dev Bitstream → Type 0
  Counted frame len d (gives bits d') =
      ((j : ℕ) → queued d' output j ≡ queued d output j)
      × ((j : ℕ)
          → queued d' capture j + (if j == bits.buf.index then 1 else 0) ≡ queued d capture j)
      × IsSound bits
  Counted frame len d (fails e d') =
      ((j : ℕ) → queued d' capture j ≡ queued d capture j)
      × SlotBack D (slot_asked D frame len d) d d'

  -- However an encode ends, from a driver that has each bitstream buffer once at most and no input slot
  -- but the first, and that takes back a bitstream buffer that it does not have. When it succeeds, the
  -- driver has lost the one bitstream buffer that is handed on, which holds a frame that it does not
  -- call bad, and has every other buffer that it had. When it fails, the driver has every bitstream
  -- buffer that it had, and the input slot is back, but for one case: the driver would not hand it
  -- back when it was asked for it, and then it has that slot.
  pub encode-Counted :
      Accepts D enc_out_buf_count
      → (enc : Encoder) (frame len : ℕ) (d : Dev) → Fits D d
      → Counted frame len d (encode D enc frame len d)
  encode-Counted accepts enc frame len d f = elim (Outcome-cases (encode D enc frame len d)) [
    | inl (e, d', h) ↦ rw h (encode-fails accepts enc frame len d d' e f h)
    | inr (bits, d', h) ↦ rw h (encode-gives D enc frame len d d' bits f h)
  ]

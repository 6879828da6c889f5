-- ===== src/Hal/H264/Slots.antt =====
-- What an encode leaves in the two queues of the encoder.
use esp32_ipc.Base.{
  ltb, ◌+◌, ◌≤◌, ℕ, suc, ◌<◌, ◌≡◌, refl, arith, Bool, Bool-cases, true, false, ◌⊎◌, inl, inr, sym,
  ap, if◌then◌else◌, Option, none, some, ◌||◌, ◌==◌,
}
use esp32_ipc.Esp.{EspErr, esp_fail}
use esp32_ipc.Config.{enc_out_buf_count}
use esp32_ipc.Hal.Vcap.Queues.{Accepts}
use esp32_ipc.Hal.Device.{
  Device, s_ext_ctrl, force_key_frame, Reply, Queue, capture, output, qbuf, qbuf_userptr, dqbuf,
}
use esp32_ipc.Hal.Device.Outcome.{Outcome, fails, gives, dev, needs-gives, Answer-cases}
use esp32_ipc.Hal.H264.{
  Encoder, force_idr, set_ctrl, Bitstream, encode, filled, collect, reclaim, release,
}

-- A bitstream that the driver does not call bad.
abbrev pub IsSound : Bitstream → Type 0
IsSound out = (out.buf.flag_error ≡ false) × (0 < out.bytesused)

module _ (D : Device) where
  open D use {Dev, ioctl, queued, queued_ok, queued_fail, dqbuf_some, userptr_once}

  bad_or-gives :
      (b : Bool) (d1 d d' : Dev) (out bits : Bitstream)
      → (if b then Outcome.fails esp_fail d1 else gives out d) ≡ gives bits d'
      → (b ≡ false) × (out ≡ bits) × (d ≡ d')
  bad_or-gives true d1 d d' out bits h = absurd (cc)
  bad_or-gives false d1 d d' out bits h = (refl, cc, cc)

  not_bad : (out : Bitstream) → (out.buf.flag_error || (out.bytesused == 0)) ≡ false → IsSound out
  not_bad out h = ground arith

  reclaim-gives :
      (out : Bitstream) (c : Option Reply × Dev) (bits : Bitstream) (d' : Dev)
      → reclaim D out c ≡ gives bits d'
      → (x : Reply) × (c ≡ (some x, d')) × IsSound bits × (out ≡ bits)
  unfolding reclaim
  reclaim-gives out (none, d) bits d' h = absurd (cc)
  reclaim-gives out (some x, d) bits d' h =
      let (good, same, back) =
        bad_or-gives (out.buf.flag_error || (out.bytesused == 0)) _ d d' out bits h in
      (x, ap (λ k. (some x, k)) back, rw (← same) (not_bad out good), same)

  collect-gives :
      (enc : Encoder) (c : Option Reply × Dev) (bits : Bitstream) (d' : Dev)
      → collect D enc c ≡ gives bits d'
      → (x y : Reply) × (d : Dev) × (c ≡ (some x, d))
        × (ioctl (dqbuf output) d ≡ (some y, d'))
        × IsSound bits
        × (filled enc x ≡ bits)
  unfolding collect
  collect-gives enc (none, d) bits d' h = absurd (cc)
  collect-gives enc (some x, d) bits d' h =
      let (y, took, good, mine) = reclaim-gives (filled enc x) (ioctl (dqbuf output) d) bits d' h in
      (x, y, d, refl, took, good, mine)

  -- At most one of each of the bitstream buffers, and at most the one input slot, is with the driver.
  pub record Fits (d : Dev) : Type 0 where
    pub caps : (i : ℕ) → queued d capture i ≤ (if ltb i enc_out_buf_count then 1 else 0)
    pub outs : (i : ℕ) → queued d output i ≤ (if i == 0 then 1 else 0)

  -- The driver when `hal_h264_encode` asks it for the input slot.
  abbrev pub slot_asked : ℕ → ℕ → Dev → Dev
  slot_asked frame len d = (ioctl (dqbuf capture) (ioctl (qbuf_userptr 0 frame len) d).1).1

  -- The input slot was free when it is put in, and is what is taken back.
  slot_back :
      (frame len : ℕ) (d d1 d2 d' : Dev) (x z : Reply)
      → Fits d
      → ioctl (qbuf_userptr 0 frame len) d ≡ (some x, d1)
      → ((i : ℕ) → queued d2 output i ≡ queued d1 output i)
      → ioctl (dqbuf output) d2 ≡ (some z, d')
      → (j : ℕ) → queued d' output j ≡ queued d output j
  slot_back frame len d d1 d2 d' x z f put same took j =
      let on = λ (i : ℕ). queued_ok (qbuf_userptr 0 frame len) output d d1 x put i in
      ground (
        arith,
        f.outs j,
        f.outs z.index,
        userptr_once 0 frame len d d1 x put,
        on j,
        on z.index,
        on 0,
        same j,
        same z.index,
        queued_ok (dqbuf output) output d2 d' z took j,
        dqbuf_some output d2 d' z took,
      )

  -- An encode that succeeds leaves the driver without the bitstream buffer that it hands on, and
  -- with every other buffer that it had.
  pub encode-gives :
      (enc : Encoder) (frame len : ℕ) (d d' : Dev) (bits : Bitstream)
      → Fits d
      → encode D enc frame len d ≡ gives bits d'
      → ((j : ℕ) → queued d' output j ≡ queued d output j)
        × ((j : ℕ)
            → queued d' capture j + (if j == bits.buf.index then 1 else 0) ≡ queued d capture j)
        × IsSound bits
  unfolding encode
  encode-gives enc frame len d d' bits f h =
      let (x, d1, put, h1) =
        needs-gives (ioctl (qbuf_userptr 0 frame len) d) esp_fail _ bits d' h in
      let (y, z, d2, got, took, good, mine) =
        collect-gives enc (ioctl (dqbuf capture) d1) bits d' h1 in
      (
        slot_back frame len d d1 d2 d' x z f put
            (λ i. queued_ok (dqbuf capture) output d1 d2 y got i) took,
        λ j. rw (← mine) (
            ground (
              arith,
              queued_ok (qbuf_userptr 0 frame len) capture d d1 x put j,
              queued_ok (dqbuf capture) capture d1 d2 y got j,
              queued_ok (dqbuf output) capture d2 d' z took j,
              dqbuf_some capture d1 d2 y got,
            )),
        good,
      )

  -- The driver takes a bitstream buffer back.
  pub release_lem :
      Accepts D enc_out_buf_count
      → (out : Bitstream) (d : Dev) → out.buf.index < enc_out_buf_count
      → queued d capture out.buf.index ≡ 0
      → (j : ℕ)
      → (queued (release D out d).1 capture j
          ≡ (if j == out.buf.index then suc (queued d capture j) else queued d capture j))
        × (queued (release D out d).1 output j ≡ queued d output j)
  unfolding release
  release_lem accepts out d small lent j =
      elim (Answer-cases (ioctl (qbuf capture out.buf.index) d)) [
        | inl (d', e) ↦ absurd (accepts out.buf.index d small lent (ap (λ c. c.0) e))
        | inr (x, d', e) ↦ rw e (
          queued_ok (qbuf capture out.buf.index) capture d d' x e j,
          queued_ok (qbuf capture out.buf.index) output d d' x e j,
        )
      ]

  reclaim-fails :
      (out : Bitstream) (c : Option Reply × Dev) (e : EspErr) (d' : Dev)
      → reclaim D out c ≡ fails e d'
      → d' ≡ (release D out c.1).1
  unfolding reclaim
  reclaim-fails out (none, d) e d' h = cc
  reclaim-fails out (some x, d) e d' h = ground arith

  pub collect-fails :
      (enc : Encoder) (c : Option Reply × Dev) (e : EspErr) (d' : Dev)
      → collect D enc c ≡ fails e d'
      → ((k : Dev) × (c ≡ (none, k)) × (d' ≡ (ioctl (dqbuf output) k).1))
        ⊎ ((x : Reply) × (k : Dev) × (c ≡ (some x, k))
            × (d' ≡ (release D (filled enc x) (ioctl (dqbuf output) k).1).1))
  unfolding collect
  collect-fails enc (none, k) e d' h = inl (k, refl, sym (ap dev h))
  collect-fails enc (some x, k) e d' h =
      inr (x, k, refl, reclaim-fails (filled enc x) (ioctl (dqbuf output) k) e d' h)

  -- The input slot is back, or is still with the driver, which would not hand it back.
  abbrev pub SlotBack : Dev → Dev → Dev → Type 0
  SlotBack k d d' =
      ((j : ℕ) → queued d' output j ≡ queued d output j)
      ⊎ (((j : ℕ) → queued d' output j ≡ queued d output j + (if j == 0 then 1 else 0))
          × ((ioctl (dqbuf output) k).0 ≡ none))

  pub slot_asked-SlotBack :
      (frame len : ℕ) (d d1 d2 : Dev) (x : Reply)
      → Fits d
      → ioctl (qbuf_userptr 0 frame len) d ≡ (some x, d1)
      → ((i : ℕ) → queued d2 output i ≡ queued d1 output i)
      → SlotBack d2 d (ioctl (dqbuf output) d2).1
        × ((j : ℕ) → queued (ioctl (dqbuf output) d2).1 capture j ≡ queued d2 capture j)
  slot_asked-SlotBack frame len d d1 d2 x f put same =
      elim (Answer-cases (ioctl (dqbuf output) d2)) [
        | inl (d', e) ↦ rw e (
          inr (
            λ j. ground (
              arith,
              queued_fail (dqbuf output) output d2 d' e j,
              same j,
              queued_ok (qbuf_userptr 0 frame len) output d d1 x put j,
            ),
            refl,
          ),
          queued_fail (dqbuf output) capture d2 d' e,
        )
        | inr (z, d', e) ↦ rw e (
          inl (slot_back frame len d d1 d2 d' x z f put same e),
          queued_ok (dqbuf output) capture d2 d' z e,
        )
      ]

  -- Asking for a key frame moves no buffer.
  pub force_idr-queued :
      (enc : Encoder) (d : Dev) (q : Queue) (j : ℕ)
      → queued (force_idr D enc d).2 q j ≡ queued d q j
  unfolding force_idr set_ctrl
  force_idr-queued enc d q j = elim (Bool-cases enc.no_force_idr) [
    | inl off ↦ rw off refl
    | inr on ↦ elim (Answer-cases (ioctl (s_ext_ctrl force_key_frame 1) d)) [
      | inl (d', e) ↦ rw (on, e) (queued_fail (s_ext_ctrl force_key_frame 1) q d d' e j)
      | inr (x, d', e) ↦ rw (on, e) (queued_ok (s_ext_ctrl force_key_frame 1) q d d' x e j)
    ]
  ]

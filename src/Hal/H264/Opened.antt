-- ===== src/Hal/H264/Opened.antt =====
-- Which buffers the encoder has when it is opened.
use esp32_ipc.Base.{
  ℕ, zero, suc, not, store, ◌+◌, ◌≡◌, refl, arith, ◌==◌, leb, ltb, ◌&&◌, if◌then◌else◌,
}
use esp32_ipc.Config.{enc_out_buf_count, h264_max_frame_bytes}
use esp32_ipc.Esp.{esp_err_no_mem, esp_fail}
use esp32_ipc.Hal.Device.{
  Device, yuv420, h264, s_fmt, reqbufs, querybuf, Queue, capture, output, qbuf,
}
use esp32_ipc.Hal.Device.Outcome.{gives, needs-gives, needs_that-gives}
use esp32_ipc.Hal.H264.{Encoder, Settings, map_buffers, open_encoder}

module _ (D : Device) where
  open D use {Dev, ioctl, queued, queued_ok}

  map_buffers-queued :
      (enc : Encoder) (i left : ℕ) (d d' : Dev) (enc' : Encoder)
      → map_buffers D enc i left d ≡ gives enc' d'
      → (j : ℕ)
      → (queued d' capture j ≡ queued d capture j + (if leb i j && ltb j (i + left) then 1 else 0))
        × (queued d' output j ≡ queued d output j)
  unfolding map_buffers
  map_buffers-queued enc i zero d d' enc' h j =
      let back : d ≡ d' = cc in rw (← back) (ground arith, refl)
  map_buffers-queued enc i (suc left) d d' enc' h j =
      let (buf, d1, asked, h1) = needs-gives (ioctl (querybuf capture i) d) esp_fail _ enc' d' h in
      let at = D.mmap d1 buf.length buf.offset in
      let (x, d2, put, h2) =
        needs-gives (ioctl (qbuf capture i) d1) esp_fail _ enc' d'
          (needs_that-gives (not (at == 0)) esp_err_no_mem d1 _ enc' d' h1) in
      let (caps, outs) =
        map_buffers-queued
          (record enc { out_mmap = store enc.out_mmap i at; out_length = buf.length }) (suc i) left
          d2 d' enc' h2 j in
      let ask = λ (q : Queue). queued_ok (querybuf capture i) q d d1 buf asked j in
      let on = λ (q : Queue). queued_ok (qbuf capture i) q d1 d2 x put j in
      (ground (arith, caps, ask capture, on capture), ground (arith, outs, ask output, on output))

  -- `hal_h264_open` succeeds with each of the `ENC_OUT_BUF_COUNT` bitstream buffers in the hands of the
  -- driver, and no frame to read.
  pub open_encoder-gives :
      (enc enc' : Encoder) (cfg : Settings) (d d' : Dev)
      → open_encoder D enc cfg d ≡ gives enc' d'
      → (j : ℕ)
      → (queued d' capture j ≡ (if ltb j enc_out_buf_count then 1 else 0))
        × (queued d' output j ≡ 0)
  unfolding open_encoder
  open_encoder-gives enc enc' cfg d d' h j =
      let h1 = needs_that-gives (D.opens d) esp_fail d _ enc' d' h in
      let (x1, d1, e1, h2) =
        needs-gives (ioctl (s_fmt output cfg.frame_width cfg.frame_height yuv420 0) _) esp_fail _
          enc' d' h1 in
      let (x2, d2, e2, h3) = needs-gives (ioctl (reqbufs output 1) d1) esp_fail _ enc' d' h2 in
      let (x3, d3, e3, h4) =
        needs-gives
          (ioctl (s_fmt capture cfg.frame_width cfg.frame_height h264 h264_max_frame_bytes) d2)
          esp_fail _ enc' d' h3 in
      let (x4, d4, e4, h5) =
        needs-gives (ioctl (reqbufs capture enc_out_buf_count) d3) esp_fail _ enc' d' h4 in
      let (caps, outs) = map_buffers-queued enc 0 enc_out_buf_count d4 d' enc' h5 j in
      let none_out = queued_ok (reqbufs output 1) output d1 d2 x2 e2 j in
      let still =
        queued_ok (s_fmt capture cfg.frame_width cfg.frame_height h264 h264_max_frame_bytes) output
          d2 d3 x3 e3 j in
      let none_cap = λ (q : Queue). queued_ok (reqbufs capture enc_out_buf_count) q d3 d4 x4 e4 j in
      (
        ground (arith, caps, none_cap capture),
        ground (arith, outs, none_out, still, none_cap output),
      )

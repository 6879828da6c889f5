-- ===== src/Hal/H264.antt =====
-- main/hal/hal_h264_encoder.c: the hardware encoder, which reads frames from its output queue and
-- fills bitstream buffers of its capture queue. The descriptor is the device itself.
pub mod Slots
pub mod Counted
pub mod Opened
use esp32_ipc.Base.{
  ℕ, zero, suc, ◌*◌, ◌/◌, ◌%◌, ◌==◌, ◌||◌, not, Bool, true, Option, none, some, store,
  if◌then◌else◌,
}
use esp32_ipc.Config.{enc_out_buf_count, h264_max_frame_bytes, video_dqbuf_timeout_ms}
use esp32_ipc.Esp.{EspErr, is_ok, esp_ok, esp_fail, esp_err_no_mem, esp_err_not_supported}
use esp32_ipc.Hal.Device.{
  Device, Reply, Control, capture, output, yuv420, h264, i_period, bitrate, min_qp, max_qp,
  force_key_frame, s_dqbuf_timeout, s_ext_ctrl, s_fmt, reqbufs, querybuf, qbuf, qbuf_userptr, dqbuf,
  streamon,
}
use esp32_ipc.Hal.Device.Outcome.{Outcome, fails, gives, needs, needs_that}

-- `hal_h264_t`
pub record Encoder : Type 0 where
  pub out_mmap : ℕ → ℕ
  pub out_length : ℕ
  pub no_force_idr : Bool

-- `hal_h264_bitstream_t`
pub record Bitstream : Type 0 where
  pub buf : Reply
  pub data_at : ℕ
  pub bytesused : ℕ

-- `hal_h264_cfg_t`
pub record Settings : Type 0 where
  pub frame_width : ℕ
  pub frame_height : ℕ
  pub gop : ℕ
  pub rate : ℕ
  pub low_qp : ℕ
  pub high_qp : ℕ

-- What `hal_h264_encode` leaves in `out`.
abbrev pub filled : Encoder → Reply → Bitstream
filled enc buf = record { buf = buf; data_at = enc.out_mmap buf.index; bytesused = buf.bytesused }

module _ (D : Device) where
  open D use {Dev, opens, ioctl}

  -- `set_ctrl`
  unfoldable pub set_ctrl : Control → ℕ → Dev → EspErr × Dev
  set_ctrl id value d =
      let (answer, d') = ioctl (s_ext_ctrl id value) d in
      (elim answer [ none ↦ esp_fail | some _ ↦ esp_ok ], d')

  -- The loop of `hal_h264_open` from buffer `i` on, with `left` rounds left.
  unfoldable pub map_buffers : Encoder → ℕ → ℕ → Dev → Outcome Dev Encoder
  map_buffers enc i zero d = gives enc d
  map_buffers enc i (suc left) d = needs (ioctl (querybuf capture i) d) esp_fail (λ buf d1.
      let at = D.mmap d1 buf.length buf.offset in
      needs_that (not (at == 0)) esp_err_no_mem d1 (
        needs (ioctl (qbuf capture i) d1) esp_fail (λ _ d2.
          map_buffers (record enc { out_mmap = store enc.out_mmap i at; out_length = buf.length })
            (suc i) left d2)))

  -- The controls that `hal_h264_open` sets, whether or not the driver takes them.
  unfoldable pub set_controls : Settings → Dev → Dev
  unfolding set_ctrl
  set_controls cfg d =
      let d1 = (set_ctrl i_period cfg.gop d).1 in
      let d2 = (set_ctrl bitrate cfg.rate d1).1 in
      let d3 = (set_ctrl min_qp cfg.low_qp d2).1 in (set_ctrl max_qp cfg.high_qp d3).1

  -- `hal_h264_open`, from the fields that the structure had. The timeout may fail.
  unfoldable pub open_encoder : Encoder → Settings → Dev → Outcome Dev Encoder
  unfolding set_controls map_buffers
  open_encoder enc cfg d = needs_that (opens d) esp_fail d (
      let d1 =
        (ioctl
          (s_dqbuf_timeout (video_dqbuf_timeout_ms / 1000) (video_dqbuf_timeout_ms % 1000 * 1000))
          d).1 in
      let d2 = set_controls cfg d1 in
      needs (ioctl (s_fmt output cfg.frame_width cfg.frame_height yuv420 0) d2) esp_fail (λ _ d3.
        needs (ioctl (reqbufs output 1) d3) esp_fail (λ _ d4.
          needs
            (ioctl (s_fmt capture cfg.frame_width cfg.frame_height h264 h264_max_frame_bytes) d4)
            esp_fail
            (λ _ d5.
              needs (ioctl (reqbufs capture enc_out_buf_count) d5) esp_fail
                (λ _ d6. map_buffers enc 0 enc_out_buf_count d6)))))

  -- `hal_h264_start`
  unfoldable pub start : Dev → EspErr × Dev
  start d =
      let (answer, d1) = ioctl (streamon capture) d in
      let (answer', d2) = ioctl (streamon output) d1 in
      elim answer [
        | none ↦ (esp_fail, d1)
        | some _ ↦ (elim answer' [ none ↦ esp_fail | some _ ↦ esp_ok ], d2)
      ]

  -- `hal_h264_release`
  unfoldable pub release : Bitstream → Dev → EspErr × Dev
  release out d =
      let (answer, d') = ioctl (qbuf capture out.buf.index) d in
      (elim answer [ none ↦ esp_fail | some _ ↦ esp_ok ], d')

  -- The end of `hal_h264_encode`, once there is a bitstream: the input slot is taken back, and a bad
  -- frame is refused.
  unfoldable pub reclaim : Bitstream → Option Reply × Dev → Outcome Dev Bitstream
  unfolding release
  reclaim out (none, d) = fails esp_fail (release out d).1
  reclaim out (some _, d) =
      if out.buf.flag_error || (out.bytesused == 0)
      then fails esp_fail (release out d).1
      else gives out d

  -- The middle of `hal_h264_encode`: the bitstream, or the input slot when there is none.
  unfoldable pub collect : Encoder → Option Reply × Dev → Outcome Dev Bitstream
  unfolding reclaim
  collect enc (none, d) = fails esp_fail (ioctl (dqbuf output) d).1
  collect enc (some buf, d) = reclaim (filled enc buf) (ioctl (dqbuf output) d)

  -- `hal_h264_encode` of the frame at an address
  unfoldable pub encode : Encoder → ℕ → ℕ → Dev → Outcome Dev Bitstream
  unfolding collect
  encode enc frame len d =
      needs (ioctl (qbuf_userptr 0 frame len) d) esp_fail
        (λ _ d1. collect enc (ioctl (dqbuf capture) d1))

  -- `hal_h264_force_idr`: what the first failure leaves in `no_force_idr` keeps later calls from the
  -- driver.
  unfoldable pub force_idr : Encoder → Dev → EspErr × Encoder × Dev
  unfolding set_ctrl
  force_idr enc d =
      if enc.no_force_idr
      then (esp_err_not_supported, enc, d)
      else (let (e, d') = set_ctrl force_key_frame 1 d in
          if is_ok e then (e, enc, d') else (e, record enc { no_force_idr = true }, d'))

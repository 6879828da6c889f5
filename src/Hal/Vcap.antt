-- ===== src/Hal/Vcap.antt =====
-- main/hal/hal_video_capture.c: the capture device. The descriptor is the device itself.
pub mod Queues
pub mod Publish
use esp32_ipc.Base.{
  ℕ, zero, suc, ◌+◌, ◌*◌, ◌/◌, ◌%◌, ◌^◌, ◌==◌, not, Option, none, some, store, if◌then◌else◌,
}
use esp32_ipc.Base.Int.{ℤ, pos, pos_part, ltb_ℤ, ◌+ℤ◌, ◌-ℤ◌}
use esp32_ipc.Config.{cap_buf_count, video_dqbuf_timeout_ms}
use esp32_ipc.Esp.{EspErr, esp_ok, esp_fail, esp_err_no_mem, esp_err_timeout}
use esp32_ipc.Hal.Device.{
  Device, Reply, capture, yuv420, s_dqbuf_timeout, s_fmt, reqbufs, querybuf, qbuf, dqbuf, streamon,
}
use esp32_ipc.Hal.Device.Outcome.{Outcome, gives, needs, needs_that}

-- `hal_vcap_t`
pub record Vcap : Type 0 where
  pub width : ℕ
  pub height : ℕ
  pub stride : ℕ
  pub mmap : ℕ → ℕ
  pub length : ℕ → ℕ

-- `hal_vcap_frame_t`
pub record VcapFrame : Type 0 where
  pub buf : Reply
  pub data_at : ℕ
  pub bytesused : ℕ

module _ (D : Device) where
  open D use {Dev, opens, ioctl}

  -- The loop of `hal_vcap_open` from buffer `i` on, with `left` rounds left.
  unfoldable pub map_buffers : Vcap → ℕ → ℕ → Dev → Outcome Dev Vcap
  map_buffers cap i zero d = gives cap d
  map_buffers cap i (suc left) d = needs (ioctl (querybuf capture i) d) esp_fail (λ buf d1.
      let at = D.mmap d1 buf.length buf.offset in
      needs_that (not (at == 0)) esp_err_no_mem d1 (
        needs (ioctl (qbuf capture i) d1) esp_fail (λ _ d2.
          map_buffers
            (record cap { mmap = store cap.mmap i at; length = store cap.length i buf.length })
            (suc i) left d2)))

  -- `hal_vcap_open`, from the fields that the structure had. The timeout may fail.
  unfoldable pub open_vcap : Vcap → ℕ → ℕ → Dev → Outcome Dev Vcap
  open_vcap cap width height d = needs_that (opens d) esp_fail d (
      let d1 =
        (ioctl
          (s_dqbuf_timeout (video_dqbuf_timeout_ms / 1000) (video_dqbuf_timeout_ms % 1000 * 1000))
          d).1 in
      needs (ioctl (s_fmt capture width height yuv420 0) d1) esp_fail (λ _ d2.
        let cap2 = record cap {
          width = width;
          height = height;
          stride = (width + width / 2) % 2 ^ 32;
        } in
        needs (ioctl (reqbufs capture cap_buf_count) d2) esp_fail
          (λ _ d3. map_buffers cap2 0 cap_buf_count d3)))

  -- `hal_vcap_start`
  unfoldable pub start : Dev → EspErr × Dev
  start d =
      let (answer, d') = ioctl (streamon capture) d in
      (elim answer [ none ↦ esp_fail | some _ ↦ esp_ok ], d')

  -- `hal_vcap_acquire`, and what it leaves in `frame` when it succeeds.
  unfoldable pub acquire : Vcap → Dev → Outcome Dev VcapFrame
  acquire cap d = needs (ioctl (dqbuf capture) d) esp_err_timeout (λ buf d'.
      gives (record { buf = buf; data_at = cap.mmap buf.index; bytesused = buf.bytesused }) d')

  -- `hal_vcap_release`
  unfoldable pub release : VcapFrame → Dev → EspErr × Dev
  release frame d =
      let (answer, d') = ioctl (qbuf capture frame.buf.index) d in
      (elim answer [ none ↦ esp_fail | some _ ↦ esp_ok ], d')

-- The guards of `hal_vcap_publish_rows`, on the bounds it has clamped: the offset from the start of
-- the frame and the size of what `esp_cache_msync` is given.
unfoldable pub publish_clamped : Vcap → ℤ → ℤ → Option (ℕ × ℕ)
publish_clamped cap y_first y_last =
    if ltb_ℤ y_last y_first
    then none
    else some (pos_part y_first * cap.stride, pos_part (y_last -ℤ y_first +ℤ pos 1) * cap.stride)

-- `hal_vcap_publish_rows`: what it writes back, if anything.
unfoldable pub publish_rows : Vcap → ℤ → ℤ → Option (ℕ × ℕ)
unfolding publish_clamped
publish_rows cap y_first y_last =
    let last_row = pos cap.height -ℤ pos 1 in
    publish_clamped cap (if ltb_ℤ y_first (pos 0) then pos 0 else y_first)
      (if ltb_ℤ last_row y_last then last_row else y_last)

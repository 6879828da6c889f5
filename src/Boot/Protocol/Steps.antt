-- ===== src/Boot/Protocol/Steps.antt =====
-- Each part of the way up keeps the order.
use esp32_ipc.Base.{ℕ, ◌≡◌, ◌==◌, true, false, arith, inl, inr}
use esp32_ipc.Hal.Device.Outcome.{dev, gives, Outcome-cases}
use esp32_ipc.Boot.{Board, Drivers}
use esp32_ipc.Boot.Camera.{hal_video_init}
use esp32_ipc.Boot.Codec.{
  CodecConfig, audio_i2s_init, new_codec, open_codec, codec_step, new_channels,
}
use esp32_ipc.Boot.Protocol.{IsSound, devices, sounds}

module _ (d : Drivers) where
  pub hal_video_init-IsSound : (b : Board) → IsSound b → IsSound (dev (hal_video_init d b))
  unfolding hal_video_init devices
  hal_video_init-IsSound b v = ground arith

  -- The camera driver is up, and the address and the codec are as they were.
  pub hal_video_init-gives :
      (b b' : Board)
      → hal_video_init d b ≡ gives tt b'
      → (b'.is_init ≡ true)
        × ((devices b'.log).online ≡ (devices b.log).online)
        × (b'.codec ≡ b.codec)
  unfolding hal_video_init devices
  hal_video_init-gives b b' h = ground arith

  module _ (k : CodecConfig) where
    new_channels-IsSound : (b : Board) → IsSound b → IsSound (dev (new_channels d k b))
    unfolding new_channels devices
    new_channels-IsSound b v = ground arith

    -- What `new_channels` leaves alone, and that both channels are on when it succeeds.
    new_channels_keeps :
        (b : Board)
        → ((dev (new_channels d k b)).is_init ≡ b.is_init)
          × ((dev (new_channels d k b)).i2s_data_if ≡ b.i2s_data_if)
          × ((dev (new_channels d k b)).codec ≡ b.codec)
    unfolding new_channels
    new_channels_keeps b = ground arith

    new_channels-gives :
        (b b' : Board)
        → new_channels d k b ≡ gives tt b'
        → ((devices b'.log).tx_on ≡ true) × ((devices b'.log).rx_on ≡ true)
    unfolding new_channels devices
    new_channels-gives b b' h = ground arith

    pub audio_i2s_init-IsSound : (b : Board) → IsSound b → IsSound (dev (audio_i2s_init d k b))
    unfolding audio_i2s_init devices
    audio_i2s_init-IsSound b v = elim (Outcome-cases (new_channels d k b)) [
      | inl (e, b', h) ↦ ground (arith, h, new_channels-IsSound b)
      | inr (_, b', h) ↦ ground (arith, h, new_channels-IsSound b, new_channels-gives b b')
    ]

    pub new_codec-IsSound :
        (bus : ℕ) (b : Board)
        → b.is_init ≡ true
        → (b.i2s_data_if == 0) ≡ false
        → b.codec ≡ 0
        → IsSound b
        → IsSound (dev (new_codec d k bus b))
    unfolding new_codec devices
    new_codec-IsSound bus b i f z v = ground arith

    pub open_codec-IsSound :
        (b : Board) → (b.codec == 0) ≡ false → IsSound b → IsSound (dev (open_codec d k b))
    unfolding open_codec codec_step devices
    open_codec-IsSound b c v = ground arith

    pub audio_i2s_init-gives :
        (b b' : Board)
        → audio_i2s_init d k b ≡ gives tt b'
        → ((b'.i2s_data_if == 0) ≡ false) × (b'.is_init ≡ b.is_init) × (b'.codec ≡ b.codec)
    unfolding audio_i2s_init
    audio_i2s_init-gives b b' h = elim (Outcome-cases (new_channels d k b)) [
      | inl (e, c, n) ↦ ground (arith, n)
      | inr (_, c, n) ↦ ground (arith, n, new_channels_keeps b)
    ]

    pub new_codec-gives :
        (bus : ℕ) (b b' : Board) → new_codec d k bus b ≡ gives tt b' → (b'.codec == 0) ≡ false
    unfolding new_codec
    new_codec-gives bus b b' h = ground arith

    pub open_codec-gives :
        (b b' : Board) → open_codec d k b ≡ gives tt b' → sounds (devices b'.log) ≡ true
    unfolding open_codec codec_step devices
    open_codec-gives b b' h = ground arith

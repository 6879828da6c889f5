-- ===== src/Boot/Protocol/Kept.antt =====
-- What the start of the codec leaves as it is.
use esp32_ipc.Base.{ℕ, ◌≡◌, arith, inl, inr}
use esp32_ipc.Hal.Device.Outcome.{dev, Outcome-cases}
use esp32_ipc.Boot.{Board, Drivers}
use esp32_ipc.Boot.Codec.{
  CodecConfig, audio_i2s_init, new_codec, open_codec, codec_step, new_channels, hal_audio_init,
}
use esp32_ipc.Boot.Protocol.{devices}
use esp32_ipc.Boot.Protocol.Codec.{with_bus, bus}

-- The address and the camera driver are as they were.
abbrev pub IsKept : Board → Board → Type 0
IsKept b b' = ((devices b'.log).online ≡ (devices b.log).online) × (b'.is_init ≡ b.is_init)

module _ (d : Drivers) (k : CodecConfig) where
  new_channels-IsKept : (b : Board) → IsKept b (dev (new_channels d k b))
  unfolding new_channels devices
  new_channels-IsKept b = ground arith

  audio_i2s_init-IsKept : (b : Board) → IsKept b (dev (audio_i2s_init d k b))
  unfolding audio_i2s_init devices
  audio_i2s_init-IsKept b = elim (Outcome-cases (new_channels d k b)) [
    | inl (e, c, h) ↦ ground (arith, h, new_channels-IsKept b)
    | inr (_, c, h) ↦ ground (arith, h, new_channels-IsKept b)
  ]

  new_codec-IsKept : (handle : ℕ) (b : Board) → IsKept b (dev (new_codec d k handle b))
  unfolding new_codec devices
  new_codec-IsKept handle b = ground arith

  open_codec-IsKept : (b : Board) → IsKept b (dev (open_codec d k b))
  unfolding open_codec codec_step devices
  open_codec-IsKept b = ground arith

  with_bus-IsKept : (b : Board) → IsKept b (with_bus d k b)
  unfolding devices
  with_bus-IsKept b = ground arith

  pub hal_audio_init-IsKept : (b : Board) → IsKept b (dev (hal_audio_init d k b))
  unfolding hal_audio_init
  hal_audio_init-IsKept b = elim (Outcome-cases (audio_i2s_init d k (with_bus d k b))) [
    | inl (e, c, h) ↦ ground (arith, h, with_bus-IsKept b, audio_i2s_init-IsKept (with_bus d k b))
    | inr (_, c, h) ↦ elim (Outcome-cases (new_codec d k (bus d k b).handle c)) [
      | inl (e, c', n) ↦ ground (
        arith,
        h,
        n,
        with_bus-IsKept b,
        audio_i2s_init-IsKept (with_bus d k b),
        new_codec-IsKept (bus d k b).handle c,
      )
      | inr (_, c', n) ↦ ground (
        arith,
        h,
        n,
        with_bus-IsKept b,
        audio_i2s_init-IsKept (with_bus d k b),
        new_codec-IsKept (bus d k b).handle c,
        open_codec-IsKept c',
      )
    ]
  ]

-- ===== src/Boot/Protocol/Retry.antt =====
-- main/hal/hal_audio.c: `hal_audio_init` when it is called again.
use esp32_ipc.Base.{ℕ, ◌≡◌, ◌≢◌, false, arith, inl, inr}
use esp32_ipc.Esp.{EspErr}
use esp32_ipc.Hal.Device.Outcome.{dev, fails, gives, Outcome-cases}
use esp32_ipc.Boot.{Board, Drivers}
use esp32_ipc.Boot.Codec.{
  CodecConfig, audio_i2s_init, new_codec, open_codec, codec_step, hal_audio_init, new_channels,
}
use esp32_ipc.Boot.Protocol.{devices, sounds}
use esp32_ipc.Boot.Protocol.Codec.{with_bus, bus}

module _ (d : Drivers) (k : CodecConfig) where
  open_codec-fails :
      (b b' : Board) (e : EspErr)
      → (devices b.log).opened ≡ false
      → (devices b.log).volume_set ≡ false
      → (devices b.log).gain_set ≡ false
      → open_codec d k b ≡ fails e b'
      → (sounds (devices b'.log) ≡ false) × (b'.codec ≡ b.codec)
  unfolding open_codec codec_step devices
  open_codec-fails b b' e o v g h = ground arith

  new_codec-unset :
      (handle : ℕ) (b b' : Board)
      → new_codec d k handle b ≡ gives tt b'
      → ((devices b'.log).opened ≡ false)
        × ((devices b'.log).volume_set ≡ false)
        × ((devices b'.log).gain_set ≡ false)
  unfolding new_codec devices
  new_codec-unset handle b b' h = ground arith

  new_codec-fails :
      (handle : ℕ) (b b' : Board) (e : EspErr)
      → b.codec ≡ 0
      → new_codec d k handle b ≡ fails e b'
      → b'.codec ≡ 0
  unfolding new_codec
  new_codec-fails handle b b' e z h = ground arith

  new_channels-codec : (b : Board) → (dev (new_channels d k b)).codec ≡ b.codec
  unfolding new_channels
  new_channels-codec b = ground arith

  audio_i2s_init-codec : (b : Board) → (dev (audio_i2s_init d k b)).codec ≡ b.codec
  unfolding audio_i2s_init
  audio_i2s_init-codec b = elim (Outcome-cases (new_channels d k b)) [
    | inl (e, c, h) ↦ ground (arith, h, new_channels-codec b)
    | inr (_, c, h) ↦ ground (arith, h, new_channels-codec b)
  ]

  -- When the codec device is made but then cannot be opened or set, `hal_audio_init` fails and leaves
  -- `s_codec`: the next call answers `ESP_OK` at once, with no call of a driver, though the codec that
  -- `hal_audio_get_handle` gives is not both opened and set.
  pub hal_audio_init_again :
      (b b' : Board) (e : EspErr)
      → b.codec ≡ 0
      → hal_audio_init d k b ≡ fails e b'
      → b'.codec ≢ 0
      → (hal_audio_init d k b' ≡ gives tt b') × (sounds (devices b'.log) ≡ false)
  unfolding hal_audio_init
  hal_audio_init_again b b' e z g made =
      elim (Outcome-cases (audio_i2s_init d k (with_bus d k b))) [
        | inl (e', c, h) ↦ ground (arith, h, audio_i2s_init-codec (with_bus d k b))
        | inr (_, c, h) ↦ elim (Outcome-cases (new_codec d k (bus d k b).handle c)) [
          | inl (e', c', n) ↦ ground (
            arith,
            h,
            n,
            audio_i2s_init-codec (with_bus d k b),
            new_codec-fails (bus d k b).handle c c' e',
          )
          | inr (_, c', n) ↦
              ground
                (arith, h, n, new_codec-unset (bus d k b).handle c c', open_codec-fails c' b' e)
        ]
      ]

-- ===== src/Boot/Protocol/Codec.antt =====
-- The codec comes up in order, from any state that the firmware can have left, and sounds when
-- `hal_audio_init` succeeds.
use esp32_ipc.Base.{◌≡◌, ◌∷◌, length, true, arith, inl, inr}
use esp32_ipc.Hal.Device.Outcome.{dev, gives, Outcome-cases}
use esp32_ipc.Boot.{Board, Answer, Drivers, get_bus_handle}
use esp32_ipc.Boot.Codec.{CodecConfig, audio_i2s_init, new_codec, hal_audio_init}
use esp32_ipc.Boot.Protocol.{IsSound, devices, sounds}
use esp32_ipc.Boot.Protocol.Steps.{
  audio_i2s_init-IsSound, audio_i2s_init-gives, new_codec-IsSound, new_codec-gives,
  open_codec-IsSound, open_codec-gives,
}

module _ (d : Drivers) (k : CodecConfig) where
  -- What `i2c_master_get_bus_handle` answers, and the board after it.
  abbrev pub bus : Board → Answer
  bus b = d (length b.log) (get_bus_handle k.i2c_num)

  abbrev pub with_bus : Board → Board
  with_bus b = record b {
    log = (record { call = get_bus_handle k.i2c_num; answer = bus b }) ∷ b.log;
  }

  with_bus-IsSound : (b : Board) → b.is_init ≡ true → IsSound b → IsSound (with_bus b)
  unfolding devices
  with_bus-IsSound b i v = ground arith

  -- `hal_audio_init` keeps the calls in order once the camera driver is up, whether this is its first
  -- call or one after any that failed.
  pub hal_audio_init-IsSound :
      (b : Board) → b.is_init ≡ true → IsSound b → IsSound (dev (hal_audio_init d k b))
  unfolding hal_audio_init
  hal_audio_init-IsSound b i v = elim (Outcome-cases (audio_i2s_init d k (with_bus b))) [
    | inl (e, c, h) ↦ ground (arith, h, with_bus-IsSound b, audio_i2s_init-IsSound d k (with_bus b))
    | inr (_, c, h) ↦ elim (Outcome-cases (new_codec d k (bus b).handle c)) [
      | inl (e, c', n) ↦ ground (
        arith,
        h,
        n,
        with_bus-IsSound b,
        audio_i2s_init-IsSound d k (with_bus b),
        audio_i2s_init-gives d k (with_bus b) c,
        new_codec-IsSound d k (bus b).handle c,
      )
      | inr (_, c', n) ↦ ground (
        arith,
        h,
        n,
        with_bus-IsSound b,
        audio_i2s_init-IsSound d k (with_bus b),
        audio_i2s_init-gives d k (with_bus b) c,
        new_codec-IsSound d k (bus b).handle c,
        new_codec-gives d k (bus b).handle c c',
        open_codec-IsSound d k c',
      )
    ]
  ]

  -- When `hal_audio_init` made the codec device in this call and succeeds, it is opened, and its
  -- volume and its gain are set.
  pub hal_audio_init-gives :
      (b b' : Board)
      → b.codec ≡ 0
      → hal_audio_init d k b ≡ gives tt b'
      → sounds (devices b'.log) ≡ true
  unfolding hal_audio_init
  hal_audio_init-gives b b' z g = elim (Outcome-cases (audio_i2s_init d k (with_bus b))) [
    | inl (e, c, h) ↦ ground (arith, h)
    | inr (_, c, h) ↦ elim (Outcome-cases (new_codec d k (bus b).handle c)) [
      | inl (e, c', n) ↦ ground (arith, h, n)
      | inr (_, c', n) ↦ ground (arith, h, n, open_codec-gives d k c' b')
    ]
  ]

-- ===== src/Boot/Protocol/Main.antt =====
-- `app_main` brings the board up in order.
use esp32_ipc.Base.{◌≡◌, true, arith, Bool, inl, inr}
use esp32_ipc.Hal.Device.Outcome.{dev, gives, Outcome-cases}
use esp32_ipc.Boot.{Board, Drivers}
use esp32_ipc.Boot.Netif.{start_and_wait_ip}
use esp32_ipc.Boot.Camera.{hal_video_init}
use esp32_ipc.Boot.Codec.{CodecConfig, hal_audio_init}
use esp32_ipc.Boot.Main.{reset, audio_tasks, bring_up, app_main}
use esp32_ipc.Boot.Protocol.{IsSound, devices}
use esp32_ipc.Boot.Protocol.Netif.{start_and_wait_ip-IsSound, start_and_wait_ip-gives}
use esp32_ipc.Boot.Protocol.Steps.{hal_video_init-IsSound, hal_video_init-gives}
use esp32_ipc.Boot.Protocol.Codec.{hal_audio_init-IsSound, hal_audio_init-gives}
use esp32_ipc.Boot.Protocol.Kept.{hal_audio_init-IsKept}

pub reset-IsSound : IsSound reset
unfolding devices
reset-IsSound = ground arith

module _ (d : Drivers) (eth : Bool) (k : CodecConfig) where
  audio_tasks-IsSound :
      (b : Board)
      → (devices b.log).online ≡ true
      → b.is_init ≡ true
      → b.codec ≡ 0
      → IsSound b
      → IsSound (dev (audio_tasks d eth k b))
        × ((devices (dev (audio_tasks d eth k b)).log).online ≡ true)
        × ((dev (audio_tasks d eth k b)).is_init ≡ true)
  unfolding audio_tasks devices
  audio_tasks-IsSound b o i z v = elim (Outcome-cases (hal_audio_init d k b)) [
    | inl (e, c, h) ↦ ground (arith, h, hal_audio_init-IsSound d k b, hal_audio_init-IsKept d k b)
    | inr (_, c, h) ↦ ground (
      arith,
      h,
      hal_audio_init-IsSound d k b,
      hal_audio_init-IsKept d k b,
      hal_audio_init-gives d k b c,
    )
  ]

  pub bring_up-IsSound : IsSound (dev (bring_up d eth k reset))
  unfolding bring_up devices
  bring_up-IsSound = elim (Outcome-cases (start_and_wait_ip d eth reset)) [
    | inl (e, b, h) ↦ ground (arith, h, reset-IsSound, start_and_wait_ip-IsSound d eth reset)
    | inr (_, b, h) ↦ elim (Outcome-cases (hal_video_init d b)) [
      | inl (e, c, n) ↦ ground (
        arith,
        h,
        n,
        reset-IsSound,
        start_and_wait_ip-IsSound d eth reset,
        hal_video_init-IsSound d b,
      )
      | inr (_, c, n) ↦ ground (
        arith,
        h,
        n,
        reset-IsSound,
        start_and_wait_ip-IsSound d eth reset,
        start_and_wait_ip-gives d eth reset b,
        hal_video_init-IsSound d b,
        hal_video_init-gives d b c,
        audio_tasks-IsSound c,
      )
    ]
  ]

  pub bring_up-online :
      (b : Board) → bring_up d eth k reset ≡ gives tt b → (devices b.log).online ≡ true
  unfolding bring_up devices
  bring_up-online b g = elim (Outcome-cases (start_and_wait_ip d eth reset)) [
    | inl (e, c, h) ↦ ground (arith, h)
    | inr (_, c, h) ↦ elim (Outcome-cases (hal_video_init d c)) [
      | inl (e, c', n) ↦ ground (arith, h, n)
      | inr (_, c', n) ↦ ground (
        arith,
        h,
        n,
        reset-IsSound,
        start_and_wait_ip-IsSound d eth reset,
        start_and_wait_ip-gives d eth reset c,
        hal_video_init-IsSound d c,
        hal_video_init-gives d c c',
        audio_tasks-IsSound c',
      )
    ]
  ]

  -- Whatever the drivers answer and wherever it ends, `app_main` makes its calls in the order that they
  -- ask for: the camera driver and its bus before the codec, an address before any task that uses the
  -- network, and the audio tasks only when the codec is opened and set. The statics then say what the
  -- drivers have.
  pub app_main-IsSound : IsSound (dev (app_main d eth k reset))
  unfolding app_main devices
  app_main-IsSound = elim (Outcome-cases (bring_up d eth k reset)) [
    | inl (e, b, h) ↦ ground (arith, h, bring_up-IsSound)
    | inr (_, b, h) ↦ ground (arith, h, bring_up-IsSound, bring_up-online b)
  ]

  pub app_main-online :
      (b : Board) → app_main d eth k reset ≡ gives tt b → (devices b.log).online ≡ true
  unfolding app_main devices
  app_main-online b g = elim (Outcome-cases (bring_up d eth k reset)) [
    | inl (e, c, h) ↦ ground (arith, h)
    | inr (_, c, h) ↦ ground (arith, h, bring_up-online c)
  ]

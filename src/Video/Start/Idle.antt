-- ===== src/Video/Start/Idle.antt =====
-- What `app_main` calls does not touch the pipeline of main/task/task_video.cpp.
use esp32_ipc.Base.{ℕ, Bool, true, false, ◌≡◌, arith, inl, inr}
use esp32_ipc.Hal.Device.Outcome.{dev, Outcome-cases}
use esp32_ipc.Boot.{Board, Drivers}
use esp32_ipc.Boot.Netif.{
  attach_and_start, eth_driver, netif_start_eth, netif_start_wifi, netif_start, before_start,
  start_and_wait_ip,
}
use esp32_ipc.Boot.Camera.{hal_video_init}
use esp32_ipc.Boot.Codec.{
  CodecConfig, audio_i2s_init, new_codec, open_codec, codec_step, new_channels, hal_audio_init,
}
use esp32_ipc.Boot.Main.{audio_tasks, bring_up, app_main}
use esp32_ipc.Boot.Protocol.Codec.{with_bus, bus}
use esp32_ipc.Video.Start.Ordered.{pipeline}

-- The pipeline is as it was.
abbrev pub IsIdle : Board → Board → Type 0
IsIdle b b' = pipeline b'.log ≡ pipeline b.log

module _ (d : Drivers) where
  before_start-IsIdle : (b : Board) → IsIdle b (dev (before_start d b))
  unfolding before_start pipeline
  before_start-IsIdle b = ground arith

  netif_start_wifi-IsIdle : (b : Board) → IsIdle b (dev (netif_start_wifi d b))
  unfolding netif_start_wifi pipeline
  netif_start_wifi-IsIdle b = ground arith

  eth_driver-IsIdle : (b : Board) → IsIdle b (dev (eth_driver d b))
  unfolding eth_driver pipeline
  eth_driver-IsIdle b = ground arith

  attach_and_start-IsIdle : (eth : ℕ) (b : Board) → IsIdle b (dev (attach_and_start d eth b))
  unfolding attach_and_start pipeline
  attach_and_start-IsIdle eth b = ground arith

  netif_start-IsIdle : (eth : Bool) (b : Board) → IsIdle b (dev (netif_start d eth b))
  unfolding netif_start netif_start_eth
  netif_start-IsIdle false b = netif_start_wifi-IsIdle b
  netif_start-IsIdle true b = elim (Outcome-cases (eth_driver d b)) [
    | inl (e, c, h) ↦ ground (arith, h, eth_driver-IsIdle b)
    | inr (eth, c, h) ↦ ground (arith, h, eth_driver-IsIdle b, attach_and_start-IsIdle eth c)
  ]

  start_and_wait_ip-IsIdle : (eth : Bool) (b : Board) → IsIdle b (dev (start_and_wait_ip d eth b))
  unfolding start_and_wait_ip pipeline
  start_and_wait_ip-IsIdle eth b = elim (Outcome-cases (before_start d b)) [
    | inl (e, c, h) ↦ ground (arith, h, before_start-IsIdle b)
    | inr (_, c, h) ↦ elim (Outcome-cases (netif_start d eth c)) [
      | inl (e, c', n) ↦ ground (arith, h, n, before_start-IsIdle b, netif_start-IsIdle eth c)
      | inr (_, c', n) ↦ ground (arith, h, n, before_start-IsIdle b, netif_start-IsIdle eth c)
    ]
  ]

  hal_video_init-IsIdle : (b : Board) → IsIdle b (dev (hal_video_init d b))
  unfolding hal_video_init pipeline
  hal_video_init-IsIdle b = ground arith

  module _ (k : CodecConfig) where
    new_channels-IsIdle : (b : Board) → IsIdle b (dev (new_channels d k b))
    unfolding new_channels pipeline
    new_channels-IsIdle b = ground arith

    audio_i2s_init-IsIdle : (b : Board) → IsIdle b (dev (audio_i2s_init d k b))
    unfolding audio_i2s_init pipeline
    audio_i2s_init-IsIdle b = elim (Outcome-cases (new_channels d k b)) [
      | inl (e, c, h) ↦ ground (arith, h, new_channels-IsIdle b)
      | inr (_, c, h) ↦ ground (arith, h, new_channels-IsIdle b)
    ]

    new_codec-IsIdle : (handle : ℕ) (b : Board) → IsIdle b (dev (new_codec d k handle b))
    unfolding new_codec pipeline
    new_codec-IsIdle handle b = ground arith

    open_codec-IsIdle : (b : Board) → IsIdle b (dev (open_codec d k b))
    unfolding open_codec codec_step pipeline
    open_codec-IsIdle b = ground arith

    with_bus-IsIdle : (b : Board) → IsIdle b (with_bus d k b)
    unfolding pipeline
    with_bus-IsIdle b = ground arith

    hal_audio_init-IsIdle : (b : Board) → IsIdle b (dev (hal_audio_init d k b))
    unfolding hal_audio_init
    hal_audio_init-IsIdle b = elim (Outcome-cases (audio_i2s_init d k (with_bus d k b))) [
      | inl (e, c, h) ↦ ground (arith, h, with_bus-IsIdle b, audio_i2s_init-IsIdle (with_bus d k b))
      | inr (_, c, h) ↦ elim (Outcome-cases (new_codec d k (bus d k b).handle c)) [
        | inl (e, c', n) ↦ ground (
          arith,
          h,
          n,
          with_bus-IsIdle b,
          audio_i2s_init-IsIdle (with_bus d k b),
          new_codec-IsIdle (bus d k b).handle c,
        )
        | inr (_, c', n) ↦ ground (
          arith,
          h,
          n,
          with_bus-IsIdle b,
          audio_i2s_init-IsIdle (with_bus d k b),
          new_codec-IsIdle (bus d k b).handle c,
          open_codec-IsIdle c',
        )
      ]
    ]

    module _ (eth : Bool) where
      audio_tasks-IsIdle : (b : Board) → IsIdle b (dev (audio_tasks d eth k b))
      unfolding audio_tasks pipeline
      audio_tasks-IsIdle b = elim (Outcome-cases (hal_audio_init d k b)) [
        | inl (e, c, h) ↦ ground (arith, h, hal_audio_init-IsIdle b)
        | inr (_, c, h) ↦ ground (arith, h, hal_audio_init-IsIdle b)
      ]

      pub bring_up-IsIdle : (b : Board) → IsIdle b (dev (bring_up d eth k b))
      unfolding bring_up pipeline
      bring_up-IsIdle b = elim (Outcome-cases (start_and_wait_ip d eth b)) [
        | inl (e, c, h) ↦ ground (arith, h, start_and_wait_ip-IsIdle eth b)
        | inr (_, c, h) ↦ elim (Outcome-cases (hal_video_init d c)) [
          | inl (e, c', n) ↦
              ground (arith, h, n, start_and_wait_ip-IsIdle eth b, hal_video_init-IsIdle c)
          | inr (_, c', n) ↦ ground (
            arith,
            h,
            n,
            start_and_wait_ip-IsIdle eth b,
            hal_video_init-IsIdle c,
            audio_tasks-IsIdle c',
          )
        ]
      ]

      pub app_main-IsIdle : (b : Board) → IsIdle b (dev (app_main d eth k b))
      unfolding app_main pipeline
      app_main-IsIdle b = elim (Outcome-cases (bring_up d eth k b)) [
        | inl (e, c, h) ↦ ground (arith, h, bring_up-IsIdle b)
        | inr (_, c, h) ↦ ground (arith, h, bring_up-IsIdle b)
      ]

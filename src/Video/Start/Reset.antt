-- ===== src/Video/Start/Reset.antt =====
-- main/app_main.cpp and main/task/task_video.cpp: the way up to the loop of `task_video`.
use esp32_ipc.Base.{Bool, refl, ◌≡◌, true, arith, inl, inr}
use esp32_ipc.Hal.Device.Outcome.{Outcome, gives, dev, Outcome-cases}
use esp32_ipc.Boot.{◌>>◌, Board, Drivers, M}
use esp32_ipc.Boot.Codec.{CodecConfig}
use esp32_ipc.Boot.Main.{reset, bring_up, app_main}
use esp32_ipc.Boot.Protocol.{IsSound, devices}
use esp32_ipc.Boot.Protocol.Main.{
  bring_up-IsSound, bring_up-online, app_main-IsSound, app_main-online,
}
use esp32_ipc.Video.Start.{start_video}
use esp32_ipc.Video.Start.Ordered.{
  IsOrdered, AsksBoth, pipeline, not_started, start_video-IsOrdered,
}
use esp32_ipc.Video.Start.Idle.{IsIdle, bring_up-IsIdle, app_main-IsIdle}

-- The calls were in order, with both tasks of the pipeline asked for at the end or none.
abbrev pub ComesUp : Outcome Board (Unit {0}) → Type 0
ComesUp o = IsSound (dev o) × IsOrdered (dev o) × AsksBoth o

idle : pipeline reset.log ≡ not_started
unfolding pipeline
idle = refl

module _ (d : Drivers) where
  -- A way that ends before the pipeline is touched.
  untouched : (b : Board) → IsIdle reset b → IsOrdered b × ((pipeline b.log).tasks_asked ≡ 0)
  unfolding pipeline
  untouched b i = ground (arith, i)

  then_start_video :
      (m : M (Unit {0}))
      → IsSound (dev (m reset))
      → ((b : Board) → m reset ≡ gives tt b → (devices b.log).online ≡ true)
      → IsIdle reset (dev (m reset))
      → ComesUp ((m >> start_video d) reset)
  unfolding pipeline
  then_start_video m v o i = elim (Outcome-cases (m reset)) [
    | inl (e, b, h) ↦ ground (arith, h, v, i, untouched b)
    | inr (_, b, h) ↦ ground (arith, h, v, i, o b h, idle, start_video-IsOrdered d b)
  ]

  -- Whatever the drivers answer and wherever it ends, the board comes up from a reset with its calls in
  -- order: those of `app_main`, and those of `task_video` up to its loop, whether that runs as soon as
  -- `app_main` has created its task or after the end of `app_main`. When `task_video` comes to its
  -- loop, FreeRTOS was asked for both tasks of the pipeline, and for none when the way ends before;
  -- what it answers is not looked at, so that a task may still be missing.
  pub boot-ComesUp :
      (eth : Bool) (k : CodecConfig)
      → ComesUp ((bring_up d eth k >> start_video d) reset)
        × ComesUp ((app_main d eth k >> start_video d) reset)
  boot-ComesUp eth k = (
    then_start_video (bring_up d eth k) (bring_up-IsSound d eth k) (bring_up-online d eth k)
        (bring_up-IsIdle d k eth reset),
    then_start_video (app_main d eth k) (app_main-IsSound d eth k) (app_main-online d eth k)
        (app_main-IsIdle d k eth reset),
  )

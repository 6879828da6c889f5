-- ===== src/Boot/Main.antt =====
-- main/app_main.cpp: the way up.
use esp32_ipc.Base.{Bool, false, []}
use esp32_ipc.Config.{
  task_speaker_stack_size, task_prio_speaker, task_core_speaker, task_audio_stack_size,
  task_prio_audio, task_core_audio, task_video_stack_size, task_prio_video_init, task_core_video,
  task_webrtc_stack_size, task_prio_webrtc, task_core_webrtc,
}
use esp32_ipc.Hal.Device.Outcome.{fails, gives}
use esp32_ipc.Boot.{◌>>◌, Board, Drivers, M, done, ask, create_task, speaker, audio, camera, webrtc}
use esp32_ipc.Boot.Netif.{start_and_wait_ip}
use esp32_ipc.Boot.Camera.{hal_video_init}
use esp32_ipc.Boot.Codec.{CodecConfig, hal_audio_init}

-- The statics after a reset.
abbrev pub reset : Board
reset = record {
  log = [];
  event_group = 0;
  is_init = false;
  codec = 0;
  i2s_data_if = 0;
  tx_handle = 0;
  rx_handle = 0;
  ppa = 0;
  cap_queue = 0;
  pc = 0;
  jitter = 0;
}

module _ (d : Drivers) (eth : Bool) (k : CodecConfig) where
  -- The two audio tasks, if the codec came up.
  unfoldable pub audio_tasks : M (Unit {0})
  audio_tasks b = elim (hal_audio_init d k b) [
    | fails e b' ↦ gives tt b'
    | gives _ b' ↦
        (do
          ask d (create_task speaker task_speaker_stack_size task_prio_speaker task_core_speaker)
          ask d (create_task audio task_audio_stack_size task_prio_audio task_core_audio)
          done)
          b'
  ]

  -- `app_main` up to the task of the camera.
  unfoldable pub bring_up : M (Unit {0})
  bring_up = do
    start_and_wait_ip d eth
    hal_video_init d
    audio_tasks
    ask d (create_task camera task_video_stack_size task_prio_video_init task_core_video)
    done

  -- `app_main`. A failed `ESP_ERROR_CHECK`, which aborts, is a failure.
  unfoldable pub app_main : M (Unit {0})
  app_main = do
    bring_up
    ask d (create_task webrtc task_webrtc_stack_size task_prio_webrtc task_core_webrtc)
    done

-- ===== src/Video/Start.antt =====
-- main/task/task_video.cpp: the start of `task_video`, up to its loop.
pub mod Ordered
pub mod Idle
pub mod Reset
mod Tests
use esp32_ipc.Esp.{esp_fail}
use esp32_ipc.Config.{
  cam_width, cam_height, h264_i_period, h264_bitrate, h264_min_qp, h264_max_qp, video_queue_len,
  task_capture_stack_size, task_prio_video_cap, task_encode_stack_size, task_prio_video_enc,
  task_core_video, task_prio_stats,
}
use esp32_ipc.Boot.{
  Drivers, M, ◌>>=◌, ◌>>◌, done, assign, not_null, ask, on_error, ppa_register_client, vcap_open,
  h264_open, h264_start, vcap_start, detector_start, queue_create, priority_set, create_task,
  video_cap, video_enc,
}
use esp32_ipc.Boot.Camera.{hal_video_init}

module _ (d : Drivers) where
  -- The devices: a failed `ESP_ERROR_CHECK`, which aborts, is a failure.
  unfoldable pub open_devices : M (Unit {0})
  open_devices = do
    assign (λ b. record b { ppa = 0; cap_queue = 0 })
    ppa ← on_error d ppa_register_client
    assign (λ b. record b { ppa = ppa.handle })
    hal_video_init d
    on_error d (vcap_open cam_width cam_height)
    on_error d (h264_open cam_width cam_height h264_i_period h264_bitrate h264_min_qp h264_max_qp)
    on_error d h264_start
    on_error d vcap_start
    done

  -- The queue, whose failed `assert` aborts, the detector, whose failure is only logged, and the tasks.
  unfoldable pub start_tasks : M (Unit {0})
  start_tasks = do
    queue ← ask d (queue_create video_queue_len)
    assign (λ b. record b { cap_queue = queue.handle })
    not_null queue.handle esp_fail
    ask d detector_start
    ask d (create_task video_cap task_capture_stack_size task_prio_video_cap task_core_video)
    ask d (create_task video_enc task_encode_stack_size task_prio_video_enc task_core_video)
    ask d (priority_set task_prio_stats)
    done

  -- `task_video` up to its loop.
  unfoldable pub start_video : M (Unit {0})
  start_video = do open_devices; start_tasks

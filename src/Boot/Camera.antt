-- ===== src/Boot/Camera.antt =====
-- main/hal/hal_video_init.c: the start of the camera driver, once.
use esp32_ipc.Base.{true}
use esp32_ipc.Boot.{unless, ◌>>◌, Drivers, M, assign, on_error, video_init}

-- `hal_video_init`
unfoldable pub hal_video_init : Drivers → M (Unit {0})
hal_video_init d b =
    unless b.is_init (do on_error d video_init; assign (λ b. record b { is_init = true })) b

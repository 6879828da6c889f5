-- ===== src/Hal/Ppa/Tests.antt =====
-- The pixel accelerator with the sizes of the detector.
use esp32_ipc.Base.{◌≤◌, ◌≡◌, ◌↔◌, true, arith}
use esp32_ipc.Config.{cam_width, cam_height, det_width, det_height}
use esp32_ipc.Hal.Ppa.{scale_is_exact, srm_config, SrmConfig}
use esp32_ipc.Hal.Ppa.Exact.{scaled, IsFilled, srm_config-IsFilled}

abbrev feed : SrmConfig
feed = srm_config 64 cam_width cam_height 128 259200 det_width det_height

srm_config-IsFilled_example :
    (scaled feed.scale_x feed.in_block_w ≤ det_width)
    × (scaled feed.scale_y feed.in_block_h ≤ det_height)
    × (IsFilled feed ↔ (
        (scale_is_exact cam_width det_width ≡ true)
        × (scale_is_exact cam_height det_height ≡ true)))
srm_config-IsFilled_example =
    srm_config-IsFilled 64 cam_width cam_height 128 259200 det_width det_height (omega arith)
      (omega arith)

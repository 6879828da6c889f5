-- ===== src/Video/Start/Tests.antt =====
-- The board from a reset to the loop of the video task.
use esp32_ipc.Base.{true}
use esp32_ipc.Boot.{◌>>◌}
use esp32_ipc.Boot.Main.{reset, bring_up, app_main}
use esp32_ipc.Boot.Tests.{working, config}
use esp32_ipc.Video.Start.{start_video}
use esp32_ipc.Video.Start.Reset.{ComesUp, boot-ComesUp}

boot-ComesUp_example :
    ComesUp ((bring_up working true config >> start_video working) reset)
    × ComesUp ((app_main working true config >> start_video working) reset)
boot-ComesUp_example = boot-ComesUp working true config

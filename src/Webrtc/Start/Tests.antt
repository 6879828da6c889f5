-- ===== src/Webrtc/Start/Tests.antt =====
-- The start of the WebRTC task at concrete inputs.
use esp32_ipc.Base.{◌≡◌, refl, true, false, suc}
use esp32_ipc.Hal.Device.Outcome.{dev}
use esp32_ipc.Esp.{esp_fail}
use esp32_ipc.Boot.{Drivers}
use esp32_ipc.Boot.Main.{reset}
use esp32_ipc.Webrtc.Start.{start_webrtc}
use esp32_ipc.Webrtc.Start.Peers.{peers, IsSettled, start_webrtc-IsSettled}

-- No task can be created.
abbrev no_task : Drivers
no_task n c = record { err = esp_fail; handle = suc n; second = 0 }

none_up_at_reset :
    peers reset.log ≡ record { up = false; live = 0; task = false; ended = false; in_order = true }
unfolding peers
none_up_at_reset = refl

start_webrtc-IsSettled_example :
    ((peers (dev (start_webrtc no_task reset)).log).in_order ≡ true)
    × IsSettled (start_webrtc no_task reset)
start_webrtc-IsSettled_example = start_webrtc-IsSettled no_task reset none_up_at_reset

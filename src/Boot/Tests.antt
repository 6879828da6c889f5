-- ===== src/Boot/Tests.antt =====
-- The theorems on the way up, with concrete drivers.
use esp32_ipc.Base.{suc, ◌+◌, ◌≡◌, ◌≢◌, refl, arith}
use esp32_ipc.Esp.{EspErr, esp_ok, esp_fail}
use esp32_ipc.Hal.Device.Outcome.{dev, fails}
use esp32_ipc.Boot.{Call, Board, Drivers, codec_open}
use esp32_ipc.Boot.Codec.{
  CodecConfig, hal_audio_init, audio_i2s_init, new_channels, new_codec, open_codec, codec_step,
}
use esp32_ipc.Boot.Main.{reset}
use esp32_ipc.Boot.Protocol.{IsSound}
use esp32_ipc.Boot.Protocol.Main.{reset-IsSound}
use esp32_ipc.Boot.Protocol.Steps.{hal_video_init-IsSound}
use esp32_ipc.Boot.Camera.{hal_video_init}

-- Every call succeeds, and each handle is another.
abbrev pub working : Drivers
working n c = record { err = esp_ok; handle = suc n; second = 100 + n }

-- The codec cannot be opened.
abbrev answer : Call → EspErr
answer (codec_open handle) = esp_fail
answer _ = esp_ok

abbrev no_codec : Drivers
no_codec n c = record { err = answer c; handle = suc n; second = 100 + n }

abbrev pub config : CodecConfig
config = record { i2c_num = 0; i2s_num = 0; volume = 70 }

-- The board once the camera driver is up.
abbrev pub up : Board
up = dev (hal_video_init working reset)

pub up-IsSound : IsSound up
up-IsSound = hal_video_init-IsSound working reset reset-IsSound

abbrev unopened : Board
unopened = dev (hal_audio_init no_codec config up)

up_codec : up.codec ≡ 0
unfolding hal_video_init
up_codec = refl

init_fails : hal_audio_init no_codec config up ≡ fails esp_fail unopened
unfolding hal_audio_init audio_i2s_init new_channels new_codec open_codec codec_step hal_video_init
init_fails = refl

codec_made : unopened.codec ≢ 0
unfolding hal_audio_init audio_i2s_init new_channels new_codec open_codec codec_step hal_video_init
codec_made = omega arith

-- ===== src/Audio/Start/Tests.antt =====
-- The start of the microphone task at concrete inputs.
use esp32_ipc.Base.{suc, ◌==◌, if◌then◌else◌}
use esp32_ipc.Esp.{esp_ok}
use esp32_ipc.Boot.{Board, Drivers}
use esp32_ipc.Boot.Main.{reset}
use esp32_ipc.Audio.Start.{start_audio}
use esp32_ipc.Audio.Start.Blocks.{IsBalanced, blocks, start_audio-IsBalanced}

-- The second allocation fails.
abbrev short_of_memory : Drivers
short_of_memory n c = record { err = esp_ok; handle = if n == 1 then 0 else suc n; second = 0 }

abbrev with_codec : Board
with_codec = record reset { codec = 7 }

start_audio-IsBalanced_example :
    IsBalanced (blocks with_codec.log) (start_audio short_of_memory with_codec)
start_audio-IsBalanced_example = start_audio-IsBalanced short_of_memory with_codec

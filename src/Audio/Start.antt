-- ===== src/Audio/Start.antt =====
-- main/task/task_audio.cpp: the start of `task_audio`, up to its loop.
pub mod Blocks
mod Tests
use esp32_ipc.Base.{Bool, true, false, ◌==◌, ◌||◌, ◌/◌}
use esp32_ipc.Config.{audio_read_bytes}
use esp32_ipc.Boot.{Drivers, M, ◌>>=◌, ◌>>◌, branch, pure, ask, malloc, free, delete_self}
use esp32_ipc.Boot.Codec.{hal_audio_get_handle}

module _ (d : Drivers) where
  -- `task_audio` up to its loop: whether it comes to it, or ends.
  unfoldable pub start_audio : M Bool
  unfolding hal_audio_get_handle
  start_audio b =
      branch (hal_audio_get_handle b == 0) (do ask d delete_self; pure false)
        (do
          pcm ← ask d (malloc audio_read_bytes)
          g711a ← ask d (malloc (audio_read_bytes / 2))
          branch (pcm.handle == 0 || g711a.handle == 0)
              (do ask d (free pcm.handle); ask d (free g711a.handle); ask d delete_self; pure false)
              (pure true))
        b

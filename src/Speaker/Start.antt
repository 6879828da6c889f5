-- ===== src/Speaker/Start.antt =====
-- main/task/task_speaker.cpp: the start of `task_speaker`, up to its welcome tone.
use esp32_ipc.Base.{Bool, true, false, ◌==◌}
use esp32_ipc.Config.{audio_spk_jitter_bytes, audio_samples_per_packet}
use esp32_ipc.Boot.{
  Drivers, M, ◌>>=◌, ◌>>◌, assign, branch, pure, ask, stream_buffer_create, delete_self,
}
use esp32_ipc.Boot.Codec.{hal_audio_get_handle}

module _ (d : Drivers) where
  -- `task_speaker` up to its welcome tone: whether it comes to it, or ends.
  unfoldable pub start_speaker : M Bool
  unfolding hal_audio_get_handle
  start_speaker b =
      branch (hal_audio_get_handle b == 0) (do ask d delete_self; pure false)
        (do
          made ← ask d (stream_buffer_create audio_spk_jitter_bytes audio_samples_per_packet)
          assign (λ c. record c { jitter = made.handle })
          branch (made.handle == 0) (do ask d delete_self; pure false) (pure true))
        b

-- ===== src/Audio.antt =====
-- main/task/task_audio.cpp: the microphone task reads PCM from the codec, codes it and sends it.
pub mod Uplink
pub mod Loopback
pub mod Start
mod Tests
use esp32_ipc.Base.{ℕ, zero, suc, ◌/◌, store, Bool, Option, none, some, if◌then◌else◌}
use esp32_ipc.Base.Int.{ℤ}
use esp32_ipc.Config.{audio_read_bytes}
use esp32_ipc.G711.{encode}

-- `AUDIO_READ_BYTES / sizeof(int16_t)`
abbrev pub frames : ℕ
frames = audio_read_bytes / 2

-- The loop over the samples from `i` on, with `left` rounds left.
unfoldable pub encode_from : (ℕ → ℤ) → (ℕ → ℕ) → ℕ → ℕ → ℕ → ℕ
encode_from pcm g711a i zero = g711a
encode_from pcm g711a i (suc left) = encode_from pcm (store g711a i (encode (pcm i))) (suc i) left

-- What the task keeps: the two buffers.
pub record Audio : Type 0 where
  pub pcm : ℕ → ℤ
  pub g711a : ℕ → ℕ

module _ {ℓ} {Codec : Type ℓ} where
  -- One round of the loop of `task_audio`. `read` is `esp_codec_dev_read`, which answers whether it
  -- filled the buffer, and what is in it. What is sent is the buffer and its length.
  unfoldable pub audio_round :
      (Codec → Bool × (ℕ → ℤ) × Codec) → Audio → Codec → Option ((ℕ → ℕ) × ℕ) × Audio × Codec
  unfolding encode_from
  audio_round read a codec =
      let (ok, pcm', codec') = read codec in
      let g711a' = encode_from pcm' a.g711a 0 frames in
      if ok
      then (some (g711a', frames), record { pcm = pcm'; g711a = g711a' }, codec')
      else (none, record a { pcm = pcm' }, codec')

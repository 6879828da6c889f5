-- ===== src/Speaker/Tone/Tests.antt =====
-- The welcome tone at concrete inputs.
use esp32_ipc.Base.{ℕ, suc, ◌+◌, ltb, Bool, List}
use esp32_ipc.Base.Int.{ℤ, pos}
use esp32_ipc.Speaker.Tone.{notes, play_welcome_tone}
use esp32_ipc.Speaker.Tone.Chunks.{Returns, all_samples, play_welcome_tone-Returns}

-- A codec by its writes, of which the ninth fails.
abbrev write : List ℤ → ℕ → Bool × ℕ
write chunk n = (ltb n 8, suc n)

abbrev ramp : ℕ → ℕ → ℤ
ramp note i = pos (note + i)

play_welcome_tone-Returns_example :
    Returns write ramp (all_samples write ramp 0 notes) (play_welcome_tone write ramp 0)
play_welcome_tone-Returns_example = play_welcome_tone-Returns write ramp 0

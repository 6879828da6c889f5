-- ===== src/Audio/Tests.antt =====
-- The theorems on main/task/task_audio.cpp at concrete inputs.
use esp32_ipc.Base.{ℕ, suc, arith, Bool, true, some, List, [], ◌++◌, map, refl}
use esp32_ipc.Base.Int.{ℤ, pos}
use esp32_ipc.G711.{decode, encode}
use esp32_ipc.Audio.{Audio, audio_round, encode_from}
use esp32_ipc.Audio.Loopback.{speak, Near, heard-Near}
use esp32_ipc.Speaker.{submit, submit_to}
use esp32_ipc.Speaker.Stream.{Run, Reach, here, next, submits}
use esp32_ipc.Speaker.Tests.{listed}

-- A codec by how often it was read, with a ramp of samples.
abbrev read : ℕ → Bool × (ℕ → ℤ) × ℕ
read codec = (true, λ i. pos i, suc codec)

abbrev silent : Audio
silent = record { pcm = λ i. pos 0; g711a = λ i. 0 }

abbrev listener : Run listed
listener = record {
  speaker = record { jitter = some (record { bytes = []; limit = 400 }); dropped = 0 };
  accepted = [];
  played = [];
}

-- Two rounds, each taken whole as one payload.
abbrev said : List ℕ
said = (speak read 2 silent 7).1

abbrev listened : Run listed
listened = record {
  speaker = record { jitter = some (record { bytes = said; limit = 400 }); dropped = 0 };
  accepted = said;
  played = [];
}

to_listened : Reach listed listener listened
unfolding submit submit_to speak audio_round encode_from encode
to_listened = next here (submits said)

heard-Near_example : Near (speak read 2 silent 7).0 ([] ++ map decode (speak read 2 silent 7).1)
heard-Near_example =
    heard-Near read listed 2 silent 7 {r = listener} {s = listened} (λ c j h. omega arith) refl
      to_listened refl

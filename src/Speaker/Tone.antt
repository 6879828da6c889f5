-- ===== src/Speaker/Tone.antt =====
-- main/task/task_speaker.cpp: the welcome tone, cut into chunks. The samples are made in floating
-- point: what a note has at each place is a parameter.
pub mod Chunks
mod Tests
use esp32_ipc.Base.{
  ℕ, zero, suc, ◌+◌, ◌-◌, ◌*◌, ◌/◌, ltb, Bool, true, false, if◌then◌else◌, Option, none, some, List,
  [], ◌∷◌, ◌++◌,
}
use esp32_ipc.Base.Int.{ℤ}
use esp32_ipc.Config.{audio_sample_rate, audio_samples_per_packet}

-- The lengths of the notes, in milliseconds.
abbrev pub notes : List ℕ
notes = 120 ∷ 120 ∷ 260 ∷ []

-- `total`, the samples of a note.
unfoldable pub total_of : ℕ → ℕ
total_of ms = ms * audio_sample_rate / 1000

-- `count`, the samples of the next chunk.
unfoldable pub count_of : ℕ → ℕ → ℕ
count_of total done =
    if ltb audio_samples_per_packet (total - done) then audio_samples_per_packet else total - done

module _ {Codec : Type 0} (write : List ℤ → Codec → Bool × Codec) (tone : ℕ → ℕ → ℤ) where
  -- The loop over a chunk: the samples of a note from place `i` on.
  unfoldable pub samples : ℕ → ℕ → ℕ → List ℤ
  samples note i zero = []
  samples note i (suc left) = tone note i ∷ samples note (suc i) left

  -- Whether all writes succeeded, the codec, and the chunks that were written, the last one perhaps
  -- in vain.
  pub record Played : Type 0 where
    pub completed : Bool
    pub codec : Codec
    pub written : List (List ℤ)

  -- What is played after some chunks.
  abbrev pub prepend : List (List ℤ) → Option Played → Option Played
  prepend chunks none = none
  prepend chunks (some q) = some (record q { written = chunks ++ q.written })

  -- A chunk: a failed write ends the tone.
  abbrev pub play_chunk : Bool × Codec → List ℤ → (Codec → Option Played) → Option Played
  play_chunk (true, c) chunk rest = prepend (chunk ∷ []) (rest c)
  play_chunk (false, c) chunk rest =
      some (record { completed = false; codec = c; written = chunk ∷ [] })

  -- The loop over a note from `done` on, with fuel; none when it runs out.
  unfoldable pub play_note : ℕ → ℕ → ℕ → ℕ → Codec → Option Played
  unfolding count_of samples
  play_note zero note total done c = none
  play_note (suc fuel) note total done c = elim (ltb done total) [
    | false ↦ some (record { completed = true; codec = c; written = [] })
    | true ↦
        play_chunk (write (samples note done (count_of total done)) c)
          (samples note done (count_of total done))
          (λ c'. play_note fuel note total (done + count_of total done) c')
  ]

  -- What is played after a note: a note that did not end ends the tone.
  abbrev pub go_on : Bool → Played → (Codec → Option Played) → Option Played
  go_on true p rest = prepend p.written (rest p.codec)
  go_on false p rest = some p

  abbrev pub after_note : Option Played → (Codec → Option Played) → Option Played
  after_note none rest = none
  after_note (some p) rest = go_on p.completed p rest

  -- The loop over the notes, from the one of number `note` on.
  unfoldable pub play_notes : ℕ → List ℕ → Codec → Option Played
  play_notes note [] c = some (record { completed = true; codec = c; written = [] })
  play_notes note (ms ∷ rest) c =
      after_note (play_note (suc (total_of ms)) note (total_of ms) 0 c)
        (λ c'. play_notes (suc note) rest c')

  -- `play_welcome_tone`
  unfoldable pub play_welcome_tone : Codec → Option Played
  play_welcome_tone c = play_notes 0 notes c

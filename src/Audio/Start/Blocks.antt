-- ===== src/Audio/Start/Blocks.antt =====
-- What the start of `task_audio` leaves allocated.
use esp32_ipc.Base.{
  ℕ, suc, length, ◌/◌, ◌≡◌, ◌==◌, Bool, true, false, if◌then◌else◌, List, [], ◌∷◌, arith,
  Bool-cases, inl, inr,
}
use esp32_ipc.Hal.Device.Outcome.{Outcome, fails, gives}
use esp32_ipc.Boot.{Call, Answer, Event, Board, Drivers, malloc, free}
use esp32_ipc.Config.{audio_read_bytes}
use esp32_ipc.Audio.Start.{start_audio}

==_refl : (n : ℕ) → (n == n) ≡ true
==_refl n = ground arith

-- A list without the first `h`.
unfoldable pub remove : ℕ → List ℕ → List ℕ
remove h [] = []
remove h (x ∷ xs) = if x == h then xs else x ∷ remove h xs

-- The blocks that are allocated after a call: none for `NULL`, and `free` of `NULL` does nothing.
abbrev pub after : Call → ℕ → List ℕ → List ℕ
after (malloc n) a blocks = if a == 0 then blocks else a ∷ blocks
after (free h) a blocks = if h == 0 then blocks else remove h blocks
after _ a blocks = blocks

unfoldable pub blocks : List Event → List ℕ
blocks [] = []
blocks (e ∷ log) = after e.call e.answer.handle (blocks log)

-- The task has its two buffers, or what it allocated is free again.
abbrev pub IsBalanced : List ℕ → Outcome Board Bool → Type 0
IsBalanced old (fails e b) = true ≡ false
IsBalanced old (gives true b) =
    (pcm : ℕ) × (g711a : ℕ) × ((pcm == 0) ≡ false)
    × ((g711a == 0) ≡ false)
    × (blocks b.log ≡ g711a ∷ pcm ∷ old)
IsBalanced old (gives false b) = blocks b.log ≡ old

module _ (d : Drivers) where
  abbrev pcm : Board → Answer
  pcm b = d (length b.log) (malloc audio_read_bytes)

  abbrev g711a : Board → Answer
  g711a b = d (suc (length b.log)) (malloc (audio_read_bytes / 2))

  -- Whatever `malloc` answers, `task_audio` comes to its loop with both buffers, or ends with none of
  -- what it allocated: an allocation that succeeded is freed when the other did not.
  pub start_audio-IsBalanced : (b : Board) → IsBalanced (blocks b.log) (start_audio d b)
  unfolding start_audio blocks remove
  start_audio-IsBalanced b = elim (Bool-cases (b.codec == 0)) [
    | inl no_codec ↦ rw no_codec
    | inr codec ↦ elim (Bool-cases ((pcm b).handle == 0)) [
      | inl no_pcm ↦ elim (Bool-cases ((g711a b).handle == 0)) [
        | inl no_g711a ↦ rw (codec, no_pcm) (ground arith)
        | inr made ↦ rw (codec, no_pcm) (ground (arith, ==_refl (g711a b).handle))
      ]
      | inr made_pcm ↦ elim (Bool-cases ((g711a b).handle == 0)) [
        | inl no_g711a ↦ rw (codec, made_pcm, no_g711a) (ground (arith, ==_refl (pcm b).handle))
        | inr made ↦
            rw (codec, made_pcm, made)
              ((pcm b).handle, (g711a b).handle, made_pcm, made, ground arith)
      ]
    ]
  ]

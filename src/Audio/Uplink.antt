-- ===== src/Audio/Uplink.antt =====
-- What a round sends.
use esp32_ipc.Base.{
  ℕ, zero, suc, ◌+◌, ◌≤◌, ◌<◌, ◌≡◌, refl, sym, subst, ◌∙◌, ◌⊎◌, ◌*◌, max, ℕ_discrete, arith, store,
  store_self, store_ne, Bool, Bool-cases, inl, inr, false, none, some,
}
use esp32_ipc.Base.Int.{ℤ}
use esp32_ipc.Config.{audio_samples_per_packet}
use esp32_ipc.G711.{encode, decode}
use esp32_ipc.G711.Laws.{IsSample, gap, abs, decode-encode_near}
use esp32_ipc.Audio.{Audio, frames, encode_from, audio_round}

encode_from-before :
    (pcm : ℕ → ℤ) (g711a : ℕ → ℕ) (i left j : ℕ) → j < i → encode_from pcm g711a i left j ≡ g711a j
unfolding encode_from
encode_from-before pcm g711a i zero j h = refl
encode_from-before pcm g711a i (suc left) j h =
    rw (encode_from-before pcm (store g711a i (encode (pcm i))) (suc i) left j (omega arith))
      (store_ne g711a i j (encode (pcm i)) (omega arith))

pub encode_from-at :
    (pcm : ℕ → ℤ) (g711a : ℕ → ℕ) (i left j : ℕ)
    → i ≤ j
    → j < i + left
    → encode_from pcm g711a i left j ≡ encode (pcm j)
unfolding encode_from
encode_from-at pcm g711a i zero j h k = absurd (omega arith)
encode_from-at pcm g711a i (suc left) j h k = elim (ℕ_discrete i j) [
  | yes same ↦
      encode_from-before pcm (store g711a i (encode (pcm i))) (suc i) left j (omega arith)
      ∙ subst (λ k. store g711a i (encode (pcm i)) k ≡ encode (pcm k)) same
          (store_self g711a i (encode (pcm i)))
  | no apart ↦
      encode_from-at pcm (store g711a i (encode (pcm i))) (suc i) left j (omega arith) (omega arith)
]

-- When the read succeeds, a round sends one packet of `AUDIO_SAMPLES_PER_PACKET` bytes of which each
-- decodes to its sample, with an error of 8 at most or of a part in 32; when it fails, nothing is sent.
pub audio_round-near :
    {Codec : Type 0} (read : Codec → Bool × (ℕ → ℤ) × Codec) (a : Audio) (codec : Codec) (j : ℕ)
    → j < audio_samples_per_packet
    → IsSample ((read codec).1 j)
    → (((read codec).0 ≡ false) × ((audio_round read a codec).0 ≡ none))
      ⊎ ((sent : ℕ → ℕ) × ((audio_round read a codec).0 ≡ some (sent, audio_samples_per_packet))
          × (32 * gap ((read codec).1 j) (decode (sent j)) ≤ max 256 (abs ((read codec).1 j))))
unfolding audio_round
audio_round-near read a codec j within sample = elim (Bool-cases (read codec).0) [
  | inl done ↦ rw done (
      inr (
        _,
        refl,
        subst (λ b. 32 * gap ((read codec).1 j) (decode b) ≤ max 256 (abs ((read codec).1 j)))
            (sym (encode_from-at (read codec).1 a.g711a 0 frames j (omega arith) (omega arith)))
            (decode-encode_near ((read codec).1 j) sample),
      ))
  | inr failed ↦ rw failed (inl (refl, refl))
]

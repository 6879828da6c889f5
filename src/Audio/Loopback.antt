-- ===== src/Audio/Loopback.antt =====
-- main/task/task_audio.cpp and task_speaker.cpp together: the sound that one device takes in, as
-- another one plays it.
use esp32_ipc.Base.{
  ℕ, zero, suc, ◌+◌, ◌*◌, ◌≤◌, ◌<◌, ◌≡◌, sym, subst, ap, ◌∙◌, max, arith, Bool, Bool-cases, inl,
  inr, Option, none, some, List, [], ◌∷◌, ◌++◌, map, map-append, if◌then◌else◌,
}
use esp32_ipc.Base.Int.{ℤ}
use esp32_ipc.Config.{audio_samples_per_packet}
use esp32_ipc.Esp.{StreamBuffer}
use esp32_ipc.G711.{encode, decode}
use esp32_ipc.G711.Laws.{IsSample, gap, abs, decode-encode_near}
use esp32_ipc.Audio.{Audio, frames, encode_from, audio_round}
use esp32_ipc.Audio.Uplink.{encode_from-at}
use esp32_ipc.Speaker.Stream.{Run, Reach, IsFaithful, Reach-IsFaithful, waiting}

-- The cells `i..i + n - 1` of an array.
abbrev pub cells {ℓ} : {A : Type ℓ} → (ℕ → A) → ℕ → ℕ → List A
cells f i zero = []
cells f i (suc n) = f i ∷ cells f (suc i) n

-- The same samples, each with an error of 8 at most or of a part in 32.
abbrev pub Near : List ℤ → List ℤ → Type 0
Near [] [] = Unit {0}
Near (x ∷ xs) (y ∷ ys) = (32 * gap x y ≤ max 256 (abs x)) × Near xs ys
Near _ _ = ⊥

Near-append : (xs ys xs' ys' : List ℤ) → Near xs ys → Near xs' ys' → Near (xs ++ xs') (ys ++ ys')
Near-append [] [] xs' ys' h k = k
Near-append [] (y ∷ ys) xs' ys' h k = elim h [ ]
Near-append (x ∷ xs) [] xs' ys' h k = elim h [ ]
Near-append (x ∷ xs) (y ∷ ys) xs' ys' h k = (h.0, Near-append xs ys xs' ys' h.1 k)

Near-cells :
    (pcm : ℕ → ℤ) (sent : ℕ → ℕ) (i n : ℕ)
    → ((j : ℕ) → i ≤ j → j < i + n → IsSample (pcm j))
    → ((j : ℕ) → i ≤ j → j < i + n → sent j ≡ encode (pcm j))
    → Near (cells pcm i n) (map decode (cells sent i n))
Near-cells pcm sent i zero s h = tt
Near-cells pcm sent i (suc n) s h = (
  subst (λ b. 32 * gap (pcm i) (decode b) ≤ max 256 (abs (pcm i)))
      (sym (h i (omega arith) (omega arith)))
      (decode-encode_near (pcm i) (s i (omega arith) (omega arith))),
  Near-cells pcm sent (suc i) n (λ j lo hi. s j (omega arith) (omega arith))
      (λ j lo hi. h j (omega arith) (omega arith)),
)

-- The bytes of a packet, if one is sent.
abbrev pub packet : Option ((ℕ → ℕ) × ℕ) → List ℕ
packet none = []
packet (some (buf, len)) = cells buf 0 len

module _ {Codec : Type 0} (read : Codec → Bool × (ℕ → ℤ) × Codec) where
  -- `n` rounds of the microphone task: the samples of the reads that succeeded, and the bytes sent.
  unfoldable pub speak : ℕ → Audio → Codec → List ℤ × List ℕ
  speak zero a codec = ([], [])
  speak (suc n) a codec =
      let (sent, a', codec') = audio_round read a codec in
      let (samples, bytes) = speak n a' codec' in
      (
        (if (read codec).0 then cells (read codec).1 0 frames else []) ++ samples,
        packet sent ++ bytes,
      )

  round-Near :
      (a : Audio) (codec : Codec)
      → ((c : Codec) (j : ℕ) → j < audio_samples_per_packet → IsSample ((read c).1 j))
      → Near
          (if (read codec).0 then cells (read codec).1 0 frames else [])
          (map decode (packet (audio_round read a codec).0))
  unfolding audio_round
  round-Near a codec s = elim (Bool-cases (read codec).0) [
    | inl ok ↦ rw ok (
        Near-cells (read codec).1 (encode_from (read codec).1 a.g711a 0 frames) 0 frames
          (λ j lo hi. s codec j (omega arith))
          (λ j lo hi. encode_from-at (read codec).1 a.g711a 0 frames j lo hi))
    | inr failed ↦ rw failed tt
  ]

  speak-Near :
      (n : ℕ) (a : Audio) (codec : Codec)
      → ((c : Codec) (j : ℕ) → j < audio_samples_per_packet → IsSample ((read c).1 j))
      → Near (speak n a codec).0 (map decode (speak n a codec).1)
  unfolding speak
  speak-Near zero a codec s = tt
  speak-Near (suc n) a codec s =
      let (sent, a', codec') = audio_round read a codec in
      subst (Near (speak (suc n) a codec).0)
        (sym (map-append decode (packet sent) (speak n a' codec').1))
        (Near-append _ _ _ _ (round-Near a codec s) (speak-Near n a' codec' s))

  -- When the codec reads 16-bit samples and a speaker with nothing played yet takes the bytes that the
  -- microphone task has sent in any number of rounds, however they are cut into payloads and however
  -- the speaker's tasks take turns: what it has played and what still waits to be played are the samples
  -- of the reads that succeeded, in order and none left out, each with an error of 8 at most or of a
  -- part in 32.
  pub heard-Near :
      (B : StreamBuffer) (n : ℕ) (a : Audio) (codec : Codec) {r s : Run B}
      → ((c : Codec) (j : ℕ) → j < audio_samples_per_packet → IsSample ((read c).1 j))
      → IsFaithful B r
      → Reach B r s
      → s.accepted ≡ (speak n a codec).1
      → Near (speak n a codec).0 (s.played ++ map decode (waiting B s.speaker.jitter))
  heard-Near B n a codec samples faithful reach all =
      subst (Near (speak n a codec).0)
        (ap (map decode) (sym all) ∙ sym (Reach-IsFaithful B reach faithful))
        (speak-Near n a codec samples)

-- ===== src/Speaker/Tone/Chunks.antt =====
-- The welcome tone ends, and what it writes.
use esp32_ipc.Base.{
  ℕ, zero, suc, ◌+◌, ◌-◌, ◌≤◌, ◌<◌, ◌≡◌, refl, sym, ap, ap₂, ◌∙◌, subst, ltb, Bool, true, false,
  Bool-cases, inl, inr, Option, none, some, List, [], ◌∷◌, ◌++◌, length, append-nil, append_assoc,
  arith,
}
use esp32_ipc.Base.Int.{ℤ}
use esp32_ipc.Config.{audio_samples_per_packet}
use esp32_ipc.Speaker.Tone.{
  go_on, notes, total_of, count_of, samples, Played, prepend, play_chunk, play_note, after_note,
  play_notes, play_welcome_tone,
}

abbrev pub concat : List (List ℤ) → List ℤ
concat [] = []
concat (c ∷ chunks) = c ++ concat chunks

-- Each chunk has a sample, and fits `chunk`.
abbrev pub AllFit : List (List ℤ) → Type 0
AllFit [] = Unit {0}
AllFit (c ∷ chunks) = (0 < length c) × (length c ≤ audio_samples_per_packet) × AllFit chunks

-- Nothing is left when all writes succeeded.
abbrev pub Ends : Bool → List ℤ → Type 0
Ends true left = left ≡ []
Ends false left = Unit {0}

Ends-true : (b : Bool) (left : List ℤ) → b ≡ true → Ends b left → left ≡ []
Ends-true true left e h = h
Ends-true false left e h = absurd (cc)

Ends-false : (b : Bool) (left : List ℤ) → b ≡ false → Ends b left
Ends-false true left e = absurd (cc)
Ends-false false left e = tt

concat-append : (xs ys : List (List ℤ)) → concat (xs ++ ys) ≡ concat xs ++ concat ys
concat-append [] ys = refl
concat-append (x ∷ xs) ys = ap (λ l. x ++ l) (concat-append xs ys) ∙ sym (append_assoc x _ _)

AllFit-append : (xs ys : List (List ℤ)) → AllFit xs → AllFit ys → AllFit (xs ++ ys)
AllFit-append [] ys h k = k
AllFit-append (x ∷ xs) ys (a, b, h) k = (a, b, AllFit-append xs ys h k)

count_of_bounds :
    (total done : ℕ)
    → done < total
    → (0 < count_of total done)
      × (count_of total done ≤ audio_samples_per_packet)
      × (done + count_of total done ≤ total)
unfolding count_of
count_of_bounds total done h = ground arith

module _ {Codec : Type 0} (write : List ℤ → Codec → Bool × Codec) (tone : ℕ → ℕ → ℤ) where
  -- What is written is the start of `full`, all of it when all writes succeeded, in chunks that fit.
  abbrev pub IsPart : List ℤ → Played write tone → Type 0
  IsPart full p =
      (left : List ℤ) × (concat p.written ++ left ≡ full) × Ends p.completed left × AllFit p.written

  length-samples : (note i n : ℕ) → length (samples write tone note i n) ≡ n
  unfolding samples
  length-samples note i zero = refl
  length-samples note i (suc n) = ap suc (length-samples note (suc i) n)

  samples-append :
      (note i j n m k : ℕ)
      → j ≡ i + n
      → k ≡ n + m
      → samples write tone note i n ++ samples write tone note j m ≡ samples write tone note i k
  unfolding samples
  samples-append note i j zero m k e f = ap₂ (samples write tone note) (omega arith) (omega arith)
  samples-append note i j (suc n) m k e f =
      ap (λ l. tone note i ∷ l) (samples-append note (suc i) j n m (n + m) (omega arith) refl)
      ∙ ap (samples write tone note i) {x = suc (n + m)} (omega arith)

  -- It is played to an end, and what is written is as it should be.
  abbrev pub Returns : List ℤ → Option (Played write tone) → Type 0
  Returns full none = true ≡ false
  Returns full (some p) = IsPart full p

  -- The samples of all the notes, from the one of number `note` on.
  abbrev pub all_samples : ℕ → List ℕ → List ℤ
  all_samples note [] = []
  all_samples note (ms ∷ rest) =
      samples write tone note 0 (total_of ms) ++ all_samples (suc note) rest

  prepend-Returns :
      (chunks : List (List ℤ)) (first later : List ℤ) (r : Option (Played write tone))
      → concat chunks ≡ first
      → AllFit chunks
      → Returns later r
      → Returns (first ++ later) (prepend write tone chunks r)
  prepend-Returns chunks first later none e fits h = h
  prepend-Returns chunks first later (some q) e fits (left, whole, ends, fits') = (
    left,
    ap (λ l. l ++ left) (concat-append chunks q.written)
        ∙ append_assoc (concat chunks) (concat q.written) left
        ∙ ap₂ ◌++◌ e whole,
    ends,
    AllFit-append chunks q.written fits fits',
  )

  play_chunk-Returns :
      (w : Bool × Codec) (chunk later : List ℤ) (rest : Codec → Option (Played write tone))
      → 0 < length chunk
      → length chunk ≤ audio_samples_per_packet
      → ((c : Codec) → Returns later (rest c))
      → Returns (chunk ++ later) (play_chunk write tone w chunk rest)
  play_chunk-Returns (true, c) chunk later rest some_sample fits h =
      prepend-Returns (chunk ∷ []) chunk later (rest c) (append-nil chunk) (some_sample, fits, tt)
        (h c)
  play_chunk-Returns (false, c) chunk later rest some_sample fits h =
      (later, ap (λ l. l ++ later) (append-nil chunk), tt, (some_sample, fits, tt))

  play_note-Returns :
      (fuel note total done : ℕ) (c : Codec)
      → total - done < fuel
      → Returns
          (samples write tone note done (total - done))
          (play_note write tone fuel note total done c)
  unfolding play_note
  play_note-Returns zero note total done c h = absurd (omega arith)
  play_note-Returns (suc fuel) note total done c h = elim (Bool-cases (ltb done total)) [
    | inl more ↦
        let n = count_of total done in
        let bounds = count_of_bounds total done (ground arith) in
        let size = length-samples note done n in
        subst (λ l. Returns l (play_note write tone (suc fuel) note total done c))
          (samples-append note done (done + n) n (total - (done + n)) (total - done) refl
            (omega (arith, bounds)))
          (rw (more, play_note)
            (play_chunk-Returns _ (samples write tone note done n) _ _ (omega (arith, size, bounds))
              (omega (arith, size, bounds))
              (λ c'. play_note-Returns fuel note total (done + n) c' (omega (arith, bounds)))))
    | inr all_done ↦
        rw (all_done, play_note)
          ([], ap (samples write tone note done) {x = 0} (ground arith), refl, tt)
  ]

  go_on-Returns :
      (b : Bool) (p : Played write tone) (full later : List ℤ)
      (rest : Codec → Option (Played write tone))
      → p.completed ≡ b
      → IsPart full p
      → ((c : Codec) → Returns later (rest c))
      → Returns (full ++ later) (go_on write tone b p rest)
  go_on-Returns true p full later rest e (left, whole, ends, fits) k =
      prepend-Returns p.written full later (rest p.codec)
        (sym (append-nil _)
          ∙ ap (λ l. concat p.written ++ l) (sym (Ends-true p.completed left e ends))
          ∙ whole)
        fits (k p.codec)
  go_on-Returns false p full later rest e (left, whole, ends, fits) k = (
    left ++ later,
    sym (append_assoc (concat p.written) left later) ∙ ap (λ l. l ++ later) whole,
    Ends-false p.completed (left ++ later) e,
    fits,
  )

  after_note-Returns :
      (r : Option (Played write tone)) (full later : List ℤ)
      (rest : Codec → Option (Played write tone))
      → Returns full r
      → ((c : Codec) → Returns later (rest c))
      → Returns (full ++ later) (after_note write tone r rest)
  after_note-Returns none full later rest h k = h
  after_note-Returns (some p) full later rest h k =
      go_on-Returns p.completed p full later rest refl h k

  play_notes-Returns :
      (note : ℕ) (lengths : List ℕ) (c : Codec)
      → Returns (all_samples note lengths) (play_notes write tone note lengths c)
  unfolding play_notes
  play_notes-Returns note [] c = ([], refl, refl, tt)
  play_notes-Returns note (ms ∷ rest) c =
      after_note-Returns _ _ _ _
        (subst
          (λ (t : ℕ).
            Returns (samples write tone note 0 t)
              (play_note write tone (suc (total_of ms)) note (total_of ms) 0 c))
          (omega arith)
          (play_note-Returns (suc (total_of ms)) note (total_of ms) 0 c (omega arith)))
        (λ c'. play_notes-Returns (suc note) rest c')

  -- The welcome tone ends, however its writes turn out. It writes the samples of its three notes one
  -- after the other, in chunks of one to `AUDIO_SAMPLES_PER_PACKET` samples: all of them when each
  -- write succeeds, and else up to the chunk whose write failed.
  pub play_welcome_tone-Returns :
      (c : Codec) → Returns (all_samples 0 notes) (play_welcome_tone write tone c)
  unfolding play_welcome_tone
  play_welcome_tone-Returns c = play_notes-Returns 0 notes c

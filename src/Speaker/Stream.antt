-- ===== src/Speaker/Stream.antt =====
-- What is played of what arrives.
use esp32_ipc.Base.{
  ℕ, true, zero, suc, ◌+◌, ◌-◌, ◌%◌, ◌^◌, ◌<◌, ◌≡◌, refl, sym, ap, ◌∙◌, arith, ◌==◌, Bool-cases,
  inl, inr, Option, none, some, Option-cases, List, [], ◌∷◌, ◌++◌, map, length, take, append-nil,
  append_assoc, map-append,
}
use esp32_ipc.Base.Int.{ℤ}
use esp32_ipc.Esp.{StreamBuffer}
use esp32_ipc.G711.{decode}
use esp32_ipc.Speaker.{Speaker, submit, submit_to, play}

module _ (B : StreamBuffer) where
  open B use {Buf, send, receive, contents, room, send_lem, receive_lem}

  -- The bytes that wait in the jitter buffer.
  abbrev pub waiting : Option Buf → List ℕ
  waiting none = []
  waiting (some buf) = contents buf

  -- The bytes of a payload that the buffer takes.
  abbrev pub taken : Option Buf → List ℕ → List ℕ
  taken none payload = []
  taken (some buf) payload = take (send buf payload).0 payload

  -- The bytes of a payload that it does not.
  abbrev pub lost : Option Buf → List ℕ → ℕ
  lost none payload = 0
  lost (some buf) payload = length payload - (send buf payload).0

  take_nil : (n : ℕ) (bytes : List ℕ) → length bytes ≡ 0 → take n bytes ≡ []
  take_nil zero bytes h = refl
  take_nil (suc n) [] h = refl
  take_nil (suc n) (b ∷ bytes) h = absurd (omega arith)

  submit_to-waiting :
      (s : Speaker B) (buf : Buf) (payload : List ℕ)
      → waiting (submit_to B s buf payload).1.jitter
        ≡ contents buf ++ take (send buf payload).0 payload
  unfolding submit_to
  submit_to-waiting s buf payload = elim (Bool-cases ((send buf payload).0 == length payload)) [
    | inl e ↦ rw e ((send_lem buf payload).1)
    | inr e ↦ rw e ((send_lem buf payload).1)
  ]

  submit-waiting :
      (s : Speaker B) (payload : List ℕ)
      → waiting (submit B s payload).1.jitter ≡ waiting s.jitter ++ taken s.jitter payload
  unfolding submit
  submit-waiting s payload = elim (Option-cases s.jitter) [
    | inl e ↦ rw e
    | inr (buf, e) ↦ elim (Bool-cases (length payload == 0)) [
      | inl nothing ↦ rw (e, nothing, take_nil _ payload (ground arith)) (sym (append-nil _))
      | inr some_bytes ↦ rw (e, some_bytes) (submit_to-waiting s buf payload)
    ]
  ]

  take_all : (n : ℕ) (bytes : List ℕ) → n ≡ length bytes → take n bytes ≡ bytes
  take_all zero [] h = refl
  take_all zero (b ∷ bytes) h = absurd (omega arith)
  take_all (suc n) [] h = refl
  take_all (suc n) (b ∷ bytes) h = ap (λ bs. b ∷ bs) (take_all n bytes (omega arith))

  submit_to-dropped :
      (s : Speaker B) (buf : Buf) (payload : List ℕ)
      → s.dropped < 2 ^ 32
      → ((submit_to B s buf payload).1.dropped
          ≡ (s.dropped + (length payload - (send buf payload).0)) % 2 ^ 32)
        × ((submit_to B s buf payload).0 ≡ true → take (send buf payload).0 payload ≡ payload)
  unfolding submit_to
  submit_to-dropped s buf payload small =
      elim (Bool-cases ((send buf payload).0 == length payload)) [
        | inl e ↦ rw e (ground arith, λ _. take_all _ payload (ground arith))
        | inr e ↦ rw e (refl, λ yes_all. absurd (cc))
      ]

  -- A payload that `speaker_submit_g711a` answers true for is in the jitter buffer whole; whatever it
  -- answers, `s_dropped` goes up, modulo 2^32, by the bytes that the buffer did not take.
  pub submit-dropped :
      (s : Speaker B) (payload : List ℕ)
      → s.dropped < 2 ^ 32
      → ((submit B s payload).1.dropped ≡ (s.dropped + lost s.jitter payload) % 2 ^ 32)
        × ((submit B s payload).0 ≡ true → taken s.jitter payload ≡ payload)
  unfolding submit
  submit-dropped s payload small = elim (Option-cases s.jitter) [
    | inl e ↦ rw e (ground arith, λ yes_all. absurd (cc))
    | inr (buf, e) ↦ elim (Bool-cases (length payload == 0)) [
      | inl nothing ↦ rw (e, nothing) (ground arith, λ yes_all. absurd (cc))
      | inr some_bytes ↦ rw (e, some_bytes) (submit_to-dropped s buf payload small)
    ]
  ]

  -- The speaker, the bytes that it has taken, and the samples that it has played.
  pub record Run : Type 0 where
    pub speaker : Speaker B
    pub accepted : List ℕ
    pub played : List ℤ

  -- The peer task submits a payload of any size, or the speaker task plays.
  pub data Step (r : Run) : Run → Type 0 where
    submits :
        (payload : List ℕ)
        → Step r (record r {
          speaker = (submit B r.speaker payload).1;
          accepted = r.accepted ++ taken r.speaker.jitter payload;
        })
    plays :
        (buf : Buf)
        → r.speaker.jitter ≡ some buf
        → Step r (record r {
          speaker = record (r.speaker) { jitter = some (play B buf).1 };
          played = r.played ++ (play B buf).0;
        })

  pub data Reach (r : Run) : Run → Type 0 where
    here : Reach r r
    next : {k n : Run} → Reach r k → Step k n → Reach r n

  -- What has been played and what waits is what was taken.
  abbrev pub IsFaithful : Run → Type 0
  IsFaithful r = r.played ++ map decode (waiting r.speaker.jitter) ≡ map decode r.accepted

  play_lem :
      (buf : Buf)
      → map decode (contents buf) ≡ (play B buf).0 ++ map decode (contents (play B buf).1)
  unfolding play
  play_lem buf = ap (map decode) ((receive_lem buf _).1) ∙ map-append decode _ _

  Step-IsFaithful : {r n : Run} → Step r n → IsFaithful r → IsFaithful n
  Step-IsFaithful {r} (submits payload) f =
      rw
        (
          submit-waiting r.speaker payload,
          map-append decode (waiting r.speaker.jitter) (taken r.speaker.jitter payload),
          map-append decode r.accepted (taken r.speaker.jitter payload),
        )
        (sym (append_assoc r.played _ _)
          ∙ ap (λ l. l ++ map decode (taken r.speaker.jitter payload)) f)
  Step-IsFaithful {r} (plays buf e) f =
      append_assoc r.played _ _
      ∙ ap (λ l. r.played ++ l) (sym (play_lem buf))
      ∙ ap (λ o. r.played ++ map decode (waiting o)) (sym e)
      ∙ f

  -- However the A-law is cut into payloads and however the tasks take turns, the speaker plays the
  -- samples of the bytes that it took, once each and in order; those that it has not played yet wait
  -- in the jitter buffer.
  pub Reach-IsFaithful : {r n : Run} → Reach r n → IsFaithful r → IsFaithful n
  Reach-IsFaithful here f = f
  Reach-IsFaithful (next a s) f = Step-IsFaithful s (Reach-IsFaithful a f)

-- ===== src/Detect/Handover/Calls.antt =====
-- main/task/task_video.cpp, `feed_detector`, and task_detect.cpp, a round of `detect_task`: each call
-- of the code is a run of the steps that the two tasks interleave.
use esp32_ipc.Base.{
  ℕ, ◌%◌, ◌≡◌, refl, ◌==◌, Bool, true, false, Bool-cases, inl, inr, Option, none, some, List, sym,
  subst,
}
use esp32_ipc.Config.{det_feed_every_n}
use esp32_ipc.Esp.{EspErr, esp_ok, Semaphore}
use esp32_ipc.FramePool.{
  Pool, free, ready, list_push, list_pop, submit, submit_give, release, recv, recv_from,
}
use esp32_ipc.FramePool.Inv.{IsValid}
use esp32_ipc.FramePool.PutBack.{put_back}
use esp32_ipc.Detect.Pedestrian.{Started, acquire_input, submit_input, discard_input}
use esp32_ipc.Detect.Iface.{pedestrian}
use esp32_ipc.Detect.Iface.Lawful.{acquire_input-none, acquire_input-some}
use esp32_ipc.Detect.Results.{Result}
use esp32_ipc.Detect.Task.{Detector, infer, received, detect_round}
use esp32_ipc.Detect.Handover.{
  Hands, Reach, here, next, acquires, pushes, gives, discards, takes, pops, releases,
}
use esp32_ipc.Video.Feed.{fill, feed_detector}

module _ (S : Semaphore) where
  open S use {Sem, give, take}

  -- What is left in a handle, after steps that lead from these hands to the same with that pool.
  abbrev pub Leads : (Pool Sem → Hands S) → Pool Sem → Option (Pool Sem) → Type 0
  Leads hands p feed = (p' : Pool Sem) × (feed ≡ some p') × Reach S (hands p) (hands p')

  -- The hands when the video task is not in `feed_detector`.
  abbrev pub fed : Bool → Option ℕ → Pool Sem → Hands S
  fed taking reading p = record {
    pool = p;
    filling = none;
    giving = false;
    taking = taking;
    reading = reading;
  }

  -- The hands when the detector task is not in a round.
  abbrev pub rested : Option ℕ → Bool → Pool Sem → Hands S
  rested filling giving p = record {
    pool = p;
    filling = filling;
    giving = giving;
    taking = false;
    reading = none;
  }

  given :
      (q : EspErr × Pool Sem)
      → q.0 ≡ esp_ok
      → (submit_give S q).1 ≡ record (q.1) { ready_sem = give q.1.ready_sem }
  unfolding submit_give
  given (esp_ok, q) e = refl
  given (_, q) e = absurd (cc)

  acquired :
      (taking : Bool) (reading : Option ℕ) (p : Pool Sem) (o : Option ℕ)
      → (list_pop p free).0 ≡ o
      → Reach S
          (fed taking reading p)
          (record (fed taking reading (list_pop p free).1) { filling = o })
  acquired taking reading p o e =
      subst
        (λ f.
          Reach S (fed taking reading p)
            (record (fed taking reading (list_pop p free).1) { filling = f }))
        e (next here (acquires refl refl))

  module _ (Score : Type 0) (started : EspErr × Started S) where
    fill-Leads :
        (taking : Bool) (reading : Option ℕ) (p : Pool Sem) (scaled : Bool) (o : Option ℕ)
        → IsValid p
        → (list_pop p free).0 ≡ o
        → Leads
            (fed taking reading)
            p
            (fill (pedestrian {Score = Score} S started) (acquire_input S (some p)) scaled)
    unfolding fill submit_input submit discard_input release
    fill-Leads taking reading p scaled none v e =
        rw (acquire_input-none S p e) (_, refl, acquired taking reading p none e)
    fill-Leads taking reading p true (some i) v e =
        let (done, same, small) = put_back p free ready i v e in
        rw (acquire_input-some S p i e, given (list_push (list_pop p free).1 ready i) done)
          (_, refl, next (next (acquired taking reading p (some i) e) (pushes i refl)) (gives refl))
    fill-Leads taking reading p false (some i) v e =
        rw (acquire_input-some S p i e)
          (_, refl, next (acquired taking reading p (some i) e) (discards i refl))

    pub feed_detector-Leads :
        (taking : Bool) (reading : Option ℕ) (p : Pool Sem) (frame_no : ℕ) (scaled : Bool)
        → IsValid p
        → Leads
            (fed taking reading)
            p
            (feed_detector (pedestrian {Score = Score} S started) (some p) frame_no scaled).0
    unfolding feed_detector
    feed_detector-Leads taking reading p frame_no scaled v =
        elim (Bool-cases (frame_no % det_feed_every_n == 0)) [
          | inl turn ↦ rw turn (fill-Leads taking reading p scaled (list_pop p free).0 v refl)
          | inr skip ↦ rw skip (p, refl, here)
        ]

  module _ {Score : Type 0} (run : ℕ → List (Result Score) × ℕ) where
    popped :
        (filling : Option ℕ) (giving : Bool) (p : Pool Sem) (s : Sem) (ticks : ℕ) (o : Option ℕ)
        → take p.ready_sem ticks ≡ some s
        → (list_pop (record p { ready_sem = s }) ready).0 ≡ o
        → Reach S
            (rested filling giving p)
            (record (rested filling giving (list_pop (record p { ready_sem = s }) ready).1) {
              reading = o;
            })
    popped filling giving p s ticks o e h =
        subst
          (λ r.
            Reach S (rested filling giving p)
              (record (rested filling giving (list_pop (record p { ready_sem = s }) ready).1) {
                reading = r;
              }))
          h (next (next here (takes ticks s refl refl e)) (pops refl))

    popped-Leads :
        (filling : Option ℕ) (giving : Bool) (t : Detector S Score) (p : Pool Sem) (s : Sem)
        (ticks : ℕ) (o : Option ℕ)
        → take p.ready_sem ticks ≡ some s
        → (list_pop (record p { ready_sem = s }) ready).0 ≡ o
        → Leads
            (rested filling giving)
            p
            (received S Score run t
              (o, some (list_pop (record p { ready_sem = s }) ready).1)).0.feed
    unfolding received infer release
    popped-Leads filling giving t p s ticks none e h =
        (_, refl, popped filling giving p s ticks none e h)
    popped-Leads filling giving t p s ticks (some i) e h =
        (_, refl, next (popped filling giving p s ticks (some i) e h) (releases i refl))

    taken-Leads :
        (filling : Option ℕ) (giving : Bool) (t : Detector S Score) (p : Pool Sem) (s : Option Sem)
        (ticks : ℕ)
        → take p.ready_sem ticks ≡ s
        → Leads
            (rested filling giving)
            p
            (received S Score run t ((recv_from S p ticks).0, some (recv_from S p ticks).1)).0.feed
    unfolding recv_from received
    taken-Leads filling giving t p none ticks e = rw (e, recv_from, received) (p, refl, here)
    taken-Leads filling giving t p (some s) ticks e =
        rw (e, recv_from)
          (popped-Leads filling giving t p s ticks (list_pop (record p { ready_sem = s }) ready).0 e
            refl)

    pub detect_round-Leads :
        (filling : Option ℕ) (giving : Bool) (t : Detector S Score) (p : Pool Sem) (ticks : ℕ)
        → t.feed ≡ some p
        → Leads (rested filling giving) p (detect_round S Score run ticks t).0.feed
    unfolding detect_round recv
    detect_round-Leads filling giving t p ticks e =
        subst
          (λ f. Leads (rested filling giving) p (received S Score run t (recv S f ticks)).0.feed)
          (sym e) (taken-Leads filling giving t p (take p.ready_sem ticks) ticks refl)

  -- On a valid pool, each whole call of `feed_detector` and each whole round of `detect_task` leaves a
  -- pool to which the steps of the hand-over lead: whether or not it is this frame's turn, a buffer is
  -- free, the scaler succeeds, or an element comes in time, and whatever the other task is in the
  -- middle of. The calling task holds nothing before and after it.
  pub calls-Lead :
      {Score : Type 0} (started : EspErr × Started S) (run : ℕ → List (Result Score) × ℕ)
      (taking giving scaled : Bool) (reading filling : Option ℕ) (p : Pool Sem) (frame_no ticks : ℕ)
      (t : Detector S Score)
      → IsValid p
      → t.feed ≡ some p
      → Leads
          (fed taking reading)
          p
          (feed_detector (pedestrian {Score = Score} S started) (some p) frame_no scaled).0
        × Leads (rested filling giving) p (detect_round S Score run ticks t).0.feed
  calls-Lead {Score} started run taking giving scaled reading filling p frame_no ticks t v e = (
    feed_detector-Leads Score started taking reading p frame_no scaled v,
    detect_round-Leads run filling giving t p ticks e,
  )

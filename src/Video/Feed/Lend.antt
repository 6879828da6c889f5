-- ===== src/Video/Feed/Lend.antt =====
-- The video task keeps no buffer of the detector.
use esp32_ipc.Base.{
  ℕ, ◌%◌, ◌≡◌, refl, ◌==◌, Bool, true, false, Bool-cases, inl, inr, Option, none, some,
}
use esp32_ipc.Config.{det_feed_every_n}
use esp32_ipc.Esp.{EspErr, Semaphore}
use esp32_ipc.FramePool.{Pool}
use esp32_ipc.FramePool.Inv.{IsValid}
use esp32_ipc.FramePool.PutBack.{SameHeld}
use esp32_ipc.Detect.Pedestrian.{DetInput, Started}
use esp32_ipc.Detect.Iface.{DetectorIface, pedestrian}
use esp32_ipc.Detect.Iface.Lawful.{DetectorLaws, pedestrian_laws, some-injective}
use esp32_ipc.Video.Feed.{fill, feed_detector}

module _ {Score : Type 0} (D : DetectorIface Score) (laws : DetectorLaws D) where
  open laws use {Valid, Kept, still, busy, submitted, discarded}

  fill-Kept :
      (s : D.Feed) (scaled : Bool) (o : Option DetInput)
      → Valid s
      → (D.acquire_input s).0 ≡ o
      → Kept s (fill D (o, (D.acquire_input s).1) scaled)
  unfolding fill
  fill-Kept s scaled none v e = busy s v e
  fill-Kept s true (some input) v e = submitted s input v e
  fill-Kept s false (some input) v e = discarded s input v e

  -- Of any detector that keeps its promises, the video task keeps no buffer: whether or not it is this
  -- frame's turn, the detector has a buffer, and the scaler succeeds.
  pub feed_detector-Kept :
      (s : D.Feed) (frame_no : ℕ) (scaled : Bool)
      → Valid s
      → Kept s (feed_detector D s frame_no scaled).0
  unfolding feed_detector
  feed_detector-Kept s frame_no scaled v = elim (Bool-cases (frame_no % det_feed_every_n == 0)) [
    | inl turn ↦ rw turn (fill-Kept s scaled (D.acquire_input s).0 v refl)
    | inr skip ↦ rw skip (still s v)
  ]

module _ (Score : Type 0) (S : Semaphore) (started : EspErr × Started S) where
  open S use {Sem}

  abbrev detector : DetectorIface Score
  detector = pedestrian S started

  -- Whether or not it is this frame's turn, the detector has a buffer, and the scaler succeeds,
  -- `feed_detector` leaves a valid pool with the same buffers lent out as before: the video task keeps
  -- none.
  pub feed_detector-SameHeld :
      (p : Pool Sem) (frame_no : ℕ) (scaled : Bool)
      → IsValid p
      → (p' : Pool Sem) × ((feed_detector detector (some p) frame_no scaled).0 ≡ some p')
        × SameHeld p p'
  unfolding pedestrian_laws
  feed_detector-SameHeld p frame_no scaled v =
      feed_detector-Kept detector (pedestrian_laws S started) (some p) frame_no scaled
        (λ q e. rw (← some-injective e) v) p refl

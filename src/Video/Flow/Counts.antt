-- ===== src/Video/Flow/Counts.antt =====
-- What the counters of the capture task say of the frames.
use esp32_ipc.Base.{
  ℕ, ◌+◌, ◌%◌, ◌^◌, ◌≡◌, ap, subst, sym, arith, none, some, [], ◌∷◌, length, length-append,
}
use esp32_ipc.Hal.Device.{Device}
use esp32_ipc.Hal.Device.Outcome.{Outcome, fails, gives}
use esp32_ipc.Hal.Vcap.{VcapFrame, acquire}
use esp32_ipc.Video.Flow.{
  Flow, acquired, dispatch, captures, dispatches, receives, releases, Reach, here, next,
}
use esp32_ipc.Video.Flow.Conserve.{one_if}
use esp32_ipc.Video.Flow.Order.{captured, received, given}

module _ (D : Device) where
  open D use {Dev, queued}

  -- The counts of a state, after `got` frames from the driver of which `fed` came to the encode task:
  -- each frame that passed the pace was fed, waits or was dropped for want of room; each frame was
  -- counted as passed or as paced out, or is still in hand.
  abbrev pub Counted : Flow D → ℕ → ℕ → Flow D → Type 0
  Counted m got fed n =
      ((n.stat_cap + m.stat_cap_drop) % 2 ^ 32
        ≡ (m.stat_cap + n.stat_cap_drop + (fed + length n.cap_queue)) % 2 ^ 32)
      × ((n.stat_cap + n.stat_cap_pace + one_if n.cap_holds) % 2 ^ 32
          ≡ (m.stat_cap + m.stat_cap_pace + got) % 2 ^ 32)

  acquired-Counted :
      (m k : Flow D) (got fed : ℕ) (o : Outcome Dev VcapFrame)
      → k.cap_holds ≡ none
      → Counted m got fed k
      → Counted m (got + length (given D o)) fed (acquired D k o)
  acquired-Counted m k got fed (fails e d) idle (p, q) = (p, omega (arith, q))
  acquired-Counted m k got fed (gives frame d) idle (p, q) = (p, omega (arith, q, ap one_if idle))

  dispatch-Counted :
      (m k : Flow D) (got fed : ℕ) (frame : VcapFrame) (now : ℕ)
      → k.cap_holds ≡ some frame
      → Counted m got fed k
      → Counted m got fed (dispatch D k frame now)
  unfolding dispatch
  dispatch-Counted m k got fed frame now busy (p, q) =
      let more = length-append k.cap_queue (frame ∷ []) in
      (ground (arith, p, ap one_if busy), ground (arith, q, ap one_if busy))

  -- From an empty queue and an idle capture task, in any run of the two tasks, modulo 2^32: `stat_cap`
  -- goes up by the frames that the encode task has received, those that wait in the queue, and those
  -- that `stat_cap_drop` counts; and `stat_cap`, `stat_cap_pace` and the frame that the capture task
  -- holds make up all the frames that the driver has given.
  pub Reach-Counted :
      {m n : Flow D} (r : Reach D m n)
      → m.cap_queue ≡ []
      → m.cap_holds ≡ none
      → Counted m (length (captured D r)) (length (received D r)) n
  Reach-Counted {m} here empty idle =
      (omega (arith, ap length empty), omega (arith, ap one_if idle))
  Reach-Counted {m} (next {k} r (captures free)) empty idle =
      let o = acquire D k.vcap k.camera in
      subst (λ got. Counted m got (length (received D r)) (acquired D k o))
        (sym (length-append (captured D r) (given D o)))
        (acquired-Counted m k _ _ o free (Reach-Counted r empty idle))
  Reach-Counted {m} (next {k} r (dispatches frame now busy)) empty idle =
      dispatch-Counted m k _ _ frame now busy (Reach-Counted r empty idle)
  Reach-Counted {m} (next {k} r (receives frame rest free e)) empty idle =
      let (p, q) = Reach-Counted r empty idle in
      (omega (arith, p, ap length e, length-append (received D r) (frame ∷ [])), q)
  Reach-Counted {m} (next r (releases frame busy)) empty idle = Reach-Counted r empty idle

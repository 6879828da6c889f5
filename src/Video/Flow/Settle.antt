-- ===== src/Video/Flow/Settle.antt =====
-- How long the two tasks are busy with the frames that they have, and what they leave.
use esp32_ipc.Base.{
  ℕ, suc, ◌+◌, ◌*◌, ◌≤◌, ◌≡◌, ◌⊎◌, refl, ap, arith, inl, inr, Bool, true, false, ltb, if◌then◌else◌,
  none, some, List, [], ◌∷◌, length, length-append, Option-cases,
}
use esp32_ipc.Hal.Device.{Device, capture}
use esp32_ipc.Hal.Device.Outcome.{Outcome, fails, gives}
use esp32_ipc.Hal.Vcap.{VcapFrame, acquire}
use esp32_ipc.Hal.Vcap.Queues.{Accepts}
use esp32_ipc.Video.Flow.{
  Flow, acquired, dispatch, Step, captures, dispatches, receives, releases, Reach, here, next,
}
use esp32_ipc.Video.Flow.Conserve.{one_if, IsWhole, is_held, waits, Reach-IsWhole}
use esp32_ipc.Config.{cap_buf_count}

queue-cases :
    (q : List VcapFrame)
    → (q ≡ []) ⊎ ((frame : VcapFrame) × (rest : List VcapFrame) × (q ≡ frame ∷ rest))
queue-cases [] = inl refl
queue-cases (frame ∷ rest) = inr (frame, rest, refl)

module _ (D : Device) where
  open D use {Dev, queued}

  -- Whether a step asks the driver for a frame.
  abbrev pub asks : {m n : Flow D} → Step D m n → Bool
  asks (captures idle) = true
  asks _ = false

  -- The steps of a run that ask the driver, and the others.
  abbrev pub asked : {m n : Flow D} → Reach D m n → ℕ
  asked here = 0
  asked (next r (captures idle)) = suc (asked r)
  asked (next r _) = asked r

  abbrev pub others : {m n : Flow D} → Reach D m n → ℕ
  others here = 0
  others (next r (captures idle)) = others r
  others (next r _) = suc (others r)

  -- The steps that the frames in hand are good for.
  abbrev pub work : Flow D → ℕ
  work m = 3 * one_if m.cap_holds + 2 * length m.cap_queue + one_if m.enc_holds

  acquired-work :
      (m : Flow D) (o : Outcome Dev VcapFrame)
      → m.cap_holds ≡ none
      → work (acquired D m o) ≤ work m + 3
  acquired-work m (fails e d) idle = omega arith
  acquired-work m (gives frame d) idle = omega (arith, ap one_if idle)

  dispatch-work :
      (m : Flow D) (frame : VcapFrame) (now : ℕ)
      → m.cap_holds ≡ some frame
      → suc (work (dispatch D m frame now)) ≤ work m
  unfolding dispatch
  dispatch-work m frame now busy =
      let more = length-append m.cap_queue (frame ∷ []) in ground (arith, ap one_if busy)

  Reach-work : {m n : Flow D} (r : Reach D m n) → work n + others r ≤ work m + 3 * asked r
  Reach-work here = omega arith
  Reach-work (next {k} r (captures idle)) =
      omega (arith, Reach-work r, acquired-work k (acquire D k.vcap k.camera) idle)
  Reach-work (next {k} r (dispatches frame now busy)) =
      omega (arith, Reach-work r, dispatch-work k frame now busy)
  Reach-work (next {k} r (receives frame rest idle e)) =
      omega (arith, Reach-work r, ap one_if idle, ap length e)
  Reach-work (next {k} r (releases frame busy)) = omega (arith, Reach-work r, ap one_if busy)

  -- A step that one of the tasks can make with the frames that they have.
  abbrev pub Busy : Flow D → Type 0
  Busy m = (n : Flow D) × (s : Step D m n) × (asks s ≡ false)

  abbrev Idle : Flow D → Type 0
  Idle m = (m.cap_holds ≡ none) × (m.enc_holds ≡ none) × (m.cap_queue ≡ [])

  rests : (m : Flow D) → Busy m ⊎ Idle m
  rests m = elim (Option-cases m.cap_holds) [
    | inr (frame, busy) ↦ inl (_, dispatches frame 0 busy, refl)
    | inl free ↦ elim (Option-cases m.enc_holds) [
      | inr (frame, busy) ↦ inl (_, releases frame busy, refl)
      | inl idle ↦ elim (queue-cases m.cap_queue) [
        | inl empty ↦ inr (free, idle, empty)
        | inr (frame, rest, e) ↦ inl (_, receives frame rest idle e, refl)
      ]
    ]
  ]

  -- In any run of the two tasks, from a state in which each capture buffer is in one place and with a
  -- driver that takes back a buffer of these that it does not have, the steps other than those that
  -- ask the driver for a frame are at most three for each that does, and those that the frames in hand
  -- at the start are good for. After any run, either one of the tasks has such a step to make, or the
  -- driver has each of the `CAP_BUF_COUNT` buffers: nothing waits for what does not come.
  pub Reach-settles :
      Accepts D cap_buf_count
      → {m n : Flow D} (r : Reach D m n) → IsWhole D m
      → (others r ≤ work m + 3 * asked r)
        × (Busy n ⊎ ((j : ℕ) → queued n.camera capture j ≡ (if ltb j cap_buf_count then 1 else 0)))
  Reach-settles accepts {m} {n} r w = (
    omega (arith, Reach-work r),
    elim (rests n) [
      | inl busy ↦ inl busy
      | inr (free, idle, empty) ↦
          let v = Reach-IsWhole D accepts r w in
          inr (λ j. omega (
            arith,
            v.each j,
            ap (λ o. is_held o j) free,
            ap (λ o. is_held o j) idle,
            ap (λ l. waits l j) empty,
          ))
    ],
  )

-- ===== src/Video/Flow/Conserve.antt =====
-- No capture buffer is lost or duplicated, and what is left to the driver.
use esp32_ipc.Base.{
  ℕ, ◌+◌, ◌≤◌, ◌<◌, ◌≡◌, ◌==◌, refl, ap, ◌∙◌, arith, ltb, if◌then◌else◌, inl, inr, Bool-cases,
  Option, none, some, List, [], ◌∷◌, ◌++◌, length, length-append, ==_iff,
}
use esp32_ipc.Config.{video_queue_len, cap_buf_count}
use esp32_ipc.Hal.Device.{Device, capture, dqbuf}
use esp32_ipc.Hal.Device.Outcome.{Outcome, fails, gives, Answer-cases}
use esp32_ipc.Hal.Vcap.{VcapFrame, acquire}
use esp32_ipc.Hal.Vcap.Queues.{Accepts, release_lem}
use esp32_ipc.Video.Flow.{
  Flow, acquired, dispatch, Step, captures, dispatches, receives, releases, Reach, here, next,
}

-- How many frames are held.
abbrev pub one_if : Option VcapFrame → ℕ
one_if none = 0
one_if (some frame) = 1

-- How often buffer `j` is held, and how often it waits in a queue.
abbrev pub is_held : Option VcapFrame → ℕ → ℕ
is_held none j = 0
is_held (some frame) j = if j == frame.buf.index then 1 else 0

abbrev pub waits : List VcapFrame → ℕ → ℕ
waits [] j = 0
waits (frame ∷ frames) j = (if j == frame.buf.index then 1 else 0) + waits frames j

waits-append : (xs ys : List VcapFrame) (j : ℕ) → waits (xs ++ ys) j ≡ waits xs j + waits ys j
waits-append [] ys j = omega arith
waits-append (x ∷ xs) ys j = omega (arith, waits-append xs ys j)

module _ (D : Device) where
  open D use {Dev, ioctl, queued, queued_ok, queued_fail, dqbuf_some}

  -- In how many places buffer `j` is: the driver, the queue, the capture task and the encode task.
  abbrev pub places : Flow D → ℕ → ℕ
  places m j =
      queued m.camera capture j
      + waits m.cap_queue j
      + is_held m.cap_holds j
      + is_held m.enc_holds j

  -- Each of the `CAP_BUF_COUNT` buffers is in one place, and there is no other buffer.
  pub record IsWhole (m : Flow D) : Type 0 where
    pub each : (j : ℕ) → places m j ≡ (if ltb j cap_buf_count then 1 else 0)

  acquired-places :
      (m : Flow D)
      → m.cap_holds ≡ none
      → (j : ℕ) → places (acquired D m (acquire D m.vcap m.camera)) j ≡ places m j
  unfolding acquire
  acquired-places m idle j = elim (Answer-cases (ioctl (dqbuf capture) m.camera)) [
    | inl (d', e) ↦ rw e (omega (arith, queued_fail (dqbuf capture) capture m.camera d' e j))
    | inr (x, d', e) ↦ rw e (
        ground (
          arith,
          queued_ok (dqbuf capture) capture m.camera d' x e j,
          dqbuf_some capture m.camera d' x e,
          ap (λ o. is_held o j) idle,
        ))
  ]

  -- The buffer of a frame that a task holds is one that the driver does not have.
  lent :
      (m : Flow D) (frame : VcapFrame)
      → IsWhole m
      → 1 ≤ is_held m.cap_holds frame.buf.index + is_held m.enc_holds frame.buf.index
      → (frame.buf.index < cap_buf_count) × (queued m.camera capture frame.buf.index ≡ 0)
  lent m frame w held = ground (arith, w.each frame.buf.index)

  held-cap :
      (m : Flow D) (frame : VcapFrame)
      → m.cap_holds ≡ some frame
      → 1 ≤ is_held m.cap_holds frame.buf.index + is_held m.enc_holds frame.buf.index
  held-cap m frame busy = ground (arith, ap (λ o. is_held o frame.buf.index) busy)

  held-enc :
      (m : Flow D) (frame : VcapFrame)
      → m.enc_holds ≡ some frame
      → 1 ≤ is_held m.cap_holds frame.buf.index + is_held m.enc_holds frame.buf.index
  held-enc m frame busy = ground (arith, ap (λ o. is_held o frame.buf.index) busy)

  dispatch-places :
      Accepts D cap_buf_count
      → (m : Flow D) (frame : VcapFrame) (now : ℕ) → m.cap_holds ≡ some frame
      → IsWhole m
      → (j : ℕ) → places (dispatch D m frame now) j ≡ places m j
  unfolding dispatch
  dispatch-places accepts m frame now busy w j =
      let (small, out) = lent m frame w (held-cap m frame busy) in
      let back = release_lem D accepts frame m.camera small out j in
      let more = waits-append m.cap_queue (frame ∷ []) j in
      ground (arith, ap (λ o. is_held o j) busy)

  Step-places :
      Accepts D cap_buf_count
      → {m n : Flow D} → Step D m n
      → IsWhole m
      → (j : ℕ) → places n j ≡ places m j
  Step-places accepts {m} (captures idle) w j = acquired-places m idle j
  Step-places accepts {m} (dispatches frame now busy) w j =
      dispatch-places accepts m frame now busy w j
  Step-places accepts {m} (receives frame rest idle e) w j =
      omega (arith, ap (λ o. is_held o j) idle, ap (λ l. waits l j) e)
  Step-places accepts {m} (releases frame busy) w j =
      let (small, out) = lent m frame w (held-enc m frame busy) in
      let back = release_lem D accepts frame m.camera small out j in
      ground (arith, ap (λ o. is_held o j) busy)

  -- Whatever the two tasks do, and in whatever order, from a state in which each of the `CAP_BUF_COUNT`
  -- capture buffers is in one place: each is in exactly one place again, the driver, the queue, the
  -- capture task or the encode task, and there is no other buffer. The driver must take back a buffer
  -- of these that it does not have.
  pub Reach-IsWhole : Accepts D cap_buf_count → {m n : Flow D} → Reach D m n → IsWhole m → IsWhole n
  Reach-IsWhole accepts here w = w
  Reach-IsWhole accepts (next r s) w =
      let v = Reach-IsWhole accepts r w in
      record { each = λ j. Step-places accepts s v j ∙ v.each j }

  dispatch-room :
      (m : Flow D) (frame : VcapFrame) (now : ℕ)
      → length m.cap_queue ≤ video_queue_len
      → length (dispatch D m frame now).cap_queue ≤ video_queue_len
  unfolding dispatch
  dispatch-room m frame now room = let more = length-append m.cap_queue (frame ∷ []) in ground arith

  acquired-room :
      (m : Flow D) (o : Outcome Dev VcapFrame)
      → length (acquired D m o).cap_queue ≡ length m.cap_queue
  acquired-room m (fails e d) = refl
  acquired-room m (gives frame d) = refl

  Reach-room :
      {m n : Flow D}
      → Reach D m n
      → length m.cap_queue ≤ video_queue_len
      → length n.cap_queue ≤ video_queue_len
  Reach-room here room = room
  Reach-room (next {k} r (captures idle)) room =
      omega (arith, acquired-room k (acquire D k.vcap k.camera), Reach-room r room)
  Reach-room (next {k} r (dispatches frame now busy)) room =
      dispatch-room k frame now (Reach-room r room)
  Reach-room (next {k} r (receives frame rest idle e)) room =
      omega (arith, ap length e, Reach-room r room)
  Reach-room (next r (releases frame busy)) room = Reach-room r room

  three_wait :
      (frames : List VcapFrame) → waits frames 0 + waits frames 1 + waits frames 2 ≤ length frames
  three_wait [] = omega arith
  three_wait (f ∷ frames) = ground (arith, three_wait frames)

  three_held : (o : Option VcapFrame) → is_held o 0 + is_held o 1 + is_held o 2 ≤ 1
  three_held none = omega arith
  three_held (some f) = ground arith

  -- From a state in which each of the `CAP_BUF_COUNT` buffers is in one place and no more than
  -- `VIDEO_QUEUE_LEN` frames are queued, and with a driver that takes back a buffer of these that it
  -- does not have: whenever the capture task holds none, there is a buffer that the driver has to fill.
  pub driver_keeps_one :
      Accepts D cap_buf_count
      → {m n : Flow D} → Reach D m n
      → IsWhole m
      → length m.cap_queue ≤ video_queue_len
      → n.cap_holds ≡ none
      → (j : ℕ) × (j < cap_buf_count) × (queued n.camera capture j ≡ 1)
  driver_keeps_one accepts {m} {n} r all room idle =
      let v = Reach-IsWhole accepts r all in
      let free = λ (j : ℕ). ap (λ o. is_held o j) idle in
      elim (Bool-cases (queued n.camera capture 0 == 1)) [
        | inl first ↦ (0, omega arith, (==_iff _ 1).0 first)
        | inr not_first ↦ elim (Bool-cases (queued n.camera capture 1 == 1)) [
          | inl second ↦ (1, omega arith, (==_iff _ 1).0 second)
          | inr not_second ↦ (
            2,
            omega arith,
            ground (
              arith,
              v.each 0,
              v.each 1,
              v.each 2,
              free 0,
              free 1,
              free 2,
              Reach-room r room,
              three_wait n.cap_queue,
              three_held n.enc_holds,
            ),
          )
        ]
      ]

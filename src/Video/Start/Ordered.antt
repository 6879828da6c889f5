-- ===== src/Video/Start/Ordered.antt =====
-- The pipeline starts in order.
use esp32_ipc.Base.{
  ◌≡◌, inl, inr, ℕ, suc, ◌==◌, not, ◌&&◌, Bool, true, false, if◌then◌else◌, List, [], ◌∷◌, arith,
}
use esp32_ipc.Esp.{is_ok}
use esp32_ipc.Hal.Device.Outcome.{Outcome, fails, Outcome-cases, gives, dev}
use esp32_ipc.Boot.{
  Call, Event, Board, Drivers, vcap_open, h264_open, h264_start, vcap_start, detector_start,
  queue_create, create_task, video_cap, video_enc,
}
use esp32_ipc.Boot.Camera.{hal_video_init}
use esp32_ipc.Boot.Protocol.{IsSound, devices}
use esp32_ipc.Video.Start.{open_devices, start_tasks, start_video}

-- What the calls so far have started.
pub record Pipeline : Type 0 where
  pub cap_open : Bool
  pub cap_on : Bool
  pub enc_open : Bool
  pub enc_on : Bool
  pub queue : ℕ
  pub detector_asked : Bool
  pub tasks_asked : ℕ
  pub in_order : Bool

abbrev pub asks : Bool → Pipeline → Pipeline
asks needed s = record s { in_order = s.in_order && needed }

-- The pipeline after a call, by whether the camera driver is up: a device is opened once the driver
-- is up and started once it is open, the capture after the encoder that takes its frames, and a task
-- is asked for when both run, the queue is there and the detector was asked to start.
abbrev pub after : Call → Bool → Bool → ℕ → Pipeline → Pipeline
after (vcap_open w h) video ok a s =
    let t = asks video s in if ok then record t { cap_open = true } else t
after (h264_open w h i r n x) video ok a s =
    let t = asks video s in if ok then record t { enc_open = true } else t
after h264_start video ok a s =
    let t = asks s.enc_open s in if ok then record t { enc_on = true } else t
after vcap_start video ok a s =
    let t = asks (s.cap_open && s.enc_on) s in if ok then record t { cap_on = true } else t
after (queue_create n) video ok a s = record s { queue = a }
after detector_start video ok a s = record s { detector_asked = true }
after (create_task video_cap n p c) video ok a s =
    record (asks (s.cap_on && not (s.queue == 0) && s.detector_asked) s) {
      tasks_asked = suc s.tasks_asked;
    }
after (create_task video_enc n p c) video ok a s =
    record (asks (s.enc_on && not (s.queue == 0) && s.detector_asked) s) {
      tasks_asked = suc s.tasks_asked;
    }
after _ video ok a s = s

abbrev pub not_started : Pipeline
not_started = record {
  cap_open = false;
  cap_on = false;
  enc_open = false;
  enc_on = false;
  queue = 0;
  detector_asked = false;
  tasks_asked = 0;
  in_order = true;
}

-- The pipeline after the calls of a log.
unfoldable pub pipeline : List Event → Pipeline
pipeline [] = not_started
pipeline (e ∷ log) =
    after e.call (devices log).video (is_ok e.answer.err) e.answer.handle (pipeline log)

-- The calls were in order.
abbrev pub IsOrdered : Board → Type 0
IsOrdered b = (pipeline b.log).in_order ≡ true

-- Both tasks were asked for, or none when the start fails.
abbrev pub AsksBoth : Outcome Board (Unit {0}) → Type 0
AsksBoth (fails e b) = (pipeline b.log).tasks_asked ≡ 0
AsksBoth (gives _ b) = (pipeline b.log).tasks_asked ≡ 2

module _ (d : Drivers) where
  open_devices-IsSound : (b : Board) → IsSound b → IsSound (dev (open_devices d b))
  unfolding open_devices hal_video_init devices
  open_devices-IsSound b v = ground arith

  open_devices-IsOrdered :
      (b : Board) → IsSound b → IsOrdered b → IsOrdered (dev (open_devices d b))
  unfolding open_devices hal_video_init devices pipeline
  open_devices-IsOrdered b v o = ground arith

  open_devices_keeps :
      (b : Board)
      → ((devices (dev (open_devices d b)).log).online ≡ (devices b.log).online)
        × ((pipeline (dev (open_devices d b)).log).tasks_asked ≡ (pipeline b.log).tasks_asked)
  unfolding open_devices hal_video_init devices pipeline
  open_devices_keeps b = ground arith

  open_devices-gives :
      (b b' : Board)
      → open_devices d b ≡ gives tt b'
      → ((pipeline b'.log).cap_on ≡ true) × ((pipeline b'.log).enc_on ≡ true)
  unfolding open_devices hal_video_init pipeline
  open_devices-gives b b' h = ground arith

  start_tasks-IsSound :
      (b : Board) → (devices b.log).online ≡ true → IsSound b → IsSound (dev (start_tasks d b))
  unfolding start_tasks devices
  start_tasks-IsSound b o v = ground arith

  start_tasks-IsOrdered :
      (b : Board)
      → (pipeline b.log).cap_on ≡ true
      → (pipeline b.log).enc_on ≡ true
      → IsOrdered b
      → IsOrdered (dev (start_tasks d b))
  unfolding start_tasks pipeline
  start_tasks-IsOrdered b c e o = ground arith

  start_tasks-AsksBoth : (b : Board) → (pipeline b.log).tasks_asked ≡ 0 → AsksBoth (start_tasks d b)
  unfolding start_tasks pipeline
  start_tasks-AsksBoth b z = ground arith

  -- Whatever the devices answer and wherever it ends, `task_video` calls them in order: they are opened
  -- when the camera driver is up, which is not started a second time, the encoder runs before the
  -- capture, and the two tasks are asked for when both run, the queue is made and the detector was asked
  -- to start. Both tasks are asked for when it comes to its loop, and none when it does not.
  pub start_video-IsOrdered :
      (b : Board)
      → IsSound b
      → (devices b.log).online ≡ true
      → pipeline b.log ≡ not_started
      → IsSound (dev (start_video d b))
        × IsOrdered (dev (start_video d b))
        × AsksBoth (start_video d b)
  unfolding start_video
  start_video-IsOrdered b v o n = elim (Outcome-cases (open_devices d b)) [
    | inl (e', c, h) ↦
        ground (arith, h, n, open_devices-IsSound b, open_devices-IsOrdered b, open_devices_keeps b)
    | inr (_, c, h) ↦ ground (
      arith,
      h,
      n,
      open_devices-IsSound b,
      open_devices-IsOrdered b,
      open_devices_keeps b,
      open_devices-gives b c,
      start_tasks-IsSound c,
      start_tasks-IsOrdered c,
      start_tasks-AsksBoth c,
    )
  ]

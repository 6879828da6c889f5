-- ===== src/Video/Flow.antt =====
-- main/task/task_video.cpp: where the capture buffers are. The capture task and the encode task run
-- at once, so the body of each loop is cut where the other task may see the difference: at its calls
-- of the driver and of the queue.
pub mod Conserve
pub mod Order
pub mod Counts
pub mod Settle
mod Tests
use esp32_ipc.Base.{
  ℕ, ◌+◌, ◌%◌, ◌^◌, ◌≡◌, ltb, if◌then◌else◌, Option, none, some, List, [], ◌∷◌, ◌++◌, length,
}
use esp32_ipc.Config.{video_queue_len}
use esp32_ipc.Hal.Device.{Device}
use esp32_ipc.Hal.Device.Outcome.{Outcome, fails, gives}
use esp32_ipc.Hal.Vcap.{Vcap, VcapFrame, acquire, release}
use esp32_ipc.Video.Pace.{on_frame_grid}

-- A FreeRTOS queue of frames of which `send` does not wait: what stands in it, oldest first.
abbrev pub FrameQueue : Type 0
FrameQueue = List VcapFrame

module _ (D : Device) where
  open D use {Dev}

  -- The capture device, `cap_queue`, what each task holds, the static of `on_frame_grid` and the
  -- counters of the capture task.
  pub record Flow : Type 0 where
    pub vcap : Vcap
    pub camera : Dev
    pub cap_queue : FrameQueue
    pub cap_holds : Option VcapFrame
    pub enc_holds : Option VcapFrame
    pub next_us : ℕ
    pub stat_cap : ℕ
    pub stat_cap_drop : ℕ
    pub stat_cap_pace : ℕ

  -- `hal_vcap_acquire` in `video_capture_task`.
  abbrev pub acquired : Flow → Outcome Dev VcapFrame → Flow
  acquired m (fails e d) = record m { camera = d }
  acquired m (gives frame d) = record m { camera = d; cap_holds = some frame }

  -- A frame that goes straight back to the driver.
  abbrev pub give_back : Flow → VcapFrame → Flow
  give_back m frame = record m { camera = (release D frame m.camera).1; cap_holds = none }

  -- The rest of the loop of `video_capture_task` at a time: the pace, then the queue.
  unfoldable pub dispatch : Flow → VcapFrame → ℕ → Flow
  dispatch m frame now =
      let (passes, next_us') = on_frame_grid now m.next_us in
      if passes
      then if ltb (length m.cap_queue) video_queue_len
        then record m {
          next_us = next_us';
          stat_cap = (m.stat_cap + 1) % 2 ^ 32;
          cap_queue = m.cap_queue ++ frame ∷ [];
          cap_holds = none;
        }
        else record (give_back m frame) {
          next_us = next_us';
          stat_cap = (m.stat_cap + 1) % 2 ^ 32;
          stat_cap_drop = (m.stat_cap_drop + 1) % 2 ^ 32;
        }
      else record (give_back m frame) {
        next_us = next_us';
        stat_cap_pace = (m.stat_cap_pace + 1) % 2 ^ 32;
      }

  -- What the two tasks do, one step of one of them at a time.
  pub data Step (m : Flow) : Flow → Type 0 where
    captures : m.cap_holds ≡ none → Step m (acquired m (acquire D m.vcap m.camera))
    dispatches :
        (frame : VcapFrame) (now : ℕ) → m.cap_holds ≡ some frame → Step m (dispatch m frame now)
    receives :
        (frame : VcapFrame) (rest : FrameQueue)
        → m.enc_holds ≡ none
        → m.cap_queue ≡ frame ∷ rest
        → Step m (record m { cap_queue = rest; enc_holds = some frame })
    releases :
        (frame : VcapFrame)
        → m.enc_holds ≡ some frame
        → Step m (record m { camera = (release D frame m.camera).1; enc_holds = none })

  pub data Reach (m : Flow) : Flow → Type 0 where
    here : Reach m m
    next : {k n : Flow} → Reach m k → Step k n → Reach m n

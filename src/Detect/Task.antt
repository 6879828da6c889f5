-- ===== src/Detect/Task.antt =====
-- main/task/task_detect.cpp: a round of the loop of `detect_task`. The model is a parameter, which
-- answers its results for a buffer, and how long it took.
pub mod Round
mod Tests
use esp32_ipc.Base.{ℕ, Option, none, some, List}
use esp32_ipc.Base.Int.{pos}
use esp32_ipc.Esp.{Semaphore}
use esp32_ipc.FramePool.{Pool, recv, release}
use esp32_ipc.Detect.Pedestrian.{buffer_of, index_of}
use esp32_ipc.Detect.Results.{Result, Boxes, Window, store_results, tick}

module _ (S : Semaphore) (Score : Type 0) where
  open S use {Sem}

  -- The statics `s_feed` and `s_boxes`, and the timing window of the task.
  pub record Detector : Type 0 where
    pub feed : Option (Pool Sem)
    pub boxes : Boxes Score
    pub window : Window

  -- The part of a round after an element was received, and the time whose average it logs.
  unfoldable pub infer : (ℕ → List (Result Score) × ℕ) → Detector → ℕ → Detector × Option ℕ
  infer run t i =
      let (results, us) = run (buffer_of S t.feed i) in
      let (window', line) = tick t.window us in
      (
        record {
          feed = (release t.feed (pos (index_of S t.feed i))).1;
          boxes = store_results t.boxes results;
          window = window';
        },
        line,
      )

  -- A round by what `frame_pool_recv` answers and leaves: nothing more when no element came in time.
  unfoldable pub received :
      (ℕ → List (Result Score) × ℕ) → Detector → Option ℕ × Option (Pool Sem) → Detector × Option ℕ
  received run t (none, feed) = (record t { feed = feed }, none)
  received run t (some i, feed) = infer run (record t { feed = feed }) i

  -- A round of the loop of `detect_task`.
  unfoldable pub detect_round : (ℕ → List (Result Score) × ℕ) → ℕ → Detector → Detector × Option ℕ
  detect_round run ticks t = received run t (recv S t.feed ticks)

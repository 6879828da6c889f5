-- ===== src/Detect/Handover.antt =====
-- main/task/task_video.cpp and task_detect.cpp on the buffers of the detector: `feed_detector` and
-- `detect_task` run at once, each cut where the other may come between. What a task holds is in a
-- local of it, `in.token` and `elem`.
pub mod Held
pub mod Own
pub mod Exclusive
pub mod Calls
pub mod Made
mod Tests
use esp32_ipc.Base.{ℕ, ◌≡◌, Bool, true, false, Option, none, some}
use esp32_ipc.Base.Int.{pos}
use esp32_ipc.Esp.{Semaphore}
use esp32_ipc.FramePool.{Pool, free, ready, list_push, list_pop, release_at}

module _ (S : Semaphore) where
  open S use {Sem, give, take}

  -- The pool, the element that the video task fills, whether its submit has pushed and not yet given,
  -- whether the receive of the detector task has taken and not yet popped, and the element whose
  -- buffer the model reads.
  pub record Hands : Type 0 where
    pub pool : Pool Sem
    pub filling : Option ℕ
    pub giving : Bool
    pub taking : Bool
    pub reading : Option ℕ

  pub data Step (h : Hands) : Hands → Type 0 where
    -- `feed_detector` asks for a buffer,
    acquires :
        h.filling ≡ none
        → h.giving ≡ false
        → Step h (record h { pool = (list_pop h.pool free).1; filling = (list_pop h.pool free).0 })
    -- and submits it, in two steps, when the scaler has filled it,
    pushes :
        (i : ℕ)
        → h.filling ≡ some i
        → Step h (record h { pool = (list_push h.pool ready i).1; filling = none; giving = true })
    gives :
        h.giving ≡ true
        → Step h (record h {
          pool = record (h.pool) { ready_sem = give h.pool.ready_sem };
          giving = false;
        })
    -- or discards it.
    discards :
        (i : ℕ)
        → h.filling ≡ some i
        → Step h (record h {
          pool = (release_at h.pool (pos (h.pool.element i).index)).1;
          filling = none;
        })
    -- `detect_task` receives, in two steps,
    takes :
        (ticks : ℕ) (s : Sem)
        → h.reading ≡ none
        → h.taking ≡ false
        → take h.pool.ready_sem ticks ≡ some s
        → Step h (record h { pool = record (h.pool) { ready_sem = s }; taking = true })
    pops :
        h.taking ≡ true
        → Step h (record h {
          pool = (list_pop h.pool ready).1;
          taking = false;
          reading = (list_pop h.pool ready).0;
        })
    -- and releases the element when the model has run.
    releases :
        (i : ℕ)
        → h.reading ≡ some i
        → Step h (record h {
          pool = (release_at h.pool (pos (h.pool.element i).index)).1;
          reading = none;
        })

  pub data Reach (h : Hands) : Hands → Type 0 where
    here : Reach h h
    next : {k n : Hands} → Reach h k → Step k n → Reach h n

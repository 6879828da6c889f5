-- ===== src/Detect/Handover/Exclusive.antt =====
-- main/task/task_video.cpp and task_detect.cpp: no buffer is filled while the model reads it.
use esp32_ipc.Base.{ℕ, ◌+◌, ◌<◌, ◌≡◌, arith}
use esp32_ipc.Esp.{Semaphore}
use esp32_ipc.FramePool.Places.{occ}
use esp32_ipc.Detect.Handover.{Hands, Reach, here, next}
use esp32_ipc.Detect.Handover.Held.{is}
use esp32_ipc.Detect.Handover.Own.{Own, Step-Own}

module _ (S : Semaphore) where
  Reach-Own : {h n : Hands S} → Reach S h n → Own S h → Own S n
  Reach-Own here o = o
  Reach-Own (next r s) o = Step-Own S s (Reach-Own r o)

  -- From a sound pool whose checked-out elements are those that the two tasks hold, with neither task
  -- in the middle of a call while it holds one, in any interleaving of the video task and the detector
  -- task: each element is in exactly one of four places, free, ready, with the video task, which fills
  -- its buffer, or with the detector task, whose model reads it. In particular no buffer is filled while
  -- it is read.
  pub Reach-one_place :
      {h n : Hands S}
      → Own S h
      → Reach S h n
      → (j : ℕ) → j < n.pool.elem_num
      → occ j n.pool.free_list + occ j n.pool.ready_list + is n.filling j + is n.reading j ≡ 1
  Reach-one_place {h} {n} o r j k =
      let w = Reach-Own r o in omega (arith, w.sound.valid.one_place j k, w.owners j k)

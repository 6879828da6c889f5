-- ===== src/Video/Flow/Tests.antt =====
-- The theorems on the two tasks of main/task/task_video.cpp at a run of five steps.
use esp32_ipc.Base.{ℕ, ltb, if◌then◌else◌, ◌+◌, ◌*◌, ◌≤◌, ◌≡◌, ◌⊎◌, refl, ◌++◌, length}
use mathlib.Core.List.{Sublistᴰ}
use esp32_ipc.Hal.Tests.Bench.{bench, queued, accepts}
use esp32_ipc.Video.Flow.Order.{captured, received, pending, received-InOrder}
use esp32_ipc.Video.Flow.Counts.{Counted, Reach-Counted}
use esp32_ipc.Video.Flow.Settle.{others, asked, work, Busy, Reach-settles}
use esp32_ipc.Video.Tests.{start, behind, to_behind, start-IsWhole}
use esp32_ipc.Hal.Device.{capture}
use esp32_ipc.Config.{cap_buf_count}

received-InOrder_example :
    Sublistᴰ (received bench to_behind ++ pending bench behind) (captured bench to_behind)
received-InOrder_example = received-InOrder bench to_behind refl refl

Reach-Counted_example :
    Counted bench start
      (length (captured bench to_behind))
      (length (received bench to_behind))
      behind
Reach-Counted_example = Reach-Counted bench to_behind refl refl

Reach-settles_example :
    (others bench to_behind ≤ work bench start + 3 * asked bench to_behind)
    × (Busy bench behind
        ⊎ ((j : ℕ) → queued behind.camera capture j ≡ (if ltb j cap_buf_count then 1 else 0)))
Reach-settles_example = Reach-settles bench accepts to_behind start-IsWhole

-- ===== src/Video/Stats/Tests.antt =====
-- The counters at a run in which a frame is counted between a read and the clear after it.
use esp32_ipc.Base.{◌≡◌, refl, false}
use esp32_ipc.Video.Stats.{cleared}
use esp32_ipc.Video.Stats.Lost.{Watch, Reach, here, next, counts, prints, clears, loop, between}

abbrev quiet : Watch
quiet = record { stats = cleared; printed = λ k. false }

second_window : (v : Watch) × Reach quiet v
second_window = (
  _,
  next
      (next (next (next (next here (counts loop 2)) (prints loop refl)) (counts loop 1))
        (clears loop refl))
      (counts loop 4),
)

one_lost : between loop second_window.1 ≡ 1
unfolding second_window
one_lost = refl

-- ===== src/Detect/Handover/Tests.antt =====
-- The two tasks on a pool of two elements: one is read while the other is filled.
use esp32_ipc.Base.{◌+◌, ◌≡◌, refl, arith, some}
use esp32_ipc.FramePool.{list_push, list_pop, pop_from}
use esp32_ipc.Esp.{esp_ok}
use esp32_ipc.FramePool.Tests.{counting}
use esp32_ipc.FramePool.New.Tests.{arena, create, cfg, room_for, made, both_added, both_made}
use esp32_ipc.Detect.Handover.Made.{both_idle, new_pool-one_place}
use esp32_ipc.Detect.Handover.{Hands, Reach, here, next, acquires, pushes, gives, takes, pops}
use esp32_ipc.FramePool.Places.{occ}
use esp32_ipc.Detect.Handover.Held.{is}

-- Element 1 is read, element 0 is filled.
both_busy :
    (n : Hands counting) × Reach counting (both_idle counting both_added) n
    × (n.pool.elem_num ≡ 2)
    × (n.filling ≡ some 0)
    × (n.reading ≡ some 1)
unfolding list_push list_pop pop_from
both_busy = (
  _,
  next
      (next
        (next (next (next (next here (acquires refl refl)) (pushes 1 refl)) (gives refl))
          (takes 5 (record { value = 0; limit = 2 }) refl refl refl))
        (pops refl))
      (acquires refl refl),
  refl,
  refl,
  refl,
)

new_pool-one_place_example :
    let n = both_busy.0 in
    occ 0 n.pool.free_list + occ 0 n.pool.ready_list + is n.filling 0 + is n.reading 0 ≡ 1
new_pool-one_place_example =
    new_pool-one_place counting arena create (λ n. refl) (λ n. refl) cfg (room_for 9) made.2 esp_ok
      both_added both_made both_busy.1 0 (omega arith)

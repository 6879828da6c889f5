-- ===== src/Detect/Handover/Made.antt =====
-- main/task/task_video.cpp and task_detect.cpp, on the pool that `ped_start` makes.
use esp32_ipc.Base.{ℕ, ◌+◌, ◌<◌, ◌≡◌, refl, arith, false, none, some}
use esp32_ipc.Esp.{EspErr, Semaphore}
use esp32_ipc.FramePool.{Pool, free, ready}
use esp32_ipc.FramePool.Places.{occ}
use esp32_ipc.FramePool.New.{Allocator, PoolCfg, new_pool}
use esp32_ipc.FramePool.New.Fresh.{new_pool-IsFresh}
use esp32_ipc.FramePool.New.Life.{
  SameBuffers, SameBuffers-trans, list_push-SameBuffers, list_pop-SameBuffers,
  release_at-SameBuffers,
}
use esp32_ipc.FramePool.New.Start.{new_pool-Inv}
use esp32_ipc.Detect.Handover.{
  Hands, Step, Reach, here, next, acquires, pushes, gives, discards, takes, pops, releases,
}
use esp32_ipc.Detect.Handover.Held.{is}
use esp32_ipc.Detect.Handover.Own.{Own}
use esp32_ipc.Detect.Handover.Exclusive.{Reach-one_place}

module _ (S : Semaphore) where
  open S use {Sem, value, limit}

  Step-SameBuffers : {h n : Hands S} → Step S h n → SameBuffers h.pool n.pool
  Step-SameBuffers {h} (acquires idle quiet) = list_pop-SameBuffers h.pool free
  Step-SameBuffers {h} (pushes i e) = list_push-SameBuffers h.pool ready i
  Step-SameBuffers (gives due) = record { count = refl; owns = λ j. refl; at = λ j. refl }
  Step-SameBuffers {h} (discards i e) = release_at-SameBuffers h.pool _
  Step-SameBuffers (takes ticks s idle quiet e) = record {
    count = refl;
    owns = λ j. refl;
    at = λ j. refl;
  }
  Step-SameBuffers {h} (pops due) = list_pop-SameBuffers h.pool ready
  Step-SameBuffers {h} (releases i e) = release_at-SameBuffers h.pool _

  Reach-SameBuffers : {h n : Hands S} → Reach S h n → SameBuffers h.pool n.pool
  Reach-SameBuffers here = record { count = refl; owns = λ j. refl; at = λ j. refl }
  Reach-SameBuffers (next r s) = SameBuffers-trans (Reach-SameBuffers r) (Step-SameBuffers s)

  -- Neither task is in a call, and neither holds an element.
  abbrev pub both_idle : Pool Sem → Hands S
  both_idle p = record { pool = p; filling = none; giving = false; taking = false; reading = none }

  module _ (A : Allocator) (create : ℕ → Sem) where
    open A use {Heap}

    new_pool-Own :
        ((n : ℕ) → value (create n) ≡ 0)
        → ((n : ℕ) → limit (create n) ≡ n)
        → (cfg : PoolCfg) (heap heap' : Heap) (e : EspErr) (p : Pool Sem)
        → new_pool A create cfg heap ≡ (e, some p, heap')
        → Own S (both_idle p)
    new_pool-Own starts limits cfg heap heap' e p made =
        let f = new_pool-IsFresh A create cfg heap heap' e p made in
        record {
          sound = new_pool-Inv S A create starts limits cfg heap heap' e p made;
          owners = λ j k. f.none_held j (omega (arith, f.count));
          filling_in = λ i q. absurd (cc);
          reading_in = λ i q. absurd (cc);
          given_first = λ i q. refl;
          read_later = λ q. refl;
        }

    -- On a pool that `frame_pool_new` made, with a semaphore that starts at 0 with the limit that it is
    -- created with, in any interleaving of the video task and the detector task: each of the elements
    -- that were asked for is in exactly one of four places, free, ready, with the video task, which
    -- fills its buffer, or with the detector task, whose model reads it. In particular no buffer is
    -- filled while it is read.
    pub new_pool-one_place :
        ((n : ℕ) → value (create n) ≡ 0)
        → ((n : ℕ) → limit (create n) ≡ n)
        → (cfg : PoolCfg) (heap heap' : Heap) (e : EspErr) (p : Pool Sem) {n : Hands S}
        → new_pool A create cfg heap ≡ (e, some p, heap')
        → Reach S (both_idle p) n
        → (j : ℕ) → j < cfg.elem_num
        → occ j n.pool.free_list + occ j n.pool.ready_list + is n.filling j + is n.reading j ≡ 1
    new_pool-one_place starts limits cfg heap heap' e p {n} made r j k =
        let f = new_pool-IsFresh A create cfg heap heap' e p made in
        let s = Reach-SameBuffers r in
        Reach-one_place S (new_pool-Own starts limits cfg heap heap' e p made) r j
          (omega (arith, f.count, s.count))

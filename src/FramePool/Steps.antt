-- ===== src/FramePool/Steps.antt =====
-- The pool under any interleaving of its callers. `frame_pool_submit` is two steps, the push and the
-- give, and `frame_pool_recv` is two steps, the take and the pop: other calls may come between.
pub mod Safe
pub mod Refine
use esp32_ipc.Base.{ℕ, suc, ◌<◌, ◌≡◌, some}
use esp32_ipc.Base.Int.{ℤ}
use esp32_ipc.Esp.{esp_ok, Semaphore}
use esp32_ipc.FramePool.{Pool, free, ready, list_push, list_pop, release_at}

module _ (S : Semaphore) where
  open S use {Sem, give, take}

  -- The pool, the submits that have pushed and not yet given, and the receives that have taken and
  -- not yet popped.
  pub record Machine : Type 0 where
    pub pool : Pool Sem
    pub giving : ℕ
    pub taking : ℕ

  pub data Step (m : Machine) : Machine → Type 0 where
    acquires : Step m (record m { pool = (list_pop m.pool free).1 })
    pushes :
        (i : ℕ)
        → i < m.pool.elem_num
        → (list_push m.pool ready i).0 ≡ esp_ok
        → Step m (record m { pool = (list_push m.pool ready i).1; giving = suc m.giving })
    gives :
        (k : ℕ)
        → m.giving ≡ suc k
        → Step m
            (record m { pool = record (m.pool) { ready_sem = give m.pool.ready_sem }; giving = k })
    takes :
        (ticks : ℕ) (s : Sem)
        → take m.pool.ready_sem ticks ≡ some s
        → Step m (record m { pool = record (m.pool) { ready_sem = s }; taking = suc m.taking })
    pops :
        (k : ℕ)
        → m.taking ≡ suc k
        → Step m (record m { pool = (list_pop m.pool ready).1; taking = k })
    releases : (index : ℤ) → Step m (record m { pool = (release_at m.pool index).1 })

  pub data Reach (m : Machine) : Machine → Type 0 where
    here : Reach m m
    next : {k n : Machine} → Reach m k → Step k n → Reach m n

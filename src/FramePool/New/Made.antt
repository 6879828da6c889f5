-- ===== src/FramePool/New/Made.antt =====
-- main/core/frame_pool.cpp: what `frame_pool_new` got when it succeeds.
use esp32_ipc.Base.{ℕ, ◌≡◌, refl, ◌==◌, Bool-cases, inl, inr, Option, none, some, Option-cases}
use esp32_ipc.Esp.{EspErr}
use esp32_ipc.FramePool.{Pool}
use esp32_ipc.FramePool.New.{Allocator, PoolCfg, Blocks, add_elements, empty_pool, new_pool}

-- The block that an allocation answered.
abbrev pub block : Option ℕ → ℕ
block none = 0
block (some b) = b

module _ (A : Allocator) {Sem : Type 0} (create : ℕ → Sem) where
  open A use {Heap, calloc}

  -- The blocks of the structure, the element array and the semaphore of a pool that is made in a heap.
  abbrev pub blocks_from : Heap → Blocks
  blocks_from h = record {
    pool_at = block (calloc h).0;
    elements_at = block (calloc (calloc h).1).0;
    sem_at = block (calloc (calloc (calloc h).1).1).0;
  }

  -- The three blocks were there, and the elements were added.
  pub record IsMade (cfg : PoolCfg) (h h' : Heap) (e : EspErr) (p : Pool Sem) : Type 0 where
    pub pool_got : calloc h ≡ (some (blocks_from h).pool_at, (calloc h).1)
    pub elements_got :
        calloc (calloc h).1 ≡ (some (blocks_from h).elements_at, (calloc (calloc h).1).1)
    pub sem_got :
        calloc (calloc (calloc h).1).1
        ≡ (some (blocks_from h).sem_at, (calloc (calloc (calloc h).1).1).1)
    pub added :
        add_elements A create
          (blocks_from h)
          cfg
          (empty_pool A create cfg.elem_num)
          0
          cfg.elem_num
          (calloc (calloc (calloc h).1).1).1
        ≡ (e, some p, h')

  got : (c : Option ℕ × Heap) (b : ℕ) → c.0 ≡ some b → c ≡ (some (block c.0), c.1)
  got (none, h) b e = absurd (cc)
  got (some x, h) b e = refl

  pub new_pool-IsMade :
      (cfg : PoolCfg) (h h' : Heap) (e : EspErr) (p : Pool Sem)
      → new_pool A create cfg h ≡ (e, some p, h')
      → IsMade cfg h h' e p
  unfolding new_pool
  new_pool-IsMade cfg h h' e p made =
      let h1 = (calloc h).1 in
      let h2 = (calloc h1).1 in
      let h3 = (calloc h2).1 in
      elim (Bool-cases (cfg.elem_num == 0)) [
        | inl nothing ↦ let failed = rw (nothing, new_pool) at made in absurd (cc)
        | inr some_elements ↦ elim (Option-cases (calloc h).0) [
          | inl o1 ↦ let failed = rw (some_elements, o1, new_pool) at made in absurd (cc)
          | inr (pool_at, o1) ↦ elim (Option-cases (calloc h1).0) [
            | inl o2 ↦ let failed = rw (some_elements, o1, o2, new_pool) at made in absurd (cc)
            | inr (elements_at, o2) ↦ elim (Option-cases (calloc h2).0) [
              | inl o3 ↦
                  let failed = rw (some_elements, o1, o2, o3, new_pool) at made in absurd (cc)
              | inr (sem_at, o3) ↦ record {
                pool_got = got (calloc h) pool_at o1;
                elements_got = got (calloc h1) elements_at o2;
                sem_got = got (calloc h2) sem_at o3;
                added = rw (o1, o2, o3) (rw (some_elements, o1, o2, o3, new_pool) at made);
              }
            ]
          ]
        ]
      ]

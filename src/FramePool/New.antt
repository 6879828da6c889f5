-- ===== src/FramePool/New.antt =====
-- main/core/frame_pool.cpp: the making and the end of a pool, over a heap that may have no room. The
-- structure, the element array, the semaphore and each buffer are a block of the heap each.
pub mod Delete
pub mod Restores
pub mod Made
pub mod Leaks
pub mod Fresh
pub mod Life
pub mod Start
pub mod Tests
use esp32_ipc.Base.{
  ℕ, zero, suc, ◌==◌, ◌≡◌, Bool, true, false, store, if◌then◌else◌, Option, none, some, [],
}
use esp32_ipc.Esp.{EspErr, esp_ok, esp_err_no_mem, esp_err_invalid_arg}
use esp32_ipc.FramePool.{Pool, free, list_push}

-- The heap: `calloc` answers a new block or none, and `live` tells which blocks are in use.
pub record Allocator : Type 1 where
  pub Heap : Type 0
  pub calloc : Heap → Option ℕ × Heap
  pub release : ℕ → Heap → Heap
  pub live : Heap → ℕ → Bool
  pub calloc_some :
      (h h' : Heap) (b x : ℕ)
      → calloc h ≡ (some b, h')
      → (live h b ≡ false) × (live h' x ≡ (if x == b then true else live h x))
  pub calloc_none : (h h' : Heap) (x : ℕ) → calloc h ≡ (none, h') → live h' x ≡ live h x
  pub live-release :
      (h : Heap) (b x : ℕ) → live (release b h) x ≡ (if x == b then false else live h x)

-- `frame_pool_cfg_t`, less the alignment and the capabilities.
pub record PoolCfg : Type 0 where
  pub elem_num : ℕ
  pub buffer_size : ℕ

-- The blocks of a pool that are no buffers.
pub record Blocks : Type 0 where
  pub pool_at : ℕ
  pub elements_at : ℕ
  pub sem_at : ℕ

module _ (A : Allocator) {Sem : Type 0} (create : ℕ → Sem) where
  open A use {Heap, calloc, release}

  -- The loop of `frame_pool_delete` from element `i` on, with `left` rounds left.
  unfoldable pub free_buffers : Pool Sem → ℕ → ℕ → Heap → Heap
  free_buffers p i zero h = h
  free_buffers p i (suc left) h =
      free_buffers p (suc i) left
        (if (p.element i).owns_buffer then release (p.element i).buffer h else h)

  -- `frame_pool_delete`
  unfoldable pub delete_pool : Blocks → Pool Sem → Heap → Heap
  unfolding free_buffers
  delete_pool at p h =
      release at.pool_at
        (release at.elements_at (release at.sem_at (free_buffers p 0 p.elem_num h)))

  -- Element `i` with its buffer, before its push.
  abbrev pub with_element : Pool Sem → ℕ → ℕ → ℕ → Pool Sem
  with_element p i b size = record p {
    elem_num = suc p.elem_num;
    element =
        store p.element i
          (record { checked_out = true; owns_buffer = true; index = i; buffer = b; size = size });
  }

  -- The loop of `frame_pool_new` from element `i` on, with `left` rounds left.
  unfoldable pub add_elements :
      Blocks → PoolCfg → Pool Sem → ℕ → ℕ → Heap → EspErr × Option (Pool Sem) × Heap
  unfolding delete_pool
  add_elements at cfg p i zero h = (esp_ok, some p, h)
  add_elements at cfg p i (suc left) h =
      let (block, h') = calloc h in
      elim block [
        | none ↦ (esp_err_no_mem, none, delete_pool at p h')
        | some b ↦
            add_elements at cfg (list_push (with_element p i b cfg.buffer_size) free i).1 (suc i)
              left h'
      ]

  -- The pool before its first element; the cells of the array are zero.
  abbrev pub empty_pool : ℕ → Pool Sem
  empty_pool n = record {
    elem_num = 0;
    free_list = [];
    ready_list = [];
    element =
        λ i. record { checked_out = false; owns_buffer = false; index = 0; buffer = 0; size = 0 };
    ready_sem = create n;
  }

  -- `frame_pool_new` of a configuration and a result pointer that are not null.
  unfoldable pub new_pool : PoolCfg → Heap → EspErr × Option (Pool Sem) × Heap
  unfolding add_elements
  new_pool cfg h =
      let (pool_block, h1) = calloc h in
      let (array_block, h2) = calloc h1 in
      let (sem_block, h3) = calloc h2 in
      if cfg.elem_num == 0 then (esp_err_invalid_arg, none, h) else elim pool_block [
        | none ↦ (esp_err_no_mem, none, h1)
        | some pool_at ↦ elim array_block [
          | none ↦ (esp_err_no_mem, none, release pool_at h2)
          | some elements_at ↦ elim sem_block [
            | none ↦ (esp_err_no_mem, none, release pool_at (release elements_at h3))
            | some sem_at ↦
                add_elements
                  (record { pool_at = pool_at; elements_at = elements_at; sem_at = sem_at }) cfg
                  (empty_pool cfg.elem_num) 0 cfg.elem_num h3
          ]
        ]
      ]

-- ===== src/FramePool/New/Start.antt =====
-- main/core/frame_pool.cpp: a new pool is one whose semaphore and ready list agree.
use esp32_ipc.Base.{ℕ, zero, suc, ◌≡◌, ap, ◌∙◌, arith, inl, inr, some, length, Option-cases}
use esp32_ipc.Esp.{EspErr, Semaphore}
use esp32_ipc.FramePool.{Pool, free, list_push}
use esp32_ipc.FramePool.New.{
  Allocator, PoolCfg, Blocks, with_element, add_elements, new_pool, empty_pool,
}
use esp32_ipc.FramePool.New.Fresh.{new_pool-IsFresh}
use esp32_ipc.FramePool.New.Made.{blocks_from, new_pool-IsMade}
use esp32_ipc.FramePool.Steps.Safe.{Inv}

module _ (S : Semaphore) (A : Allocator) (create : ℕ → S.Sem) where
  open S use {Sem, value, limit}
  open A use {Heap, calloc}

  list_push-ready_sem :
      (p : Pool Sem) (i b size : ℕ)
      → (list_push (with_element A create p i b size) free i).1.ready_sem ≡ p.ready_sem
  unfolding list_push
  list_push-ready_sem p i b size = ground arith

  add_elements-ready_sem :
      (at : Blocks) (cfg : PoolCfg) (p q : Pool Sem) (i left : ℕ) (h h' : Heap) (e : EspErr)
      → add_elements A create at cfg p i left h ≡ (e, some q, h')
      → q.ready_sem ≡ p.ready_sem
  unfolding add_elements
  add_elements-ready_sem at cfg p q i zero h h' e made = cc
  add_elements-ready_sem at cfg p q i (suc left) h h' e made = elim (Option-cases (calloc h).0) [
    | inl none_left ↦ let failed = rw (none_left, add_elements) at made in absurd (cc)
    | inr (b, got) ↦
        add_elements-ready_sem at cfg
          (list_push (with_element A create p i b cfg.buffer_size) free i).1 q (suc i) left
          (calloc h).1 h' e (rw (got, add_elements) at made)
        ∙ list_push-ready_sem p i b cfg.buffer_size
  ]

  -- Of a semaphore that starts at 0 with the limit that it is created with.
  pub new_pool-Inv :
      ((n : ℕ) → value (create n) ≡ 0)
      → ((n : ℕ) → limit (create n) ≡ n)
      → (cfg : PoolCfg) (h h' : Heap) (e : EspErr) (p : Pool Sem)
      → new_pool A create cfg h ≡ (e, some p, h')
      → Inv S (record { pool = p; giving = 0; taking = 0 })
  new_pool-Inv starts limits cfg h h' e p made =
      let f = new_pool-IsFresh A create cfg h h' e p made in
      let same : p.ready_sem ≡ create cfg.elem_num =
        add_elements-ready_sem (blocks_from A create h) cfg (empty_pool A create cfg.elem_num) p 0
          cfg.elem_num _ h' e (new_pool-IsMade A create cfg h h' e p made).added in
      record {
        valid = f.valid;
        balance = omega (arith, ap value same, starts cfg.elem_num, ap length f.none_ready);
        whole = omega (arith, ap limit same, limits cfg.elem_num, f.count);
      }

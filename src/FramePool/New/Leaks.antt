-- ===== src/FramePool/New/Leaks.antt =====
-- A pool that cannot be made leaves nothing behind.
use esp32_ipc.Base.{
  ℕ, zero, suc, ◌≡◌, refl, sym, ap, ◌∙◌, ◌==◌, Bool-cases, inl, inr, none, Option-cases,
}
use esp32_ipc.Esp.{EspErr}
use esp32_ipc.FramePool.{Pool, free, list_push}
use esp32_ipc.FramePool.New.{
  Allocator, PoolCfg, Blocks, with_element, add_elements, empty_pool, new_pool,
}
use esp32_ipc.FramePool.New.Delete.{delete_pool-live}
use esp32_ipc.FramePool.New.Restores.{
  Restores, pushed, Restores-pushed, empty-Restores, release-calloc_Same,
}

module _ (A : Allocator) {Sem : Type 0} (create : ℕ → Sem) where
  open A use {Heap, calloc, release, live, calloc_some, calloc_none, live-release}

  add_elements-fails :
      (h0 : Heap) (at : Blocks) (cfg : PoolCfg) (p : Pool Sem) (i left : ℕ) (h h' : Heap)
      (e : EspErr)
      → p.elem_num ≡ i
      → Restores A create h0 at p h
      → add_elements A create at cfg p i left h ≡ (e, none, h')
      → (x : ℕ) → live h' x ≡ live h0 x
  unfolding add_elements
  add_elements-fails h0 at cfg p i zero h h' e n r f x = absurd (cc)
  add_elements-fails h0 at cfg p i (suc left) h h' e n r f x = elim (Option-cases (calloc h).0) [
    | inl none_left ↦
        sym (ap (λ k. live k x) (ap (λ t. t.2) (rw (none_left, add_elements) at f)))
        ∙ delete_pool-live A create at p (calloc h).1 x
        ∙ rw (calloc_none h (calloc h).1 x (ap (λ o. (o, (calloc h).1)) none_left))
            (sym (delete_pool-live A create at p h x) ∙ r x)
    | inr (b, got) ↦
        let put = ap (λ o. (o, (calloc h).1)) got in
        add_elements-fails h0 at cfg
          (list_push (with_element A create p i b cfg.buffer_size) free i).1 (suc i) left
          (calloc h).1 h' e (pushed A create p i b cfg.buffer_size n).0
          (Restores-pushed A create h0 at p i b cfg.buffer_size h (calloc h).1 n put r)
          (rw (got, add_elements) at f) x
  ]

  -- When `frame_pool_new` fails, for want of memory at whatever allocation or for its arguments, every
  -- block that it took is free again and no other was freed.
  pub new_pool-fails :
      (cfg : PoolCfg) (h h' : Heap) (e : EspErr)
      → new_pool A create cfg h ≡ (e, none, h')
      → (x : ℕ) → live h' x ≡ live h x
  unfolding new_pool
  new_pool-fails cfg h h' e f x =
      let h1 = (calloc h).1 in
      let h2 = (calloc h1).1 in
      let h3 = (calloc h2).1 in
      elim (Bool-cases (cfg.elem_num == 0)) [
        | inl nothing ↦ ap (λ k. live k x) (sym (ap (λ t. t.2) (rw (nothing, new_pool) at f)))
        | inr some_elements ↦ elim (Option-cases (calloc h).0) [
          | inl o1 ↦
              ap (λ k. live k x) (sym (ap (λ t. t.2) (rw (some_elements, o1, new_pool) at f)))
              ∙ calloc_none h h1 x (ap (λ o. (o, h1)) o1)
          | inr (pool_at, o1) ↦ elim (Option-cases (calloc h1).0) [
            | inl o2 ↦
                ap (λ k. live k x) (sym (ap (λ t. t.2) (rw (some_elements, o1, o2, new_pool) at f)))
                ∙ release-calloc_Same A create h h1 h2 pool_at (ap (λ o. (o, h1)) o1)
                    (λ y. calloc_none h1 h2 y (ap (λ o. (o, h2)) o2)) x
            | inr (elements_at, o2) ↦ elim (Option-cases (calloc h2).0) [
              | inl o3 ↦
                  ap (λ k. live k x)
                    (sym (ap (λ t. t.2) (rw (some_elements, o1, o2, o3, new_pool) at f)))
                  ∙ release-calloc_Same A create h h1 _ pool_at (ap (λ o. (o, h1)) o1)
                      (release-calloc_Same A create h1 h2 h3 elements_at (ap (λ o. (o, h2)) o2)
                        (λ y. calloc_none h2 h3 y (ap (λ o. (o, h3)) o3)))
                      x
              | inr (sem_at, o3) ↦
                  let at : Blocks = record {
                    pool_at = pool_at;
                    elements_at = elements_at;
                    sem_at = sem_at;
                  } in
                  add_elements-fails h at cfg (empty_pool A create cfg.elem_num) 0 cfg.elem_num h3
                    h' e refl
                    (empty-Restores A create at cfg.elem_num h h1 h2 h3 (ap (λ o. (o, h1)) o1)
                      (ap (λ o. (o, h2)) o2) (ap (λ o. (o, h3)) o3))
                    (rw (some_elements, o1, o2, o3, new_pool) at f) x
            ]
          ]
        ]
      ]

-- ===== src/FramePool/New/Fresh.antt =====
-- The pool that `frame_pool_new` makes.
use esp32_ipc.Base.{
  ℕ, zero, suc, ◌+◌, ◌<◌, ◌≡◌, refl, subst, arith, inl, inr, some, Option-cases, [], length,
}
use esp32_ipc.Esp.{EspErr}
use esp32_ipc.FramePool.{Pool, free, list_push}
use esp32_ipc.FramePool.Inv.{IsValid, held, list_push-IsValid}
use esp32_ipc.FramePool.New.{
  Allocator, PoolCfg, Blocks, with_element, add_elements, empty_pool, new_pool,
}
use esp32_ipc.FramePool.New.Made.{blocks_from, new_pool-IsMade}

module _ (A : Allocator) {Sem : Type 0} (create : ℕ → Sem) where
  open A use {Heap, calloc}

  -- A valid pool of `n` elements of which all are free.
  pub record IsFresh (n : ℕ) (p : Pool Sem) : Type 0 where
    pub valid : IsValid p
    pub count : p.elem_num ≡ n
    pub none_ready : p.ready_list ≡ []
    pub all_free : length p.free_list ≡ n
    pub none_held : (j : ℕ) → j < n → held p j ≡ 0

  with_element-IsValid :
      (p : Pool Sem) (n b size : ℕ)
      → p.elem_num ≡ n
      → IsValid p
      → IsValid (with_element A create p n b size)
  with_element-IsValid p n b size e v = record {
    one_place = λ j k. ground (arith, v.one_place j, v.no_other j);
    no_other = λ j k. ground (arith, v.no_other j);
    own_index = λ j k. ground (arith, v.own_index j);
  }

  IsFresh-push :
      (n b size : ℕ) (p : Pool Sem)
      → IsFresh n p
      → IsFresh (suc n) (list_push (with_element A create p n b size) free n).1
  unfolding list_push
  IsFresh-push n b size p f = record {
    valid =
        list_push-IsValid (with_element A create p n b size) free n
          (with_element-IsValid p n b size f.count f.valid) (omega (arith, f.count));
    count = ground (arith, f.count);
    none_ready = ground (arith, f.none_ready);
    all_free = ground (arith, f.all_free);
    none_held = λ j k. ground (arith, f.none_held j);
  }

  empty-IsFresh : (n : ℕ) → IsFresh 0 (empty_pool A create n)
  empty-IsFresh n = record {
    valid = record {
      one_place = λ j k. absurd (omega arith);
      no_other = λ j k. refl;
      own_index = λ j k. absurd (omega arith);
    };
    count = refl;
    none_ready = refl;
    all_free = refl;
    none_held = λ j k. absurd (omega arith);
  }

  add_elements-IsFresh :
      (at : Blocks) (cfg : PoolCfg) (p q : Pool Sem) (i left : ℕ) (h h' : Heap) (e : EspErr)
      → IsFresh i p
      → add_elements A create at cfg p i left h ≡ (e, some q, h')
      → IsFresh (i + left) q
  unfolding add_elements
  add_elements-IsFresh at cfg p q i zero h h' e f made =
      let same : p ≡ q = cc in
      subst (λ k. IsFresh k q) {x = i} (omega arith) (subst (IsFresh i) same f)
  add_elements-IsFresh at cfg p q i (suc left) h h' e f made = elim (Option-cases (calloc h).0) [
    | inl none_left ↦ let failed = rw (none_left, add_elements) at made in absurd (cc)
    | inr (b, got) ↦
        subst (λ k. IsFresh k q) {x = suc i + left} (omega arith)
          (add_elements-IsFresh at cfg
            (list_push (with_element A create p i b cfg.buffer_size) free i).1 q (suc i) left
            (calloc h).1 h' e (IsFresh-push i b cfg.buffer_size p f)
            (rw (got, add_elements) at made))
  ]

  -- A pool that `frame_pool_new` makes has the elements that were asked for, each once in its free list
  -- and none ready or checked out.
  pub new_pool-IsFresh :
      (cfg : PoolCfg) (h h' : Heap) (e : EspErr) (p : Pool Sem)
      → new_pool A create cfg h ≡ (e, some p, h')
      → IsFresh cfg.elem_num p
  new_pool-IsFresh cfg h h' e p made =
      subst (λ k. IsFresh k p) {x = 0 + cfg.elem_num} (omega arith)
        (add_elements-IsFresh (blocks_from A create h) cfg (empty_pool A create cfg.elem_num) p 0
          cfg.elem_num _ h' e (empty-IsFresh cfg.elem_num)
          (new_pool-IsMade A create cfg h h' e p made).added)

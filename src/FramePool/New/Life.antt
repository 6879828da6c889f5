-- ===== src/FramePool/New/Life.antt =====
-- main/core/frame_pool.cpp: a pool from `frame_pool_new` to `frame_pool_delete`.
use esp32_ipc.Base.{
  ℕ, zero, suc, ◌≡◌, refl, sym, ap, ◌∙◌, subst, arith, leb, Bool-cases, inl, inr, some, List, [],
  ◌∷◌, Option-cases,
}
use esp32_ipc.Base.Int.{ℤ, pos, negsuc}
use esp32_ipc.Esp.{EspErr, Semaphore}
use esp32_ipc.FramePool.{
  list_of, Pool, Which, free, ready, list_push, pop_from, list_pop, release_at,
}
use esp32_ipc.FramePool.New.{
  Allocator, PoolCfg, Blocks, delete_pool, with_element, add_elements, empty_pool, new_pool,
}
use esp32_ipc.FramePool.New.Made.{blocks_from, new_pool-IsMade}
use esp32_ipc.FramePool.New.Delete.{owned-congr, delete_pool-live}
use esp32_ipc.FramePool.New.Restores.{Restores, pushed, Restores-pushed, empty-Restores}
use esp32_ipc.FramePool.Steps.{
  Machine, Step, acquires, pushes, gives, takes, pops, releases, Reach, here, next,
}

module _ {Sem : Type 0} where
  -- The same elements with the same buffers.
  pub record SameBuffers (p q : Pool Sem) : Type 0 where
    pub count : q.elem_num ≡ p.elem_num
    pub owns : (j : ℕ) → (q.element j).owns_buffer ≡ (p.element j).owns_buffer
    pub at : (j : ℕ) → (q.element j).buffer ≡ (p.element j).buffer

  pub SameBuffers-trans : {p q r : Pool Sem} → SameBuffers p q → SameBuffers q r → SameBuffers p r
  SameBuffers-trans a b = record {
    count = b.count ∙ a.count;
    owns = λ j. b.owns j ∙ a.owns j;
    at = λ j. b.at j ∙ a.at j;
  }

  pub list_push-SameBuffers : (p : Pool Sem) (w : Which) (i : ℕ) → SameBuffers p (list_push p w i).1
  unfolding list_push
  list_push-SameBuffers p free i = record {
    count = ground arith;
    owns = λ j. ground arith;
    at = λ j. ground arith;
  }
  list_push-SameBuffers p ready i = record {
    count = ground arith;
    owns = λ j. ground arith;
    at = λ j. ground arith;
  }

  pop_from-SameBuffers : (p : Pool Sem) (w : Which) (l : List ℕ) → SameBuffers p (pop_from p w l).1
  unfolding pop_from
  pop_from-SameBuffers p w [] = record { count = refl; owns = λ j. refl; at = λ j. refl }
  pop_from-SameBuffers p free (i ∷ l) = record {
    count = refl;
    owns = λ j. ground arith;
    at = λ j. ground arith;
  }
  pop_from-SameBuffers p ready (i ∷ l) = record {
    count = refl;
    owns = λ j. ground arith;
    at = λ j. ground arith;
  }

  pub list_pop-SameBuffers : (p : Pool Sem) (w : Which) → SameBuffers p (list_pop p w).1
  unfolding list_pop
  list_pop-SameBuffers p w = pop_from-SameBuffers p w (list_of p w)

  pub release_at-SameBuffers : (p : Pool Sem) (index : ℤ) → SameBuffers p (release_at p index).1
  unfolding release_at
  release_at-SameBuffers p (negsuc n) = record { count = refl; owns = λ j. refl; at = λ j. refl }
  release_at-SameBuffers p (pos i) = elim (Bool-cases (leb p.elem_num i)) [
    | inl over ↦ rw over (record { count = refl; owns = λ j. refl; at = λ j. refl })
    | inr fits ↦ rw fits (list_push-SameBuffers p free i)
  ]

module _ (S : Semaphore) where
  Step-SameBuffers : {m n : Machine S} → Step S m n → SameBuffers m.pool n.pool
  Step-SameBuffers {m} acquires = list_pop-SameBuffers m.pool free
  Step-SameBuffers {m} (pushes i h e) = list_push-SameBuffers m.pool ready i
  Step-SameBuffers (gives k e) = record { count = refl; owns = λ j. refl; at = λ j. refl }
  Step-SameBuffers (takes ticks s e) = record { count = refl; owns = λ j. refl; at = λ j. refl }
  Step-SameBuffers {m} (pops k e) = list_pop-SameBuffers m.pool ready
  Step-SameBuffers {m} (releases index) = release_at-SameBuffers m.pool index

  Reach-SameBuffers : {m n : Machine S} → Reach S m n → SameBuffers m.pool n.pool
  Reach-SameBuffers here = record { count = refl; owns = λ j. refl; at = λ j. refl }
  Reach-SameBuffers (next r s) = SameBuffers-trans (Reach-SameBuffers r) (Step-SameBuffers s)

  module _ (A : Allocator) (create : ℕ → S.Sem) where
    open S use {Sem}
    open A use {Heap, calloc, live}

    -- A pool with the same buffers gives back the same blocks.
    SameBuffers-Restores :
        (h0 : Heap) (at : Blocks) (p q : Pool Sem) (h : Heap)
        → SameBuffers p q
        → Restores A create h0 at p h
        → Restores A create h0 at q h
    SameBuffers-Restores h0 at p q h s r x =
        delete_pool-live A create at q h x
        ∙ rw (s.count, owned-congr p q 0 p.elem_num x (λ j k. s.owns j) (λ j k. s.at j))
            (sym (delete_pool-live A create at p h x) ∙ r x)

    add_elements-Restores :
        (h0 : Heap) (at : Blocks) (cfg : PoolCfg) (p q : Pool Sem) (i left : ℕ) (h h' : Heap)
        (e : EspErr)
        → p.elem_num ≡ i
        → Restores A create h0 at p h
        → add_elements A create at cfg p i left h ≡ (e, some q, h')
        → Restores A create h0 at q h'
    unfolding add_elements
    add_elements-Restores h0 at cfg p q i zero h h' e n r f =
        let same : p ≡ q = cc in
        let heap : h ≡ h' = cc in
        subst (λ k. Restores A create h0 at q k) heap
          (subst (λ k. Restores A create h0 at k h) same r)
    add_elements-Restores h0 at cfg p q i (suc left) h h' e n r f =
        elim (Option-cases (calloc h).0) [
          | inl none_left ↦ let failed = rw (none_left, add_elements) at f in absurd (cc)
          | inr (b, got) ↦
              add_elements-Restores h0 at cfg
                (list_push (with_element A create p i b cfg.buffer_size) free i).1 q (suc i) left
                (calloc h).1 h' e (pushed A create p i b cfg.buffer_size n).0
                (Restores-pushed A create h0 at p i b cfg.buffer_size h (calloc h).1 n
                  (ap (λ o. (o, (calloc h).1)) got) r)
                (rw (got, add_elements) at f)
        ]

    new_pool-Restores :
        (cfg : PoolCfg) (h h' : Heap) (e : EspErr) (p : Pool Sem)
        → new_pool A create cfg h ≡ (e, some p, h')
        → Restores A create h (blocks_from A create h) p h'
    new_pool-Restores cfg h h' e p made =
        let m = new_pool-IsMade A create cfg h h' e p made in
        add_elements-Restores h (blocks_from A create h) cfg (empty_pool A create cfg.elem_num) p 0
          cfg.elem_num _ h' e refl
          (empty-Restores A create (blocks_from A create h) cfg.elem_num h _ _ _ m.pool_got
            m.elements_got m.sem_got)
          m.added

    -- A pool that `frame_pool_new` made, after any acquires, submits, receives and releases in any
    -- interleaving, with elements checked out or not: `frame_pool_delete` in the heap that
    -- `frame_pool_new` left gives back every block that it took, and frees no other.
    pub new_pool-delete_pool :
        (cfg : PoolCfg) (h h' : Heap) (e : EspErr) (p : Pool Sem) {n : Machine S}
        → new_pool A create cfg h ≡ (e, some p, h')
        → Reach S (record { pool = p; giving = 0; taking = 0 }) n
        → (x : ℕ) → live (delete_pool A create (blocks_from A create h) n.pool h') x ≡ live h x
    new_pool-delete_pool cfg h h' e p {n} made r =
        SameBuffers-Restores h (blocks_from A create h) p n.pool h' (Reach-SameBuffers r)
          (new_pool-Restores cfg h h' e p made)

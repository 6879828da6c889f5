-- ===== src/FramePool/New/Delete.antt =====
-- main/core/frame_pool.cpp: which blocks `frame_pool_delete` frees.
use esp32_ipc.Base.{
  ℕ, zero, suc, ◌+◌, ◌<◌, ◌≡◌, refl, subst, ◌∙◌, arith, ◌==◌, ◌&&◌, ◌||◌, Bool, true, false,
  Bool-cases, inl, inr, if◌then◌else◌,
}
use esp32_ipc.FramePool.{Pool}
use esp32_ipc.FramePool.New.{Allocator, Blocks, free_buffers, delete_pool}

or_assoc : (a b c : Bool) → (a || (b || c)) ≡ ((a || b) || c)
or_assoc true b c = refl
or_assoc false b c = refl

module _ {Sem : Type 0} where
  abbrev pub mine : Pool Sem → ℕ → ℕ → Bool
  mine p i x = (p.element i).owns_buffer && (x == (p.element i).buffer)

  -- Whether block `x` is the buffer of one of `left` elements from `i` on.
  abbrev pub owned : Pool Sem → ℕ → ℕ → ℕ → Bool
  owned p i zero x = false
  owned p i (suc left) x = mine p i x || owned p (suc i) left x

  pub owned_last :
      (p : Pool Sem) (i left x k : ℕ)
      → i + left ≡ k
      → owned p i (suc left) x ≡ (owned p i left x || mine p k x)
  owned_last p i zero x k h =
      subst (λ j. (mine p i x || false) ≡ mine p j x) {x = i} (omega arith) (ground arith)
  owned_last p i (suc left) x k h =
      rw (owned_last p (suc i) left x k (omega arith))
        (or_assoc (mine p i x) (owned p (suc i) left x) (mine p k x))

  pub owned-congr :
      (p q : Pool Sem) (i left x : ℕ)
      → ((j : ℕ) → j < i + left → (q.element j).owns_buffer ≡ (p.element j).owns_buffer)
      → ((j : ℕ) → j < i + left → (q.element j).buffer ≡ (p.element j).buffer)
      → owned q i left x ≡ owned p i left x
  owned-congr p q i zero x o b = refl
  owned-congr p q i (suc left) x o b = rw (
    o i (omega arith),
    b i (omega arith),
    owned-congr p q (suc i) left x (λ j h. o j (omega arith)) (λ j h. b j (omega arith)),
  )

module _ (A : Allocator) {Sem : Type 0} (create : ℕ → Sem) where
  open A use {Heap, calloc, release, live, calloc_some, calloc_none, live-release}

  free_buffers-live :
      (p : Pool Sem) (i left : ℕ) (h : Heap) (x : ℕ)
      → live (free_buffers A create p i left h) x ≡ (if owned p i left x then false else live h x)
  unfolding free_buffers
  free_buffers-live p i zero h x = refl
  free_buffers-live p i (suc left) h x = elim (Bool-cases (p.element i).owns_buffer) [
    | inl own ↦ rw own (
        free_buffers-live p (suc i) left _ x
        ∙ ground (arith, live-release h (p.element i).buffer x))
    | inr other ↦ rw other (free_buffers-live p (suc i) left h x)
  ]

  -- What `frame_pool_delete` leaves in use.
  pub delete_pool-live :
      (at : Blocks) (p : Pool Sem) (h : Heap) (x : ℕ)
      → live (delete_pool A create at p h) x ≡ (
          if (x == at.pool_at)
            || (x == at.elements_at)
            || (x == at.sem_at)
            || owned p 0 p.elem_num x
          then false
          else live h x)
  unfolding delete_pool
  delete_pool-live at p h x =
      let f = free_buffers A create p 0 p.elem_num h in
      ground (
        arith,
        live-release (release at.elements_at (release at.sem_at f)) at.pool_at x,
        live-release (release at.sem_at f) at.elements_at x,
        live-release f at.sem_at x,
        free_buffers-live p 0 p.elem_num h x,
      )

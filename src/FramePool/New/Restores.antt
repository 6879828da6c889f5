-- ===== src/FramePool/New/Restores.antt =====
-- main/core/frame_pool.cpp: a pool whose end would give back what its making took.
use esp32_ipc.Base.{
  ℕ, suc, ◌<◌, ◌≡◌, refl, subst, sym, ◌∙◌, arith, ◌==◌, ◌||◌, Bool, true, false, ℕ_discrete,
  if◌then◌else◌, some,
}
use esp32_ipc.FramePool.{Pool, free, list_push}
use esp32_ipc.FramePool.New.{Allocator, Blocks, free_buffers, delete_pool, with_element, empty_pool}
use esp32_ipc.FramePool.New.Delete.{mine, owned, owned_last, owned-congr, delete_pool-live}

module _ (A : Allocator) {Sem : Type 0} (create : ℕ → Sem) where
  open A use {Heap, calloc, release, live, calloc_some, calloc_none, live-release}

  -- Deleting the pool now would leave in use what was in use in a heap `h0`.
  abbrev pub Restores : Heap → Blocks → Pool Sem → Heap → Type 0
  Restores h0 at p h = (x : ℕ) → live (delete_pool A create at p h) x ≡ live h0 x

  -- What the push of a new element leaves of the array.
  pub pushed :
      (p : Pool Sem) (i b size : ℕ)
      → p.elem_num ≡ i
      → let q = (list_push (with_element A create p i b size) free i).1 in
        (q.elem_num ≡ suc i)
        × ((x : ℕ) → mine q i x ≡ (x == b))
        × ((j : ℕ) → j < i → (q.element j).owns_buffer ≡ (p.element j).owns_buffer)
        × ((j : ℕ) → j < i → (q.element j).buffer ≡ (p.element j).buffer)
  unfolding list_push
  pushed p i b size e = (ground arith, λ x. ground arith, λ j h. ground arith, λ j h. ground arith)

  -- One block more, in use now and freed with the rest.
  restored :
      (a b c others is_new old old0 : Bool)
      → old0 ≡ (if a || b || c || others then false else old)
      → (is_new ≡ true → old0 ≡ false)
      → (if a || b || c || (others || is_new) then false else if is_new then true else old) ≡ old0
  restored a b c others is_new old old0 h k = ground arith

  not_live : (freed old : Bool) → old ≡ false → (if freed then false else old) ≡ false
  not_live freed old h = ground arith

  new_free_at : (k : Heap) (x b : ℕ) → live k b ≡ false → (x == b) ≡ true → live k x ≡ false
  new_free_at k x b free_b same = subst (λ y. live k y ≡ false) {x = b} (ground arith) free_b

  pub Restores-pushed :
      (h0 : Heap) (at : Blocks) (p : Pool Sem) (i b size : ℕ) (h h' : Heap)
      → p.elem_num ≡ i
      → calloc h ≡ (some b, h')
      → Restores h0 at p h
      → Restores h0 at (list_push (with_element A create p i b size) free i).1 h'
  Restores-pushed h0 at p i b size h h' n e r x =
      let q = (list_push (with_element A create p i b size) free i).1 in
      let (count, new, owns, buffers) = pushed p i b size n in
      let before : owned q 0 i x ≡ owned p 0 i x =
        owned-congr p q 0 i x (λ j k. owns j (omega arith)) (λ j k. buffers j (omega arith)) in
      let (unused, used) = calloc_some h h' b x e in
      let old : live h0 x ≡ (
          if (x == at.pool_at) || (x == at.elements_at) || (x == at.sem_at) || owned p 0 i x
          then false
          else live h x) =
        subst
          (λ k. live h0 x ≡ (
            if (x == at.pool_at) || (x == at.elements_at) || (x == at.sem_at) || owned p 0 k x
            then false
            else live h x))
          n (sym (r x) ∙ delete_pool-live A create at p h x) in
      let new_free : live h0 b ≡ false =
        sym (r b) ∙ delete_pool-live A create at p h b ∙ not_live _ _ unused in
      delete_pool-live A create at q h' x
      ∙ rw (count, owned_last q 0 i x i (omega arith), new x, before, used)
          (restored (x == at.pool_at) (x == at.elements_at) (x == at.sem_at) (owned p 0 i x)
            (x == b) (live h x) (live h0 x) old (new_free_at h0 x b new_free))

  -- Heaps in which the same blocks are in use.
  abbrev pub Same : Heap → Heap → Type 0
  Same k k' = (x : ℕ) → live k x ≡ live k' x

  release-Same : (b : ℕ) (k k' : Heap) → Same k k' → Same (release b k) (release b k')
  release-Same b k k' s x = ground (arith, live-release k b x, live-release k' b x, s x)

  pub release-calloc : (k k' : Heap) (b : ℕ) → calloc k ≡ (some b, k') → Same (release b k') k
  release-calloc k k' b e x =
      let (unused, used) = calloc_some k k' b x e in
      elim (ℕ_discrete x b) [
        | yes same ↦ ground (arith, live-release k' b x, new_free_at k x b unused)
        | no apart ↦ ground (arith, live-release k' b x, used)
      ]

  pub release-calloc_Same :
      (k k' k'' : Heap) (b : ℕ) → calloc k ≡ (some b, k') → Same k'' k' → Same (release b k'') k
  release-calloc_Same k k' k'' b e s x = release-Same b k'' k' s x ∙ release-calloc k k' b e x

  delete_empty :
      (at : Blocks) (n : ℕ) (h : Heap)
      → Same
          (delete_pool A create at (empty_pool A create n) h)
          (release at.pool_at (release at.elements_at (release at.sem_at h)))
  unfolding delete_pool free_buffers
  delete_empty at n h x = refl

  -- Deleting a pool that has no element yet gives back its three blocks.
  pub empty-Restores :
      (at : Blocks) (n : ℕ) (h h1 h2 h3 : Heap)
      → calloc h ≡ (some at.pool_at, h1)
      → calloc h1 ≡ (some at.elements_at, h2)
      → calloc h2 ≡ (some at.sem_at, h3)
      → Restores h at (empty_pool A create n) h3
  empty-Restores at n h h1 h2 h3 e1 e2 e3 x =
      delete_empty at n h3 x
      ∙ release-calloc_Same h h1 _ at.pool_at e1
          (release-calloc_Same h1 h2 _ at.elements_at e2 (release-calloc h2 h3 at.sem_at e3)) x

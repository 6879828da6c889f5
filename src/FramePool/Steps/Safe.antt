-- ===== src/FramePool/Steps/Safe.antt =====
-- The counting semaphore and the ready list agree at every moment, whoever runs.
use esp32_ipc.Base.{
  ℕ, suc, ◌+◌, ◌-◌, ◌≤◌, ◌<◌, ◌≡◌, ◌≢◌, refl, arith, leb, List, [], ◌∷◌, length, ap, none,
  Bool-cases, inl, inr,
}
use esp32_ipc.Base.Int.{ℤ, pos, negsuc}
use esp32_ipc.Esp.{esp_ok, Semaphore}
use esp32_ipc.FramePool.{Pool, free, ready, list_push, pop_from, list_pop, release_at}
use esp32_ipc.FramePool.Inv.{IsValid, list_push-IsValid, list_pop-IsValid, IsValid-total}
use esp32_ipc.FramePool.Steps.{
  Machine, Step, acquires, pushes, gives, takes, pops, releases, Reach, here, next,
}

module _ {Sem : Type 0} where
  -- Same size and same semaphore.
  abbrev Alike : Pool Sem → Pool Sem → Type 0
  Alike p q = (q.elem_num ≡ p.elem_num) × (q.ready_sem ≡ p.ready_sem)

  pop_free-effect :
      (p : Pool Sem) (l : List ℕ)
      → Alike p (pop_from p free l).1 × ((pop_from p free l).1.ready_list ≡ p.ready_list)
  unfolding pop_from
  pop_free-effect p [] = ((refl, refl), refl)
  pop_free-effect p (x ∷ l) = ((refl, refl), refl)

  pop_ready-effect :
      (p : Pool Sem) (l : List ℕ)
      → p.ready_list ≡ l
      → Alike p (pop_from p ready l).1
        × (length (pop_from p ready l).1.ready_list ≡ length p.ready_list - 1)
  unfolding pop_from
  pop_ready-effect p [] e = ((refl, refl), omega (arith, ap length e))
  pop_ready-effect p (x ∷ l) e = ((refl, refl), omega (arith, ap length e))

  push_ready-effect :
      (p : Pool Sem) (i : ℕ)
      → (list_push p ready i).0 ≡ esp_ok
      → Alike p (list_push p ready i).1
        × (length (list_push p ready i).1.ready_list ≡ suc (length p.ready_list))
  unfolding list_push
  push_ready-effect p i e = ground arith

  push_free-effect :
      (p : Pool Sem) (i : ℕ)
      → Alike p (list_push p free i).1 × ((list_push p free i).1.ready_list ≡ p.ready_list)
  unfolding list_push
  push_free-effect p i = ground arith

module _ (S : Semaphore) where
  open S use {Sem, give, take, value, limit, value-give, limit-give, value-take, limit-take}

  -- The ready list is as long as the semaphore's value, the gives that are due and the pops that are
  -- due together.
  pub record Inv (m : Machine S) : Type 0 where
    pub valid : IsValid m.pool
    pub balance : value m.pool.ready_sem + m.giving + m.taking ≡ length m.pool.ready_list
    pub whole : limit m.pool.ready_sem ≡ m.pool.elem_num

  pub with_sem-IsValid : (p : Pool Sem) (s : Sem) → IsValid p → IsValid (record p { ready_sem = s })
  with_sem-IsValid p s v = record {
    one_place = v.one_place;
    no_other = v.no_other;
    own_index = v.own_index;
  }

  -- A list operation keeps the semaphore; `ready`, `giving` and `taking` say what it changes.
  list_step-Inv :
      (m : Machine S) (q : Pool Sem) (giving taking : ℕ)
      → Inv m
      → IsValid q
      → Alike m.pool q
      → length q.ready_list + m.giving + m.taking ≡ length m.pool.ready_list + giving + taking
      → Inv (record { pool = q; giving = giving; taking = taking })
  list_step-Inv m q giving taking v w (num, sem) e = record {
    valid = w;
    balance = omega (arith, v.balance, ap value sem);
    whole = omega (arith, v.whole, ap limit sem);
  }

  release-Inv :
      (m : Machine S) (index : ℤ) → Inv m → Inv (record m { pool = (release_at m.pool index).1 })
  unfolding release_at
  release-Inv m (negsuc n) v = v
  release-Inv m (pos i) v = elim (Bool-cases (leb m.pool.elem_num i)) [
    | inl over ↦ rw over v
    | inr fits ↦
        let (alike, same) = push_free-effect m.pool i in
        rw fits (
          list_step-Inv m _ m.giving m.taking v
            (list_push-IsValid m.pool free i v.valid (ground arith)) alike
            (omega (arith, ap length same)))
  ]

  fits_limit :
      (m : Machine S) → Inv m → value m.pool.ready_sem + m.giving + m.taking ≤ m.pool.elem_num
  fits_limit m v = omega (arith, v.balance, IsValid-total m.pool v.valid)

  pub Step-Inv : {m n : Machine S} → Step S m n → Inv m → Inv n
  unfolding list_pop
  Step-Inv {m} acquires v =
      let (alike, same) = pop_free-effect m.pool m.pool.free_list in
      list_step-Inv m _ m.giving m.taking v (list_pop-IsValid m.pool free v.valid) alike
        (omega (arith, ap length same))
  Step-Inv {m} (pushes i h e) v =
      let (alike, longer) = push_ready-effect m.pool i e in
      list_step-Inv m _ (suc m.giving) m.taking v (list_push-IsValid m.pool ready i v.valid h) alike
        (omega (arith, longer))
  Step-Inv {m} (gives k e) v = record {
    valid = with_sem-IsValid m.pool (give m.pool.ready_sem) v.valid;
    balance = omega (arith, value-give m.pool.ready_sem, v.balance, v.whole, fits_limit m v);
    whole = omega (arith, limit-give m.pool.ready_sem, v.whole);
  }
  Step-Inv {m} (takes ticks s e) v = record {
    valid = with_sem-IsValid m.pool s v.valid;
    balance = omega (arith, value-take m.pool.ready_sem s ticks e, v.balance);
    whole = omega (arith, limit-take m.pool.ready_sem s ticks e, v.whole);
  }
  Step-Inv {m} (pops k e) v =
      let (alike, shorter) = pop_ready-effect m.pool m.pool.ready_list refl in
      list_step-Inv m _ m.giving k v (list_pop-IsValid m.pool ready v.valid) alike
        (omega (arith, shorter, v.balance))
  Step-Inv {m} (releases index) v = release-Inv m index v

  -- Under any interleaving of acquires, submits, receives and releases the three places stay apart,
  -- and the ready list is as long as the semaphore's value, the gives that are due and the pops that
  -- are due together.
  pub Reach-Inv : {m n : Machine S} → Reach S m n → Inv m → Inv n
  Reach-Inv here v = v
  Reach-Inv (next r s) v = Step-Inv s (Reach-Inv r v)

  pop_from-some : (p : Pool Sem) (l : List ℕ) → 0 < length l → (pop_from p ready l).0 ≢ none
  unfolding pop_from
  pop_from-some p [] h e = absurd (omega arith)
  pop_from-some p (x ∷ l) h e = cc

  -- From a pool whose three places are apart and whose semaphore agrees with its ready list, under any
  -- interleaving, a receive that has taken the semaphore finds an element in the ready list:
  -- `frame_pool_recv` answers null on a timeout only.
  pub pop_after_take :
      {m n : Machine S} (k : ℕ)
      → Inv m
      → Reach S m n
      → n.taking ≡ suc k
      → (list_pop n.pool ready).0 ≢ none
  unfolding list_pop
  pop_after_take {m} {n} k v r e =
      let w = Reach-Inv r v in pop_from-some n.pool n.pool.ready_list (omega (arith, w.balance))

  -- Under any interleaving, a give that is due finds the semaphore below its limit, so it is counted.
  pub give_counts :
      {m n : Machine S} (k : ℕ)
      → Inv m
      → Reach S m n
      → n.giving ≡ suc k
      → value (give n.pool.ready_sem) ≡ value n.pool.ready_sem + 1
  give_counts {m} {n} k v r e =
      let w = Reach-Inv r v in omega (arith, value-give n.pool.ready_sem, w.whole, fits_limit n w)

-- ===== src/FramePool/PutBack.antt =====
-- An element that is taken off one list of a pool and put on another.
use esp32_ipc.Base.{ℕ, ◌<◌, ◌≡◌, refl, arith, leb, false, none, some, List, [], ◌∷◌, sym, subst}
use esp32_ipc.Base.Int.{pos}
use esp32_ipc.Esp.{esp_ok}
use esp32_ipc.FramePool.{
  Pool, Which, free, ready, list_of, list_push, list_pop, pop_from, release_at,
}
use esp32_ipc.FramePool.Inv.{IsValid, held, list_pop-IsValid, list_push-IsValid, list_pop-some}

module _ {Sem : Type 0} where
  -- The pool is valid, and the same elements are checked out as before.
  pub record SameHeld (p p' : Pool Sem) : Type 0 where
    pub valid : IsValid p'
    pub same : (j : ℕ) → held p' j ≡ held p j

  -- An element that is taken off the free list and put on a list.
  put_back-pop_from :
      (p : Pool Sem) (from w : Which) (l : List ℕ) (i : ℕ)
      → (pop_from p from l).0 ≡ some i
      → held p i ≡ 0
      → ((list_push (pop_from p from l).1 w i).0 ≡ esp_ok)
        × ((j : ℕ) → held (list_push (pop_from p from l).1 w i).1 j ≡ held p j)
  unfolding pop_from list_push
  put_back-pop_from p from w [] i q h = absurd (cc)
  put_back-pop_from p free free (k ∷ l) i q h = (ground arith, λ j. ground arith)
  put_back-pop_from p free ready (k ∷ l) i q h = (ground arith, λ j. ground arith)
  put_back-pop_from p ready free (k ∷ l) i q h = (ground arith, λ j. ground arith)
  put_back-pop_from p ready ready (k ∷ l) i q h = (ground arith, λ j. ground arith)

  pub pop_from_elem_num :
      (p : Pool Sem) (w : Which) (l : List ℕ) → (pop_from p w l).1.elem_num ≡ p.elem_num
  unfolding pop_from
  pop_from_elem_num p w [] = refl
  pop_from_elem_num p free (i ∷ l) = refl
  pop_from_elem_num p ready (i ∷ l) = refl

  pub pop_from-none :
      (p : Pool Sem) (w : Which) (l : List ℕ) → (pop_from p w l).0 ≡ none → (pop_from p w l).1 ≡ p
  unfolding pop_from
  pop_from-none p w [] e = refl
  pop_from-none p w (i ∷ l) e = absurd (cc)

  -- An element of the pool is taken off a list and put on one.
  pub put_back :
      (p : Pool Sem) (from w : Which) (i : ℕ)
      → IsValid p
      → (list_pop p from).0 ≡ some i
      → ((list_push (list_pop p from).1 w i).0 ≡ esp_ok)
        × SameHeld p (list_push (list_pop p from).1 w i).1
        × (i < (list_pop p from).1.elem_num)
  unfolding list_pop
  put_back p from w i v e =
      let (small, off, on) = list_pop-some p from i v e in
      let (done, same) = put_back-pop_from p from w (list_of p from) i e off in
      let small' = subst (λ n. i < n) (sym (pop_from_elem_num p from (list_of p from))) small in
      (
        done,
        record {
          valid = list_push-IsValid (list_pop p from).1 w i (list_pop-IsValid p from v) small';
          same = same;
        },
        small',
      )

  -- `frame_pool_release` by the index that the element knows.
  pub released :
      (p q : Pool Sem) (i : ℕ)
      → i < q.elem_num
      → (q.element i).index ≡ i
      → SameHeld p (list_push q free i).1
      → SameHeld p (release_at q (pos (q.element i).index)).1
  unfolding release_at
  released p q i small own k =
      let within : leb q.elem_num i ≡ false = ground arith in rw (own, within) k

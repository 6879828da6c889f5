-- ===== src/Detect/Handover/Held.antt =====
-- main/core/frame_pool.cpp: how a call changes which elements are checked out.
use esp32_ipc.Base.{
  ℕ, ◌+◌, ◌<◌, ◌≡◌, refl, arith, false, ◌==◌, leb, Option, none, some, List, [], ◌∷◌, if◌then◌else◌,
}
use esp32_ipc.Base.Int.{pos}
use esp32_ipc.Esp.{esp_ok}
use esp32_ipc.FramePool.{
  Pool, Which, free, ready, list_of, list_push, pop_from, list_pop, release_at,
}
use esp32_ipc.FramePool.Inv.{IsValid, held, list_pop-some}
use esp32_ipc.FramePool.PutBack.{pop_from_elem_num}

-- One if it is this element.
abbrev pub is : Option ℕ → ℕ → ℕ
is none j = 0
is (some i) j = if j == i then 1 else 0

module _ {Sem : Type 0} where
  pop_from-held :
      (p : Pool Sem) (w : Which) (l : List ℕ)
      → ((i : ℕ) → (pop_from p w l).0 ≡ some i → held p i ≡ 0)
      → (j : ℕ) → held (pop_from p w l).1 j ≡ held p j + is (pop_from p w l).0 j
  unfolding pop_from
  pop_from-held p w [] off j = omega arith
  pop_from-held p free (i ∷ rest) off j = ground (arith, off i refl)
  pop_from-held p ready (i ∷ rest) off j = ground (arith, off i refl)

  pub list_pop-held :
      (p : Pool Sem) (w : Which)
      → IsValid p
      → (j : ℕ) → held (list_pop p w).1 j ≡ held p j + is (list_pop p w).0 j
  unfolding list_pop
  list_pop-held p w v = pop_from-held p w (list_of p w) (λ i e. (list_pop-some p w i v e).1)

  pub list_push-held :
      (p : Pool Sem) (w : Which) (i : ℕ)
      → held p i ≡ 1
      → ((list_push p w i).0 ≡ esp_ok)
        × ((j : ℕ) → held (list_push p w i).1 j + is (some i) j ≡ held p j)
        × ((list_push p w i).1.elem_num ≡ p.elem_num)
  unfolding list_push
  list_push-held p free i h = (ground arith, λ j. ground arith, ground arith)
  list_push-held p ready i h = (ground arith, λ j. ground arith, ground arith)

  pub release_at-own :
      (p : Pool Sem) (i : ℕ)
      → IsValid p
      → i < p.elem_num
      → release_at p (pos (p.element i).index) ≡ list_push p free i
  unfolding release_at
  release_at-own p i v h =
      let within : leb p.elem_num i ≡ false = ground arith in rw (v.own_index i h, within)

  pub list_pop_elem_num : (p : Pool Sem) (w : Which) → (list_pop p w).1.elem_num ≡ p.elem_num
  unfolding list_pop
  list_pop_elem_num p w = pop_from_elem_num p w (list_of p w)

  -- Either task gives back the element that it holds.
  pub released :
      (p : Pool Sem) (i : ℕ)
      → IsValid p
      → i < p.elem_num
      → held p i ≡ 1
      → ((j : ℕ) → held (release_at p (pos (p.element i).index)).1 j + is (some i) j ≡ held p j)
        × ((release_at p (pos (p.element i).index)).1.elem_num ≡ p.elem_num)
  released p i v small h =
      let (done, moved, same) = list_push-held p free i h in
      rw (release_at-own p i v small) (moved, same)

-- ===== src/FramePool/Inv.antt =====
-- Each element of a pool is in exactly one of three places.
use esp32_ipc.Base.{
  ℕ, ◌+◌, ◌≤◌, ◌<◌, ◌≡◌, inl, inr, refl, arith, true, false, if◌then◌else◌, List, [], ◌∷◌, length,
  ap, dec_lt, some, Bool-cases,
}
use esp32_ipc.Base.Int.{pos}
use esp32_ipc.Esp.{esp_ok, esp_err_invalid_arg, esp_err_invalid_state}
use esp32_ipc.FramePool.{
  Pool, Which, free, ready, list_of, with_list, mark, list_push, pop_from, list_pop, release_at,
}
use esp32_ipc.FramePool.Places.{occ, total, total-add, total-congr, total-occ, total-one}

module _ {Sem : Type 0} where
  -- One if a task holds the element.
  abbrev pub held : Pool Sem → ℕ → ℕ
  held p i = if (p.element i).checked_out then 1 else 0

  -- Every element is once in the free list, once in the ready list or checked out, and in no two of
  -- these; nothing else is in a list; and each element knows its place.
  pub record IsValid (p : Pool Sem) : Type 0 where
    pub one_place : (i : ℕ) → i < p.elem_num → occ i p.free_list + occ i p.ready_list + held p i ≡ 1
    pub no_other : (i : ℕ) → p.elem_num ≤ i → occ i p.free_list + occ i p.ready_list ≡ 0
    pub own_index : (i : ℕ) → i < p.elem_num → (p.element i).index ≡ i

  push_ok-IsValid :
      (p : Pool Sem) (w : Which) (i : ℕ)
      → IsValid p
      → i < p.elem_num
      → (p.element i).checked_out ≡ true
      → IsValid (mark (with_list p w (i ∷ list_of p w)) i false)
  push_ok-IsValid p free i v h e = record {
    one_place = λ j k. ground (arith, v.one_place j);
    no_other = λ j k. ground (arith, v.no_other j);
    own_index = λ j k. ground (arith, v.own_index j);
  }
  push_ok-IsValid p ready i v h e = record {
    one_place = λ j k. ground (arith, v.one_place j);
    no_other = λ j k. ground (arith, v.no_other j);
    own_index = λ j k. ground (arith, v.own_index j);
  }

  -- `list_push` of an element of the pool keeps the three places apart.
  pub list_push-IsValid :
      (p : Pool Sem) (w : Which) (i : ℕ) → IsValid p → i < p.elem_num → IsValid (list_push p w i).1
  unfolding list_push
  list_push-IsValid p w i v h = elim (Bool-cases (p.element i).checked_out) [
    | inl out ↦ rw out (push_ok-IsValid p w i v h out)
    | inr back ↦ rw back v
  ]

  pub in_pool :
      (p : Pool Sem) (w : Which) (i : ℕ) (rest : List ℕ)
      → IsValid p
      → list_of p w ≡ i ∷ rest
      → i < p.elem_num
  in_pool p free i rest v e = elim (dec_lt i p.elem_num) [
    | yes h ↦ h
    | no h ↦ absurd (ground (arith, v.no_other i, ap (occ i) e))
  ]
  in_pool p ready i rest v e = elim (dec_lt i p.elem_num) [
    | yes h ↦ h
    | no h ↦ absurd (ground (arith, v.no_other i, ap (occ i) e))
  ]

  pop_some-IsValid :
      (p : Pool Sem) (w : Which) (i : ℕ) (rest : List ℕ)
      → IsValid p
      → list_of p w ≡ i ∷ rest
      → IsValid (mark (with_list p w rest) i true)
  pop_some-IsValid p free i rest v e =
      let h = in_pool p free i rest v e in
      record {
        one_place = λ j k. ground (arith, v.one_place j, v.one_place i, ap (occ j) e, ap (occ i) e);
        no_other = λ j k. ground (arith, v.no_other j, ap (occ j) e);
        own_index = λ j k. ground (arith, v.own_index j);
      }
  pop_some-IsValid p ready i rest v e =
      let h = in_pool p ready i rest v e in
      record {
        one_place = λ j k. ground (arith, v.one_place j, v.one_place i, ap (occ j) e, ap (occ i) e);
        no_other = λ j k. ground (arith, v.no_other j, ap (occ j) e);
        own_index = λ j k. ground (arith, v.own_index j);
      }

  pop_from-IsValid :
      (p : Pool Sem) (w : Which) (l : List ℕ)
      → IsValid p
      → list_of p w ≡ l
      → IsValid (pop_from p w l).1
  unfolding pop_from
  pop_from-IsValid p w [] v e = v
  pop_from-IsValid p w (i ∷ rest) v e = pop_some-IsValid p w i rest v e

  pub list_pop-IsValid : (p : Pool Sem) (w : Which) → IsValid p → IsValid (list_pop p w).1
  unfolding list_pop
  list_pop-IsValid p w v = pop_from-IsValid p w (list_of p w) v refl

  -- No element is lost or made up: what is free, what is ready and what is checked out make up the
  -- pool.
  pub IsValid-total :
      (p : Pool Sem)
      → IsValid p
      → length p.free_list + length p.ready_list + total p.elem_num (held p) ≡ p.elem_num
  IsValid-total p v =
      let n = p.elem_num in
      let in_free = λ (i : ℕ). occ i p.free_list in
      let in_ready = λ (i : ℕ). occ i p.ready_list in
      omega (
        arith,
        total-occ n p.free_list (λ i h. omega (arith, v.no_other i h)),
        total-occ n p.ready_list (λ i h. omega (arith, v.no_other i h)),
        total-add n in_free in_ready,
        total-add n (λ i. in_free i + in_ready i) (held p),
        total-congr n (λ i. in_free i + in_ready i + held p i) (λ i. 1) v.one_place,
        total-one n,
      )

  -- Releasing an element a second time, with nothing in between, changes nothing and says so.
  pub release_twice :
      (p p' : Pool Sem) (i : ℕ)
      → release_at p (pos i) ≡ (esp_ok, p')
      → release_at p' (pos i) ≡ (esp_err_invalid_state, p')
  unfolding release_at list_push
  release_twice p p' i e = ground arith

  -- An index outside the array is refused and changes nothing.
  pub release_outside :
      (p : Pool Sem) (i : ℕ) → p.elem_num ≤ i → release_at p (pos i) ≡ (esp_err_invalid_arg, p)
  unfolding release_at
  release_outside p i h = ground arith

  head_free :
      (p : Pool Sem) (w : Which) (i : ℕ) (rest : List ℕ)
      → IsValid p
      → i < p.elem_num
      → list_of p w ≡ i ∷ rest
      → held p i ≡ 0
  head_free p free i rest v h e = ground (arith, v.one_place i, ap (occ i) e)
  head_free p ready i rest v h e = ground (arith, v.one_place i, ap (occ i) e)

  marked :
      (p : Pool Sem) (w : Which) (i : ℕ) (l : List ℕ) → held (mark (with_list p w l) i true) i ≡ 1
  marked p free i l = ground arith
  marked p ready i l = ground arith

  pop_from-some :
      (p : Pool Sem) (w : Which) (l : List ℕ) (i : ℕ)
      → IsValid p
      → list_of p w ≡ l
      → (pop_from p w l).0 ≡ some i
      → (i < p.elem_num) × (held p i ≡ 0) × (held (pop_from p w l).1 i ≡ 1)
  unfolding pop_from
  pop_from-some p w [] i v e q = absurd (cc)
  pop_from-some p w (j ∷ rest) i v e q =
      let same : j ≡ i = cc in
      let h = in_pool p w j rest v e in
      rw (← same) (h, head_free p w j rest v h e, marked p w j rest)

  -- Taking the head of a list answers an element of the pool that nobody held, and marks it held.
  pub list_pop-some :
      (p : Pool Sem) (w : Which) (i : ℕ)
      → IsValid p
      → (list_pop p w).0 ≡ some i
      → (i < p.elem_num) × (held p i ≡ 0) × (held (list_pop p w).1 i ≡ 1)
  unfolding list_pop
  list_pop-some p w i v e = pop_from-some p w (list_of p w) i v refl e

-- ===== src/FramePool/Steps/Refine.antt =====
-- main/core/frame_pool.cpp: the frame pool as its callers see it: every element is in one place, and a call moves at most one.
-- The order of the lists and the semaphore are forgotten.
use esp32_ipc.Base.{
  ℕ, ◌<◌, ◌≡◌, ◌≢◌, ◌⊎◌, refl, arith, leb, ltb, Bool-cases, inl, inr, List, [], ◌∷◌, length, ap,
  if◌then◌else◌,
}
use esp32_ipc.Base.Int.{ℤ, pos, negsuc}
use esp32_ipc.Esp.{esp_ok, Semaphore}
use esp32_ipc.FramePool.{Pool, free, ready, list_push, pop_from, list_pop, release_at}
use esp32_ipc.FramePool.Places.{occ}
use esp32_ipc.FramePool.Inv.{IsValid, in_pool}
use esp32_ipc.FramePool.Steps.{Machine, Step, acquires, pushes, gives, takes, pops, releases, Reach}
use esp32_ipc.FramePool.Steps.Safe.{Inv, Reach-Inv}

pub data Place : Type 0 where
  in_free in_ready lent outside : Place

-- The calls that move an element, and the two halves of calls that do not.
pub data Label : Type 0 where
  acquire submit receive release quiet : Label

-- One element goes from `x` to `y`, and no other moves.
pub record Moves (x y : Place) (a b : ℕ → Place) : Type 0 where
  pub index : ℕ
  pub from : a index ≡ x
  pub to : b index ≡ y
  pub others : (j : ℕ) → j ≢ index → b j ≡ a j

abbrev pub Stays : (ℕ → Place) → (ℕ → Place) → Type 0
Stays a b = (j : ℕ) → b j ≡ a j

-- What each call may do to the places: an acquire lends a free element unless there is none, a submit
-- makes a lent one ready, a receive lends a ready one, and a release frees a lent one or is refused.
abbrev pub Allowed : Label → (ℕ → Place) → (ℕ → Place) → Type 0
Allowed acquire a b = Moves in_free lent a b ⊎ (((j : ℕ) → a j ≢ in_free) × Stays a b)
Allowed submit a b = Moves lent in_ready a b
Allowed receive a b = Moves in_ready lent a b
Allowed release a b = Moves lent in_free a b ⊎ Stays a b
Allowed quiet a b = Stays a b

module _ {Sem : Type 0} where
  -- The place of an element.
  abbrev pub view : Pool Sem → ℕ → Place
  view p i =
      if leb p.elem_num i
      then outside
      else if (p.element i).checked_out
      then lent
      else if ltb 0 (occ i p.ready_list)
      then in_ready
      else in_free

  none_free : (p : Pool Sem) → IsValid p → p.free_list ≡ [] → (j : ℕ) → view p j ≢ in_free
  none_free p v e j = ground (arith, v.one_place j, ap (occ j) e)

  acquire-Allowed :
      (p : Pool Sem) (l : List ℕ)
      → IsValid p
      → p.free_list ≡ l
      → Allowed acquire (view p) (view (pop_from p free l).1)
  unfolding pop_from
  acquire-Allowed p [] v e = inr (none_free p v e, λ j. refl)
  acquire-Allowed p (i ∷ rest) v e =
      let small = in_pool p free i rest v e in
      inl (record {
        index = i;
        from = ground (arith, v.one_place i, ap (occ i) e);
        to = ground arith;
        others = λ j ne. ground arith;
      })

  receive-Allowed :
      (p : Pool Sem) (l : List ℕ)
      → IsValid p
      → p.ready_list ≡ l
      → 0 < length l
      → Allowed receive (view p) (view (pop_from p ready l).1)
  unfolding pop_from
  receive-Allowed p [] v e h = absurd (omega arith)
  receive-Allowed p (i ∷ rest) v e h =
      let small = in_pool p ready i rest v e in
      record {
        index = i;
        from = ground (arith, v.one_place i, ap (occ i) e);
        to = ground arith;
        others = λ j ne. ground (arith, ap (occ j) e);
      }

  submit-Allowed :
      (p : Pool Sem) (i : ℕ)
      → i < p.elem_num
      → (list_push p ready i).0 ≡ esp_ok
      → Allowed submit (view p) (view (list_push p ready i).1)
  unfolding list_push
  submit-Allowed p i h ok = elim (Bool-cases (p.element i).checked_out) [
    | inl out ↦ rw out (record {
      index = i;
      from = ground arith;
      to = ground arith;
      others = λ j ne. ground arith;
    })
    | inr back ↦ absurd (ground arith)
  ]

  push_free-Allowed :
      (p : Pool Sem) (i : ℕ)
      → IsValid p
      → i < p.elem_num
      → Allowed release (view p) (view (list_push p free i).1)
  unfolding list_push
  push_free-Allowed p i v h = elim (Bool-cases (p.element i).checked_out) [
    | inl out ↦ rw out (
        inl (record {
          index = i;
          from = ground arith;
          to = ground (arith, v.one_place i);
          others = λ j ne. ground arith;
        }))
    | inr back ↦ rw back (inr (λ j. refl))
  ]

  release-Allowed :
      (p : Pool Sem) (index : ℤ)
      → IsValid p
      → Allowed release (view p) (view (release_at p index).1)
  unfolding release_at
  release-Allowed p (negsuc n) v = inr (λ j. refl)
  release-Allowed p (pos i) v = elim (Bool-cases (leb p.elem_num i)) [
    | inl over ↦ rw over (inr (λ j. refl))
    | inr fits ↦ rw fits (push_free-Allowed p i v (ground arith))
  ]

module _ (S : Semaphore) where
  -- The call that a step belongs to: a submit moves an element when it pushes, a receive when it pops.
  abbrev pub label : {k n : Machine S} → Step S k n → Label
  label acquires = acquire
  label (pushes i h e) = submit
  label (gives j e) = quiet
  label (takes ticks s e) = quiet
  label (pops j e) = receive
  label (releases index) = release

  -- From a pool whose three places are apart and whose semaphore agrees with its ready list, under any
  -- interleaving, each step of a caller does what its call may do to the places of the elements: an
  -- acquire lends a free element unless there is none, the push of a submit makes a lent one ready, the
  -- pop of a receive lends a ready one, a release frees a lent one or changes nothing, and no other
  -- element moves.
  pub Step-Allowed :
      {m k n : Machine S}
      → Inv S m
      → Reach S m k
      → (s : Step S k n) → Allowed (label s) (view k.pool) (view n.pool)
  unfolding list_pop
  Step-Allowed {m} {k} v r acquires =
      acquire-Allowed k.pool k.pool.free_list (Reach-Inv S r v).valid refl
  Step-Allowed {m} {k} v r (pushes i h e) = submit-Allowed k.pool i h e
  Step-Allowed {m} {k} v r (gives n e) = λ j. refl
  Step-Allowed {m} {k} v r (takes ticks s e) = λ j. refl
  Step-Allowed {m} {k} v r (pops n e) =
      let w = Reach-Inv S r v in
      receive-Allowed k.pool k.pool.ready_list w.valid refl (omega (arith, w.balance))
  Step-Allowed {m} {k} v r (releases index) = release-Allowed k.pool index (Reach-Inv S r v).valid

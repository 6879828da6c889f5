-- ===== src/Osd/Dirty/Touch.antt =====
-- Two calls of `dirty_add` on an empty list, with rows that touch.
use esp32_ipc.Base.{ℕ, ◌+◌, ◌-◌, ◌≤◌, ◌≡◌, refl, arith, sym, subst}
use esp32_ipc.Osd.Dirty.{
  Rows, Dirty, Absorbed, rows, skip, absorb, shift_down, shift_up, place, add,
}

add_empty :
    (d : Dirty) (f l : ℕ) → d.count ≡ 0 → ((add d f l).count ≡ 1) × ((add d f l).range 0 ≡ rows f l)
unfolding add place skip absorb shift_down shift_up
add_empty d f l e = rw (e, add, place, skip, absorb) (refl, refl)

abbrev one : ℕ → ℕ → Absorbed
one first last = record { j = 1; first = first; last = last }

skip_touching : (r : ℕ → Rows) (f l g : ℕ) → r 0 ≡ rows f l → g ≤ l + 1 → skip r g 1 0 ≡ 0
unfolding skip
skip_touching r f l g e h = ground arith

absorb_touching :
    (r : ℕ → Rows) (f l g k : ℕ)
    → r 0 ≡ rows f l
    → f ≤ g
    → g ≤ k
    → l ≤ k
    → absorb r 1 0 g k ≡ one f k
unfolding absorb
absorb_touching r f l g k e h p q = ground arith

place-one :
    (d : Dirty) (f k : ℕ)
    → d.count ≡ 1
    → ((place d 0 (one f k)).count ≡ 1) × ((place d 0 (one f k)).range 0 ≡ rows f k)
unfolding place
place-one d f k e = ground arith

add_touching :
    (d : Dirty) (f l g k : ℕ)
    → d.count ≡ 1
    → d.range 0 ≡ rows f l
    → f ≤ g
    → g ≤ l + 1
    → g ≤ k
    → l ≤ k
    → ((add d g k).count ≡ 1) × ((add d g k).range 0 ≡ rows f k)
unfolding add
add_touching d f l g k e r p q h h' =
    subst
      (λ c.
        let i = skip d.range g c 0 in
        let d' = place d i (absorb d.range (c - i) i g k) in
        (d'.count ≡ 1) × (d'.range 0 ≡ rows f k))
      (sym e)
      (rw (skip_touching d.range f l g r q, absorb_touching d.range f l g k r p h h')
        (place-one d f k e))

pub add_twice_touching :
    (d : Dirty) (f l g k : ℕ)
    → d.count ≡ 0
    → f ≤ g
    → g ≤ l + 1
    → g ≤ k
    → l ≤ k
    → ((add (add d f l) g k).count ≡ 1) × ((add (add d f l) g k).range 0 ≡ rows f k)
add_twice_touching d f l g k e p q h h' =
    let (count, range) = add_empty d f l e in add_touching (add d f l) f l g k count range p q h h'

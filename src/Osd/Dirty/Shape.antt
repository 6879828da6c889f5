-- ===== src/Osd/Dirty/Shape.antt =====
-- The array after `dirty_add`, index by index.
use esp32_ipc.Base.{ℕ, ◌+◌, ◌-◌, ◌≤◌, ◌<◌, ◌≡◌, ◌⊎◌, inl, inr, arith, Bool-cases, ltb}
use esp32_ipc.Osd.Dirty.{Rows, Dirty, Absorbed, rows, skip, absorb, place, add, max_dirty_ranges}
use esp32_ipc.Osd.Dirty.Shift.{
  shift_down-outside, shift_down-inside, shift_up-outside, shift_up-inside,
}
use esp32_ipc.Osd.Dirty.Search.{IsSorted, Absorbs, skip_range, skip_at, absorb-Absorbs}

-- The ranges before `i`, the merged range, and the ranges from `a.j` on.
pub record IsPlaced (r : ℕ → Rows) (n i : ℕ) (a : Absorbed) (d : Dirty) : Type 0 where
  pub count : d.count ≡ i + 1 + (n - a.j)
  pub left : (x : ℕ) → x < i → d.range x ≡ r x
  pub middle : d.range i ≡ rows a.first a.last
  pub right : (x : ℕ) → i < x → x < d.count → d.range x ≡ r (x - (i + 1) + a.j)

place-IsPlaced :
    (d : Dirty) (i : ℕ) (a : Absorbed)
    → (d.count < max_dirty_ranges) ⊎ (i < a.j)
    → i ≤ a.j
    → a.j ≤ d.count
    → IsPlaced d.range d.count i a (place d i a)
unfolding place
place-IsPlaced d i a room h k = elim (Bool-cases (ltb i a.j)) [
  | inl hit ↦ rw hit (record {
    count = ground arith;
    left = λ x p. ground (arith, shift_down-outside d.range (d.count - a.j) (i + 1) a.j x);
    middle = ground arith;
    right = λ x p q. ground (arith, shift_down-inside d.range (d.count - a.j) (i + 1) a.j x);
  })
  | inr miss ↦ rw miss (record {
    count = ground arith;
    left = λ x p. ground (arith, shift_up-outside d.range (d.count - i) d.count x);
    middle = ground arith;
    right = λ x p q. ground (arith, shift_up-inside d.range (d.count - i) d.count x);
  })
]

-- Where `dirty_add` puts the range, and the range that it puts there.
abbrev pub slot : Dirty → ℕ → ℕ
slot d first = skip d.range first d.count 0

abbrev pub merged : Dirty → ℕ → ℕ → Absorbed
merged d first last = absorb d.range (d.count - slot d first) (slot d first) first last

pub merged-Absorbs :
    (d : Dirty) (f l : ℕ)
    → IsSorted d.range d.count
    → f ≤ l
    → Absorbs d.range d.count (slot d f) f l (merged d f l)
merged-Absorbs d f l s h =
    absorb-Absorbs d.range d.count s (d.count - slot d f) (slot d f) f l
      (omega (arith, skip_range d.range f d.count 0)) h
      (λ p. skip_at d.range f d.count 0 (omega arith))

pub add-IsPlaced :
    (d : Dirty) (f l : ℕ)
    → IsSorted d.range d.count
    → (d.count < max_dirty_ranges) ⊎ (slot d f < (merged d f l).j)
    → f ≤ l
    → IsPlaced d.range d.count (slot d f) (merged d f l) (add d f l)
unfolding add
add-IsPlaced d f l s room h =
    let a : Absorbs d.range d.count (slot d f) f l (merged d f l) = merged-Absorbs d f l s h in
    place-IsPlaced d (slot d f) (merged d f l) room a.from a.to

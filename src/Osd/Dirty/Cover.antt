-- ===== src/Osd/Dirty/Cover.antt =====
-- Which rows a dirty list covers after `dirty_add`, and the invariant of the list.
use esp32_ipc.Base.{
  refl, ℕ, suc, ◌+◌, ◌-◌, ◌≤◌, ◌<◌, ◌≡◌, ◌⊎◌, ◌↔◌, inl, inr, arith, le→ltb, le→leb, dec_lt,
  ℕ_discrete,
}
use esp32_ipc.Osd.Dirty.{Rows, Dirty, Absorbed, place, widen, add, reset, max_dirty_ranges}
use esp32_ipc.Osd.Dirty.Search.{Within, IsSorted, IsSorted-apart, Absorbs, skip_before}
use esp32_ipc.Osd.Dirty.Shape.{IsPlaced, add-IsPlaced, slot, merged, merged-Absorbs}

abbrev pub InRows : Rows → ℕ → Type 0
InRows w y = Within w.first w.last y

abbrev pub Covered : Dirty → ℕ → Type 0
Covered d y = (k : ℕ) × (k < d.count) × InRows (d.range k) y

pub record IsValid (d : Dirty) : Type 0 where
  pub small : d.count ≤ max_dirty_ranges
  pub sorted : IsSorted d.range d.count

pub reset-IsValid : (d : Dirty) → IsValid (reset d)
unfolding reset
reset-IsValid d = record {
  small = omega arith;
  sorted = record { ordered = λ k h. absurd (omega arith); apart = λ k h. absurd (omega arith) };
}

pub count-reset : (d : Dirty) → (reset d).count ≡ 0
unfolding reset
count-reset d = refl

module _ (r : ℕ → Rows) (n i f l : ℕ) (a : Absorbed) (e : Dirty) (s : IsSorted r n) (h : f ≤ l)
    (before : (x : ℕ) → x < i → (r x).last + 1 < f) (ab : Absorbs r n i f l a)
    (p : IsPlaced r n i a e) where
  apart_before : (k : ℕ) → k < i → (r k).last + 1 < a.first
  apart_before k b = elim (ab.only a.first (omega (arith, ab.low, ab.high))) [
    | inl old ↦ omega (arith, before k b)
    | inr (x, from, to, w) ↦
        omega (arith, IsSorted-apart r n k x s (omega arith) (omega (arith, ab.to)))
  ]

  placed-ordered : (k : ℕ) → k < e.count → (e.range k).first ≤ (e.range k).last
  placed-ordered k b = elim (dec_lt k i) [
    | yes c ↦ ground (arith, p.left k, s.ordered k, ab.to, ab.from)
    | no c ↦ elim (ℕ_discrete k i) [
      | yes q ↦ ground (arith, p.middle, ab.low, ab.high)
      | no q ↦ ground (arith, p.right k, p.count, s.ordered (k - (i + 1) + a.j), ab.to)
    ]
  ]

  placed-apart : (k : ℕ) → suc k < e.count → (e.range k).last + 1 < (e.range (suc k)).first
  placed-apart k b = elim (dec_lt k i) [
    | yes c ↦ elim (ℕ_discrete (suc k) i) [
      | yes q ↦ ground (arith, p.left k, p.middle, apart_before k)
      | no q ↦ ground (arith, p.left k, p.left (suc k), s.apart k, ab.to, ab.from)
    ]
    | no c ↦ elim (ℕ_discrete k i) [
      | yes q ↦ ground (arith, p.middle, p.right (suc k), p.count, ab.stops)
      | no q ↦
          ground (arith, p.right k, p.right (suc k), p.count, ab.to, s.apart (k - (i + 1) + a.j))
    ]
  ]

  placed-IsSorted : IsSorted e.range e.count
  placed-IsSorted = record { ordered = placed-ordered; apart = placed-apart }

  InRows-left : (x y : ℕ) → x < i → InRows (r x) y → Covered e y
  InRows-left x y b w = (x, omega (arith, p.count), rw (p.left x b) w)

  InRows-merged : (y : ℕ) → Within a.first a.last y → Covered e y
  InRows-merged y w = (i, omega (arith, p.count), rw p.middle w)

  InRows-right : (x y : ℕ) → a.j ≤ x → x < n → InRows (r x) y → Covered e y
  InRows-right x y b c w = (
    i + 1 + (x - a.j),
    omega (arith, p.count),
    ground (arith, p.right (i + 1 + (x - a.j)), p.count),
  )

  placed_covers : (y : ℕ) → (((k : ℕ) × (k < n) × InRows (r k) y) ⊎ Within f l y) → Covered e y
  placed_covers y (inr w) = InRows-merged y (omega (arith, ab.low, ab.high))
  placed_covers y (inl (k, b, w)) = elim (dec_lt k i) [
    | yes c ↦ InRows-left k y c w
    | no c ↦ elim (dec_lt k a.j) [
      | yes q ↦ InRows-merged y (ground (arith, ab.holds k))
      | no q ↦ InRows-right k y (omega arith) b w
    ]
  ]

  placed_only : (y : ℕ) → Covered e y → ((k : ℕ) × (k < n) × InRows (r k) y) ⊎ Within f l y
  placed_only y (k, b, w) = elim (dec_lt k i) [
    | yes c ↦ inl (k, omega (arith, ab.from, ab.to), rw (p.left k c) at w)
    | no c ↦ elim (ℕ_discrete k i) [
      | yes q ↦
          let m : Within a.first a.last y = ground (arith, p.middle) in
          elim (ab.only y m) [
            | inl v ↦ inr v
            | inr (x, from, to, v) ↦ inl (x, omega (arith, ab.to), v)
          ]
      | no q ↦
          inl
            (k - (i + 1) + a.j, omega (arith, p.count, ab.to), rw (p.right k (omega arith) b) at w)
    ]
  ]

before-slot : (d : Dirty) (f x : ℕ) → x < slot d f → (d.range x).last + 1 < f
before-slot d f x h = skip_before d.range f d.count 0 x (omega arith) h

-- Below the limit, `dirty_add` keeps the list sorted with no two ranges that overlap or abut, keeps
-- it within the array, and makes it at most one range longer.
pub add-IsValid :
    (d : Dirty) (f l : ℕ)
    → IsValid d
    → d.count < max_dirty_ranges
    → f ≤ l
    → IsValid (add d f l) × ((add d f l).count ≤ d.count + 1)
add-IsValid d f l v room h =
    let ab = merged-Absorbs d f l v.sorted h in
    let p = add-IsPlaced d f l v.sorted (inl room) h in
    let grown : (add d f l).count ≤ d.count + 1 = omega (arith, p.count, ab.from, ab.to) in
    (
      record {
        small = omega arith;
        sorted =
            placed-IsSorted d.range d.count (slot d f) f l (merged d f l) (add d f l) v.sorted h
              (before-slot d f) ab p;
      },
      grown,
    )

-- Below the limit, the rows covered after `dirty_add` are those covered before and the new ones,
-- and no others.
pub Covered-add :
    (d : Dirty) (f l y : ℕ)
    → IsValid d
    → d.count < max_dirty_ranges
    → f ≤ l
    → Covered (add d f l) y ↔ (Covered d y ⊎ Within f l y)
Covered-add d f l y v room h =
    let ab = merged-Absorbs d f l v.sorted h in
    let p = add-IsPlaced d f l v.sorted (inl room) h in
    (
      placed_only d.range d.count (slot d f) f l (merged d f l) (add d f l) v.sorted h
          (before-slot d f) ab p y,
      placed_covers d.range d.count (slot d f) f l (merged d f l) (add d f l) v.sorted h
          (before-slot d f) ab p y,
    )

widen_covers :
    (d : Dirty) (f l y : ℕ) → 0 < d.count → Covered d y ⊎ Within f l y → Covered (widen d f l) y
unfolding widen
widen_covers d f l y h (inl (k, b, w)) = (k, b, ground arith)
widen_covers d f l y h (inr w) = (d.count - 1, omega arith, ground arith)

add_full :
    (d : Dirty) (f l : ℕ)
    → max_dirty_ranges ≤ d.count
    → (merged d f l).j ≤ slot d f
    → add d f l ≡ widen d (merged d f l).first (merged d f l).last
unfolding add place
add_full d f l h k = rw (le→ltb _ _ k, le→leb _ _ h)

placed_or_widened :
    (d : Dirty) (f l : ℕ)
    → ((d.count < max_dirty_ranges) ⊎ (slot d f < (merged d f l).j))
      ⊎ ((max_dirty_ranges ≤ d.count) × ((merged d f l).j ≤ slot d f))
placed_or_widened d f l = elim (dec_lt d.count max_dirty_ranges) [
  | yes p ↦ inl (inl p)
  | no p ↦ elim (dec_lt (slot d f) (merged d f l).j) [
    | yes q ↦ inl (inr q)
    | no q ↦ inr (omega arith, omega arith)
  ]
]

-- Also when the list is full no row is dropped: what was covered and what is added is covered.
pub add_covers :
    (d : Dirty) (f l y : ℕ) → IsValid d → f ≤ l → Covered d y ⊎ Within f l y → Covered (add d f l) y
add_covers d f l y v h c =
    let ab = merged-Absorbs d f l v.sorted h in
    elim (placed_or_widened d f l) [
      | inl room ↦
          placed_covers d.range d.count (slot d f) f l (merged d f l) (add d f l) v.sorted h
            (before-slot d f) ab (add-IsPlaced d f l v.sorted room h) y c
      | inr (full, q) ↦ rw (add_full d f l full q) (
          widen_covers d (merged d f l).first (merged d f l).last y (omega arith)
            (elim c [ inl old ↦ inl old | inr w ↦ inr (omega (arith, ab.low, ab.high)) ]))
    ]

-- ===== src/Osd/Dirty/Search.antt =====
-- The two searches of `dirty_add` over a sorted list of ranges.
use esp32_ipc.Base.{
  ℕ, zero, suc, ◌+◌, ◌≤◌, ◌<◌, ◌≡◌, ◌⊎◌, inl, inr, arith, ℕ_discrete, Bool-cases, leb, ltb,
  if◌then◌else◌,
}
use esp32_ipc.Osd.Dirty.{Rows, Absorbed, skip, absorb}

-- Row `y` lies in a range.
abbrev pub Within : ℕ → ℕ → ℕ → Type 0
Within first last y = (first ≤ y) × (y ≤ last)

-- The first `n` ranges are no empty ones, in order, and neither overlap nor abut.
pub record IsSorted (r : ℕ → Rows) (n : ℕ) : Type 0 where
  pub ordered : (k : ℕ) → k < n → (r k).first ≤ (r k).last
  pub apart : (k : ℕ) → suc k < n → (r k).last + 1 < (r (suc k)).first

pub IsSorted-apart :
    (r : ℕ → Rows) (n k m : ℕ) → IsSorted r n → k < m → m < n → (r k).last + 1 < (r m).first
IsSorted-apart r n k zero s h p = absurd (omega arith)
IsSorted-apart r n k (suc m) s h p = elim (ℕ_discrete k m) [
  | yes e ↦ ground (arith, s.apart m)
  | no ne ↦ ground (arith, IsSorted-apart r n k m s, s.apart m, s.ordered m)
]

module _ (r : ℕ → Rows) (first : ℕ) where
  pub skip_range : (left i : ℕ) → (i ≤ skip r first left i) × (skip r first left i ≤ i + left)
  unfolding skip
  skip_range zero i = omega arith
  skip_range (suc left) i = ground (arith, skip_range left (suc i))

  pub skip_before : (left i x : ℕ) → i ≤ x → x < skip r first left i → (r x).last + 1 < first
  unfolding skip
  skip_before zero i x h p = absurd (omega arith)
  skip_before (suc left) i x h p = elim (ℕ_discrete i x) [
    | yes e ↦ ground arith
    | no ne ↦ ground (arith, skip_before left (suc i) x)
  ]

  pub skip_at :
      (left i : ℕ) → skip r first left i < i + left → first ≤ (r (skip r first left i)).last + 1
  unfolding skip
  skip_at zero i h = absurd (omega arith)
  skip_at (suc left) i h = ground (arith, skip_at left (suc i))

-- What the second loop has done when it stops at `a`, started at `j` with rows `first..last`.
pub record Absorbs (r : ℕ → Rows) (n j first last : ℕ) (a : Absorbed) : Type 0 where
  pub from : j ≤ a.j
  pub to : a.j ≤ n
  pub low : a.first ≤ first
  pub high : last ≤ a.last
  pub holds : (x : ℕ) → j ≤ x → x < a.j → (a.first ≤ (r x).first) × ((r x).last ≤ a.last)
  pub stops : a.j < n → a.last + 1 < (r a.j).first
  pub only :
      (y : ℕ)
      → Within a.first a.last y
      → Within first last y ⊎ ((x : ℕ) × (j ≤ x) × (x < a.j) × Within (r x).first (r x).last y)

abbrev lower : ℕ → ℕ → ℕ
lower a b = if ltb a b then a else b

abbrev higher : ℕ → ℕ → ℕ
higher a b = if ltb b a then a else b

-- Rows of the merged range are rows of one of the two that touch.
Within-merged :
    (f l f' l' y : ℕ)
    → f ≤ l
    → f' ≤ l'
    → f' ≤ l + 1
    → f ≤ l' + 1
    → Within (lower f' f) (higher l' l) y
    → Within f l y ⊎ Within f' l' y
Within-merged f l f' l' y h h' p q w = ground arith

module _ (r : ℕ → Rows) (n : ℕ) (s : IsSorted r n) where
  Absorbs-next :
      (j f l : ℕ) (a : Absorbed)
      → j < n
      → f ≤ l
      → f ≤ (r j).last + 1
      → (r j).first ≤ l + 1
      → Absorbs r n (suc j) (lower (r j).first f) (higher (r j).last l) a
      → Absorbs r n j f l a
  Absorbs-next j f l a h p q t rest = record {
    from = omega (arith, rest.from);
    to = rest.to;
    low = ground (arith, rest.low);
    high = ground (arith, rest.high);
    holds = λ x b c. elim (ℕ_discrete j x) [
      | yes e ↦ ground (arith, rest.low, rest.high)
      | no ne ↦ rest.holds x (omega arith) c
    ];
    stops = rest.stops;
    only = λ y w. elim (rest.only y w) [
      | inl m ↦ elim (Within-merged f l (r j).first (r j).last y p (s.ordered j h) t q m) [
        | inl old ↦ inl old
        | inr new ↦ inr (j, omega arith, omega (arith, rest.from), new)
      ]
      | inr (x, b, c, d) ↦ inr (x, omega arith, c, d)
    ];
  }

  Absorbs-none :
      (j f l : ℕ)
      → j ≤ n
      → (j < n → l + 1 < (r j).first)
      → Absorbs r n j f l (record { j = j; first = f; last = l })
  Absorbs-none j f l h k = record {
    from = omega arith;
    to = h;
    low = omega arith;
    high = omega arith;
    holds = λ x b c. absurd (omega arith);
    stops = k;
    only = λ y w. inl w;
  }

  pub absorb-Absorbs :
      (left j f l : ℕ)
      → j + left ≡ n
      → f ≤ l
      → (j < n → f ≤ (r j).last + 1)
      → Absorbs r n j f l (absorb r left j f l)
  unfolding absorb
  absorb-Absorbs zero j f l e h t = Absorbs-none j f l (omega arith) (λ p. absurd (omega arith))
  absorb-Absorbs (suc left) j f l e h t = elim (Bool-cases (leb (r j).first (l + 1))) [
    | inl hit ↦ rw hit (
        Absorbs-next j f l _ (omega arith) h (t (omega arith)) (ground arith) (
          absorb-Absorbs left (suc j) (lower (r j).first f) (higher (r j).last l) (omega arith)
            (ground (arith, s.ordered j)) (λ p. ground (arith, s.apart j, s.ordered (suc j)))))
    | inr miss ↦ rw miss (Absorbs-none j f l (omega arith) (λ p. ground arith))
  ]

-- ===== src/FramePool/Places.antt =====
-- How often an element stands in a list.
use esp32_ipc.Base.{
  ℕ, zero, suc, ◌+◌, ◌≤◌, ◌<◌, ◌≡◌, refl, arith, ◌==◌, if◌then◌else◌, List, [], ◌∷◌, length, dec_lt,
}

abbrev pub occ : ℕ → List ℕ → ℕ
occ i [] = 0
occ i (x ∷ xs) = (if i == x then 1 else 0) + occ i xs

abbrev pub total : ℕ → (ℕ → ℕ) → ℕ
total zero f = 0
total (suc n) f = f n + total n f

pub total-add : (n : ℕ) (f g : ℕ → ℕ) → total n (λ i. f i + g i) ≡ total n f + total n g
total-add zero f g = omega arith
total-add (suc n) f g = omega (arith, total-add n f g)

pub total-congr : (n : ℕ) (f g : ℕ → ℕ) → ((i : ℕ) → i < n → f i ≡ g i) → total n f ≡ total n g
total-congr zero f g h = refl
total-congr (suc n) f g h =
    omega (arith, total-congr n f g (λ i k. h i (omega arith)), h n (omega arith))

total_none : (n x : ℕ) → n ≤ x → total n (λ i. if i == x then 1 else 0) ≡ 0
total_none zero x h = refl
total_none (suc n) x h = ground (arith, total_none n x)

total_one : (n x : ℕ) → x < n → total n (λ i. if i == x then 1 else 0) ≡ 1
total_one zero x h = absurd (omega arith)
total_one (suc n) x h = ground (arith, total_one n x, total_none n x)

total_zero : (n : ℕ) → total n (λ i. 0) ≡ 0
total_zero zero = refl
total_zero (suc n) = omega (arith, total_zero n)

pub total-one : (n : ℕ) → total n (λ i. 1) ≡ n
total-one zero = refl
total-one (suc n) = omega (arith, total-one n)

-- A list of places below `n` is as long as the places occur in it.
pub total-occ :
    (n : ℕ) (l : List ℕ) → ((i : ℕ) → n ≤ i → occ i l ≡ 0) → total n (λ i. occ i l) ≡ length l
total-occ n [] h = total_zero n
total-occ n (x ∷ l) h =
    let small : x < n = elim (dec_lt x n) [ yes p ↦ p | no p ↦ absurd (ground (arith, h x)) ] in
    omega (
      arith,
      total-add n (λ i. if i == x then 1 else 0) (λ i. occ i l),
      total_one n x small,
      total-occ n l (λ i k. ground (arith, h i)),
    )

-- ===== src/Osd/Dirty/Shift.antt =====
-- What the two loops that move ranges along the array leave at each index.
use esp32_ipc.Base.{ℕ, zero, suc, ◌+◌, ◌-◌, ◌≤◌, ◌<◌, ◌≡◌, ◌⊎◌, refl, arith, store, ℕ_discrete}
use esp32_ipc.Osd.Dirty.{Rows, shift_down, shift_up}

pub shift_down-outside :
    (r : ℕ → Rows) (n k src x : ℕ) → (x < k) ⊎ (k + n ≤ x) → shift_down r n k src x ≡ r x
unfolding shift_down
shift_down-outside r zero k src x h = refl
shift_down-outside r (suc n) k src x h =
    ground (arith, shift_down-outside (store r k (r src)) n (suc k) (suc src) x)

pub shift_down-inside :
    (r : ℕ → Rows) (n k src x : ℕ)
    → k ≤ src
    → k ≤ x
    → x < k + n
    → shift_down r n k src x ≡ r (x - k + src)
unfolding shift_down
shift_down-inside r zero k src x h p q = absurd (omega arith)
shift_down-inside r (suc n) k src x h p q = elim (ℕ_discrete x k) [
  | yes e ↦ ground (arith, shift_down-outside (store r k (r src)) n (suc k) (suc src) x)
  | no ne ↦ ground (arith, shift_down-inside (store r k (r src)) n (suc k) (suc src) x)
]

pub shift_up-outside :
    (r : ℕ → Rows) (n k x : ℕ) → n ≤ k → (x ≤ k - n) ⊎ (k < x) → shift_up r n k x ≡ r x
unfolding shift_up
shift_up-outside r zero k x h p = refl
shift_up-outside r (suc n) k x h p =
    ground (arith, shift_up-outside (store r k (r (k - 1))) n (k - 1) x)

pub shift_up-inside :
    (r : ℕ → Rows) (n k x : ℕ) → n ≤ k → k - n < x → x ≤ k → shift_up r n k x ≡ r (x - 1)
unfolding shift_up
shift_up-inside r zero k x h p q = absurd (omega arith)
shift_up-inside r (suc n) k x h p q = elim (ℕ_discrete x k) [
  | yes e ↦ ground (arith, shift_up-outside (store r k (r (k - 1))) n (k - 1) x)
  | no ne ↦ ground (arith, shift_up-inside (store r k (r (k - 1))) n (k - 1) x)
]

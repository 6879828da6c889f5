-- ===== src/Base/Arrays.antt =====
-- C memory and C arrays as functions from native indices, with one write.
use Prim.Native.Nat.{ℕ}
use mathlib.Core.Path.{◌≡◌}
use mathlib.Core.Logic.{◌≢◌}
use native.Mathlib.Omega.{arith}
use esp32_ipc.Base.Tests.{◌==◌, if◌then◌else◌}

module _ {ℓ} {A : Type ℓ} where
  abbrev pub store : (ℕ → A) → ℕ → A → ℕ → A
  store m i v j = if j == i then v else m j

  pub store_self : (m : ℕ → A) (i : ℕ) (v : A) → store m i v i ≡ v
  store_self m i v = ground arith

  pub store_ne : (m : ℕ → A) (i j : ℕ) (v : A) → j ≢ i → store m i v j ≡ m j
  store_ne m i j v h = ground arith

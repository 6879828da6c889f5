-- ===== src/Hal/Device/Outcome.antt =====
-- `ESP_RETURN_ON_FALSE` over calls of a device.
use esp32_ipc.Base.{◌≡◌, refl, ap, Bool, true, false, Option, none, some, ◌⊎◌, inl, inr}
use esp32_ipc.Esp.{EspErr}
use esp32_ipc.Hal.Device.{Reply}

-- What an operation that may fail leaves: the device, and an error or a value.
pub data Outcome {ℓ ℓ'} (Dev : Type ℓ) (A : Type ℓ') : Type (ℓ ⊔ ℓ') where
  fails : EspErr → Dev → Outcome Dev A
  gives : A → Dev → Outcome Dev A

module _ {ℓ ℓ'} {Dev : Type ℓ} {A : Type ℓ'} where
  abbrev pub dev : Outcome Dev A → Dev
  dev (fails e d) = d
  dev (gives a d) = d

  -- The rest of the operation, if the call succeeded.
  abbrev pub needs : Option Reply × Dev → EspErr → (Reply → Dev → Outcome Dev A) → Outcome Dev A
  needs (none, d) e rest = fails e d
  needs (some x, d) e rest = rest x d

  -- The rest of the operation, if the test holds.
  abbrev pub needs_that : Bool → EspErr → Dev → Outcome Dev A → Outcome Dev A
  needs_that true e d rest = rest
  needs_that false e d rest = fails e d

  pub needs-gives :
      (c : Option Reply × Dev) (e : EspErr) (rest : Reply → Dev → Outcome Dev A) (a : A) (d' : Dev)
      → needs c e rest ≡ gives a d'
      → (x : Reply) × (d : Dev) × (c ≡ (some x, d)) × (rest x d ≡ gives a d')
  needs-gives (none, d) e rest a d' h = absurd (cc)
  needs-gives (some x, d) e rest a d' h = (x, d, refl, h)

  pub needs_that-gives :
      (b : Bool) (e : EspErr) (d : Dev) (rest : Outcome Dev A) (a : A) (d' : Dev)
      → needs_that b e d rest ≡ gives a d'
      → rest ≡ gives a d'
  needs_that-gives true e d rest a d' h = h
  needs_that-gives false e d rest a d' h = absurd (cc)

  pub needs-fails :
      (c : Option Reply × Dev) (e : EspErr) (rest : Reply → Dev → Outcome Dev A) (e' : EspErr)
      (d' : Dev)
      → needs c e rest ≡ fails e' d'
      → (c ≡ (none, d')) ⊎ ((x : Reply) × (d : Dev) × (c ≡ (some x, d)) × (rest x d ≡ fails e' d'))
  needs-fails (none, d) e rest e' d' h = inl (ap (λ k. (none, dev k)) h)
  needs-fails (some x, d) e rest e' d' h = inr (x, d, refl, h)

-- Whether an operation succeeded.
pub Outcome-cases {ℓ ℓ'} :
    {Dev : Type ℓ} {A : Type ℓ'} (o : Outcome Dev A)
    → ((e : EspErr) × (d : Dev) × (o ≡ fails e d)) ⊎ ((a : A) × (d : Dev) × (o ≡ gives a d))
Outcome-cases (fails e d) = inl (e, d, refl)
Outcome-cases (gives a d) = inr (a, d, refl)

-- Whether a call succeeded.
pub Answer-cases :
    {Dev : Type 0} (c : Option Reply × Dev)
    → ((d : Dev) × (c ≡ (none, d))) ⊎ ((x : Reply) × (d : Dev) × (c ≡ (some x, d)))
Answer-cases (none, d) = inl (d, refl)
Answer-cases (some x, d) = inr (x, d, refl)

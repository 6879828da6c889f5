-- ===== src/Esp.antt =====
-- What the firmware uses of ESP-IDF and FreeRTOS: error codes, and the counting semaphore as an
-- interface.
use esp32_ipc.Base.{
  List, ◌++◌, ◌≤◌, take, length, Bool, true, false, ℕ, suc, ◌+◌, ◌≡◌, min, Option, none, some,
}

-- `esp_err_t`: the codes that the firmware names, and any other that a driver returns.
pub data EspErr : Type 0 where
  esp_ok : EspErr
  esp_fail : EspErr
  esp_err_no_mem : EspErr
  esp_err_invalid_arg : EspErr
  esp_err_invalid_state : EspErr
  esp_err_timeout : EspErr
  esp_err_not_supported : EspErr
  esp_err_other : ℕ → EspErr

abbrev pub is_ok : EspErr → Bool
is_ok esp_ok = true
is_ok _ = false

-- FreeRTOS counting semaphores. `take` is given the ticks that it may wait and yields nothing on a
-- timeout; what `give` answers is not looked at by the firmware.
pub record Semaphore : Type 1 where
  pub Sem : Type 0
  pub give : Sem → Sem
  pub take : Sem → ℕ → Option Sem
  pub value : Sem → ℕ
  pub limit : Sem → ℕ
  pub value-give : (s : Sem) → value (give s) ≡ min (value s + 1) (limit s)
  pub limit-give : (s : Sem) → limit (give s) ≡ limit s
  pub value-take : (s s' : Sem) (t : ℕ) → take s t ≡ some s' → value s ≡ suc (value s')
  pub limit-take : (s s' : Sem) (t : ℕ) → take s t ≡ some s' → limit s' ≡ limit s
  pub take_none : (s : Sem) (t : ℕ) → take s t ≡ none → value s ≡ 0

-- FreeRTOS stream buffers, of bytes. `send` does not wait and answers how many bytes it took;
-- `receive` is given the most bytes that it may take, and answers none on a timeout.
pub record StreamBuffer : Type 1 where
  pub Buf : Type 0
  pub send : Buf → List ℕ → ℕ × Buf
  pub receive : Buf → ℕ → List ℕ × Buf
  pub contents : Buf → List ℕ
  pub room : Buf → ℕ
  pub send_lem :
      (b : Buf) (bytes : List ℕ)
      → ((send b bytes).0 ≡ min (length bytes) (room b))
        × (contents (send b bytes).1 ≡ contents b ++ take (send b bytes).0 bytes)
  pub receive_lem :
      (b : Buf) (most : ℕ)
      → (length (receive b most).0 ≤ most)
        × (contents b ≡ (receive b most).0 ++ contents (receive b most).1)

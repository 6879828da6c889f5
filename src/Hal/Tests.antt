-- ===== src/Hal/Tests.antt =====
-- A device by the indices of its buffers, and the theorems on main/hal at concrete inputs.
pub mod Bench
use esp32_ipc.Base.{some, ◌++◌, ℕ, ◌+◌, ◌<◌, ◌≡◌, ◌≢◌, refl, arith, min, List, [], ◌∷◌, false, none}
use esp32_ipc.Hal.Device.{capture, qbuf}
use esp32_ipc.Hal.H264.{Encoder, encode}
use esp32_ipc.Hal.H264.Counted.{Counted, encode-Counted}
use esp32_ipc.Hal.Wifi.{
  Netif, WifiEvent, sta_start, sta_disconnected, got_ip, run, wait_got_ip, on_got_ip,
}
use esp32_ipc.Hal.Wifi.Wait.{wait_got_ip-ends}
use esp32_ipc.Hal.Wifi.Retries.{connects-run}
use esp32_ipc.Hal.H264.Slots.{Fits}
use esp32_ipc.Config.{enc_out_buf_count}
use Bench.{Slots, bench, ioctl, queued, accepts}

abbrev enc : Encoder
enc = record { out_mmap = λ i. 64; out_length = 4096; no_force_idr = false }

abbrev ready : Slots
ready = record { caps = 0 ∷ []; outs = [] }

ready-Fits : Fits bench ready
ready-Fits = record { caps = λ i. ground arith; outs = λ i. omega arith }

takes_one :
    (i : ℕ) (d : Slots)
    → i < enc_out_buf_count
    → queued d capture i ≡ 0
    → (ioctl (qbuf capture i) d).0 ≢ none
takes_one i d small lent = accepts i d (omega arith) lent

encode-Counted_example : Counted bench 4096 3110400 ready (encode bench enc 4096 3110400 ready)
encode-Counted_example = encode-Counted bench takes_one enc 4096 3110400 ready ready-Fits

abbrev fresh : Netif
fresh = record { retry_num = 0; got_ip_bit = false; connects = 0 }

abbrev outage : List WifiEvent
outage = sta_start ∷ sta_disconnected ∷ got_ip ∷ sta_disconnected ∷ []

connects-run_example :
    ((run fresh outage).connects ≡ 0 + 1 + min 2 100)
    × ((run fresh outage).retry_num ≡ min (0 + 2) 100)
connects-run_example = connects-run fresh outage (omega arith)

-- The address comes after a start and a disconnect; the disconnect after it is still to come.
wait_got_ip-ends_example :
    (wait_got_ip fresh ((sta_start ∷ sta_disconnected ∷ []) ++ got_ip ∷ sta_disconnected ∷ [])
      ≡ some (on_got_ip (run fresh (sta_start ∷ sta_disconnected ∷ [])), sta_disconnected ∷ []))
    × (wait_got_ip fresh (sta_start ∷ sta_disconnected ∷ []) ≡ none)
wait_got_ip-ends_example =
    wait_got_ip-ends fresh (sta_start ∷ sta_disconnected ∷ []) (sta_disconnected ∷ []) refl refl

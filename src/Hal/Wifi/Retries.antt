-- ===== src/Hal/Wifi/Retries.antt =====
-- How often the station tries to connect.
use esp32_ipc.Base.{
  ℕ, suc, ◌+◌, ◌-◌, ◌≤◌, ◌≡◌, min, true, false, inl, inr, Bool-cases, arith, List, [], ◌∷◌, ltb,
}
use esp32_ipc.Hal.Wifi.{
  Netif, WifiEvent, sta_start, sta_disconnected, got_ip, other, on_event, run, wifi_max_retry,
}

abbrev pub starts : List WifiEvent → ℕ
starts [] = 0
starts (sta_start ∷ events) = suc (starts events)
starts (_ ∷ events) = starts events

abbrev pub disconnects : List WifiEvent → ℕ
disconnects [] = 0
disconnects (sta_disconnected ∷ events) = suc (disconnects events)
disconnects (_ ∷ events) = disconnects events

-- In any run from a counter that is at most `WIFI_MAX_RETRY`, the station asks to connect once a
-- start, and once a disconnect until the counter is used up. Having an address in between does not
-- bring any retry back: they are counted over the life of the device.
pub connects-run :
    (n : Netif) (events : List WifiEvent)
    → n.retry_num ≤ wifi_max_retry
    → ((run n events).connects
        ≡ n.connects + starts events + min (disconnects events) (wifi_max_retry - n.retry_num))
      × ((run n events).retry_num ≡ min (n.retry_num + disconnects events) wifi_max_retry)
unfolding run on_event
connects-run n [] h = (omega arith, omega arith)
connects-run n (sta_start ∷ events) h =
    let (c, r) = connects-run (record n { connects = suc n.connects }) events h in
    (omega (arith, c), r)
connects-run n (sta_disconnected ∷ events) h = elim (Bool-cases (ltb n.retry_num wifi_max_retry)) [
  | inl again ↦
      let (c, r) =
        connects-run (record n { retry_num = suc n.retry_num; connects = suc n.connects }) events
          (ground arith) in
      rw (again, run) (ground (arith, c), ground (arith, r))
  | inr used_up ↦
      let (c, r) = connects-run n events h in
      rw (used_up, run) (ground (arith, c), ground (arith, r))
]
connects-run n (got_ip ∷ events) h = connects-run (record n { got_ip_bit = true }) events h
connects-run n (other ∷ events) h = connects-run n events h

-- Once there have been `WIFI_MAX_RETRY` disconnects since the start, a disconnect is final, however
-- long the station was connected in between.
pub disconnect_final :
    (n : Netif) (events : List WifiEvent)
    → n.retry_num ≡ 0
    → wifi_max_retry ≤ disconnects events
    → on_event (run n events) sta_disconnected ≡ run n events
unfolding on_event
disconnect_final n events h many =
    let (c, r) = connects-run n events (omega arith) in
    let used_up : ltb (run n events).retry_num wifi_max_retry ≡ false = ground (arith, r) in
    rw used_up

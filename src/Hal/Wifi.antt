-- ===== src/Hal/Wifi.antt =====
-- main/hal/hal_netif.c, the build for Wi-Fi: the event handlers and the counter of retries. The calls
-- of `esp_wifi_connect` are counted.
pub mod Retries
pub mod Wait
use esp32_ipc.Base.{ℕ, suc, ltb, Bool, true, if◌then◌else◌, List, [], ◌∷◌, Option, some, none}

abbrev pub wifi_max_retry : ℕ
wifi_max_retry = 100

-- `s_retry_num`, the bit of the event group, and the calls of `esp_wifi_connect`.
pub record Netif : Type 0 where
  pub retry_num : ℕ
  pub got_ip_bit : Bool
  pub connects : ℕ

-- The events that the handlers are registered for.
pub data WifiEvent : Type 0 where
  sta_start sta_disconnected got_ip other : WifiEvent

-- `on_got_ip`
unfoldable pub on_got_ip : Netif → Netif
on_got_ip n = record n { got_ip_bit = true }

-- `on_wifi_event`, and `on_got_ip` for its event.
unfoldable pub on_event : Netif → WifiEvent → Netif
unfolding on_got_ip
on_event n sta_start = record n { connects = suc n.connects }
on_event n sta_disconnected =
    if ltb n.retry_num wifi_max_retry
    then record n { retry_num = suc n.retry_num; connects = suc n.connects }
    else n
on_event n got_ip = on_got_ip n
on_event n other = n

-- Events one after the other, the first first.
unfoldable pub run : Netif → List WifiEvent → Netif
run n [] = n
run n (e ∷ events) = run (on_event n e) events

-- `xEventGroupWaitBits` at the end of `hal_netif_start_and_wait_ip`, over the events that come while
-- it waits: where it returns and which events are left, or nothing when it still waits after the last.
unfoldable pub wait_got_ip : Netif → List WifiEvent → Option (Netif × List WifiEvent)
wait_got_ip n [] = if n.got_ip_bit then some (n, []) else none
wait_got_ip n (e ∷ events) =
    let later = wait_got_ip (on_event n e) events in
    if n.got_ip_bit then some (n, e ∷ events) else later

-- ===== src/Hal/Wifi/Wait.antt =====
-- When the wait for an address in `hal_netif_start_and_wait_ip` ends.
use esp32_ipc.Base.{◌≡◌, refl, Bool, true, false, ◌||◌, List, [], ◌∷◌, ◌++◌, some, none, arith, ◌∙◌}
use esp32_ipc.Hal.Wifi.{
  Netif, WifiEvent, sta_start, sta_disconnected, got_ip, other, on_got_ip, on_event, run,
  wait_got_ip,
}

abbrev pub is_address : WifiEvent → Bool
is_address got_ip = true
is_address _ = false

abbrev pub has_address : List WifiEvent → Bool
has_address [] = false
has_address (e ∷ events) = is_address e || has_address events

wait-later :
    (n : Netif) (e : WifiEvent) (events : List WifiEvent)
    → n.got_ip_bit ≡ false
    → wait_got_ip n (e ∷ events) ≡ wait_got_ip (on_event n e) events
unfolding wait_got_ip
wait-later n e events h = ground arith

wait-here :
    (n : Netif) (events : List WifiEvent)
    → n.got_ip_bit ≡ true
    → wait_got_ip n events ≡ some (n, events)
unfolding wait_got_ip
wait-here n [] h = rw h refl
wait-here n (e ∷ events) h = ground arith

wait_none : (n : Netif) → n.got_ip_bit ≡ false → wait_got_ip n [] ≡ none
unfolding wait_got_ip
wait_none n h = ground arith

on_event-keeps :
    (n : Netif) (e : WifiEvent) → is_address e ≡ false → (on_event n e).got_ip_bit ≡ n.got_ip_bit
unfolding on_event
on_event-keeps n sta_start h = refl
on_event-keeps n sta_disconnected h = ground arith
on_event-keeps n got_ip h = absurd (cc)
on_event-keeps n other h = refl

sets_bit : (n : Netif) → (on_event n got_ip).got_ip_bit ≡ true
unfolding on_event on_got_ip
sets_bit n = refl

-- With no address at the start, the wait for one ends with the first event that brings it, whatever
-- comes before it, with the bit set and the events after it still to come; without such an event it
-- does not end, also when the handler has given up connecting.
pub wait_got_ip-ends :
    (n : Netif) (before rest : List WifiEvent)
    → n.got_ip_bit ≡ false
    → has_address before ≡ false
    → (wait_got_ip n (before ++ got_ip ∷ rest) ≡ some (on_got_ip (run n before), rest))
      × (wait_got_ip n before ≡ none)
unfolding run on_event
wait_got_ip-ends n [] rest e h =
    (wait-later n got_ip rest e ∙ wait-here (on_event n got_ip) rest (sets_bit n), wait_none n e)
wait_got_ip-ends n (x ∷ before) rest e h =
    let other_event : is_address x ≡ false = ground arith in
    let none_later : has_address before ≡ false = ground arith in
    let (ends, waits) =
      wait_got_ip-ends (on_event n x) before rest (on_event-keeps n x other_event ∙ e) none_later in
    (wait-later n x (before ++ got_ip ∷ rest) e ∙ ends, wait-later n x before e ∙ waits)

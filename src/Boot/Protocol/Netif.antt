-- ===== src/Boot/Protocol/Netif.antt =====
-- The network comes up in order.
use esp32_ipc.Base.{ℕ, ◌≡◌, true, false, arith, Bool, inl, inr}
use esp32_ipc.Hal.Device.Outcome.{dev, gives, Outcome-cases}
use esp32_ipc.Boot.{Board, Drivers}
use esp32_ipc.Boot.Netif.{
  attach_and_start, eth_driver, netif_start_eth, netif_start_wifi, netif_start, before_start,
  start_and_wait_ip,
}
use esp32_ipc.Boot.Protocol.{IsSound, devices}

module _ (d : Drivers) where
  before_start-IsSound : (b : Board) → IsSound b → IsSound (dev (before_start d b))
  unfolding before_start devices
  before_start-IsSound b v = ground arith

  before_start-gives :
      (b b' : Board)
      → before_start d b ≡ gives tt b'
      → ((devices b'.log).loop_made ≡ true) × (b'.codec ≡ b.codec)
  unfolding before_start devices
  before_start-gives b b' h = ground arith

  netif_start_wifi-IsSound :
      (b : Board)
      → (devices b.log).loop_made ≡ true
      → IsSound b
      → IsSound (dev (netif_start_wifi d b))
  unfolding netif_start_wifi devices
  netif_start_wifi-IsSound b l v = ground arith

  eth_driver-IsSound : (b : Board) → IsSound b → IsSound (dev (eth_driver d b))
  unfolding eth_driver devices
  eth_driver-IsSound b v = ground arith

  eth_driver-gives :
      (b b' : Board) (eth : ℕ)
      → eth_driver d b ≡ gives eth b'
      → ((devices b'.log).eth_up ≡ true)
        × ((devices b'.log).loop_made ≡ (devices b.log).loop_made)
        × (b'.codec ≡ b.codec)
  unfolding eth_driver devices
  eth_driver-gives b b' eth h = ground arith

  attach_and_start-IsSound :
      (eth : ℕ) (b : Board)
      → (devices b.log).loop_made ≡ true
      → (devices b.log).eth_up ≡ true
      → IsSound b
      → IsSound (dev (attach_and_start d eth b))
  unfolding attach_and_start devices
  attach_and_start-IsSound eth b l u v = ground arith

  netif_start_eth-IsSound :
      (b : Board)
      → (devices b.log).loop_made ≡ true
      → IsSound b
      → IsSound (dev (netif_start_eth d b))
  unfolding netif_start_eth
  netif_start_eth-IsSound b l v = elim (Outcome-cases (eth_driver d b)) [
    | inl (e, c, h) ↦ ground (arith, h, eth_driver-IsSound b)
    | inr (eth, c, h) ↦
        ground
          (arith, h, eth_driver-IsSound b, eth_driver-gives b c eth, attach_and_start-IsSound eth c)
  ]

  netif_start-IsSound :
      (eth : Bool) (b : Board)
      → (devices b.log).loop_made ≡ true
      → IsSound b
      → IsSound (dev (netif_start d eth b))
  unfolding netif_start
  netif_start-IsSound true b l v = netif_start_eth-IsSound b l v
  netif_start-IsSound false b l v = netif_start_wifi-IsSound b l v

  netif_start-gives :
      (eth : Bool) (b b' : Board)
      → netif_start d eth b ≡ gives tt b'
      → ((devices b'.log).started ≡ true)
        × ((devices b'.log).ip_handler ≡ true)
        × (b'.codec ≡ b.codec)
  unfolding netif_start netif_start_eth netif_start_wifi attach_and_start devices
  netif_start-gives true b b' g = elim (Outcome-cases (eth_driver d b)) [
    | inl (e, c, h) ↦ ground (arith, h)
    | inr (eth, c, h) ↦ ground (arith, h, eth_driver-gives b c eth)
  ]
  netif_start-gives false b b' h = ground arith

  pub start_and_wait_ip-IsSound :
      (eth : Bool) (b : Board) → IsSound b → IsSound (dev (start_and_wait_ip d eth b))
  unfolding start_and_wait_ip devices
  start_and_wait_ip-IsSound eth b v = elim (Outcome-cases (before_start d b)) [
    | inl (e, c, h) ↦ ground (arith, h, before_start-IsSound b)
    | inr (_, c, h) ↦ elim (Outcome-cases (netif_start d eth c)) [
      | inl (e, c', n) ↦
          ground
            (arith, h, n, before_start-IsSound b, before_start-gives b c, netif_start-IsSound eth c)
      | inr (_, c', n) ↦ ground (
        arith,
        h,
        n,
        before_start-IsSound b,
        before_start-gives b c,
        netif_start-IsSound eth c,
        netif_start-gives eth c c',
      )
    ]
  ]

  -- There is an address, and the codec is as it was.
  pub start_and_wait_ip-gives :
      (eth : Bool) (b b' : Board)
      → start_and_wait_ip d eth b ≡ gives tt b'
      → ((devices b'.log).online ≡ true) × (b'.codec ≡ b.codec)
  unfolding start_and_wait_ip devices
  start_and_wait_ip-gives eth b b' g = elim (Outcome-cases (before_start d b)) [
    | inl (e, c, h) ↦ ground (arith, h)
    | inr (_, c, h) ↦ elim (Outcome-cases (netif_start d eth c)) [
      | inl (e, c', n) ↦ ground (arith, h, n)
      | inr (_, c', n) ↦ ground (arith, h, n, before_start-gives b c, netif_start-gives eth c c')
    ]
  ]

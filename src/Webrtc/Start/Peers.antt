-- ===== src/Webrtc/Start/Peers.antt =====
-- What the start of `task_webrtc` leaves of libpeer.
use esp32_ipc.Base.{ℕ, ◌≡◌, ◌==◌, not, ◌&&◌, Bool, true, false, List, [], ◌∷◌, arith}
use esp32_ipc.Esp.{is_ok}
use esp32_ipc.Hal.Device.Outcome.{Outcome, fails, gives, dev}
use esp32_ipc.Boot.{
  Call, Event, Board, Drivers, peer_init, peer_deinit, peer_connection_create, on_ice_state,
  on_data_channel, signaling_connect, peer_connection_destroy, create_task, peer, delete_self,
}
use esp32_ipc.Webrtc.Start.{start_webrtc}

-- Whether libpeer is initialised, the connection that is there, whether its task runs, and whether the
-- task that started it has ended.
pub record Peers : Type 0 where
  pub up : Bool
  pub live : ℕ
  pub task : Bool
  pub ended : Bool
  pub in_order : Bool

abbrev pub asks : Bool → Peers → Peers
asks needed s = record s { in_order = s.in_order && needed }

-- A connection is made, used and destroyed while libpeer is up, is only destroyed when no task runs
-- its loop, and libpeer is taken down when there is none.
abbrev pub after : Call → Bool → ℕ → Peers → Peers
after peer_init ok a s = record s { up = true }
after peer_connection_create ok a s = record (asks (s.up && s.live == 0) s) { live = a }
after (on_ice_state pc) ok a s = asks (not (pc == 0) && pc == s.live) s
after (on_data_channel pc) ok a s = asks (not (pc == 0) && pc == s.live) s
after (signaling_connect pc) ok a s = asks (not (pc == 0) && pc == s.live) s
after (create_task peer n p c) ok a s = record (asks (not (s.live == 0)) s) { task = ok }
after (peer_connection_destroy pc) ok a s =
    record (asks (not (pc == 0) && pc == s.live && not s.task) s) { live = 0 }
after peer_deinit ok a s = record (asks (s.up && s.live == 0) s) { up = false }
after delete_self ok a s = record s { ended = true }
after _ ok a s = s

abbrev pub none_up : Peers
none_up = record { up = false; live = 0; task = false; ended = false; in_order = true }

-- libpeer after the calls of a log.
unfoldable pub peers : List Event → Peers
peers [] = none_up
peers (e ∷ log) = after e.call (is_ok e.answer.err) e.answer.handle (peers log)

-- The task runs the loop of the connection in `s_pc`, or everything is taken down.
abbrev pub IsSettled : Outcome Board Bool → Type 0
IsSettled (fails e b) = true ≡ false
IsSettled (gives true b) =
    ((peers b.log).task ≡ true)
    × ((peers b.log).live ≡ b.pc)
    × ((b.pc == 0) ≡ false)
    × ((peers b.log).ended ≡ false)
IsSettled (gives false b) =
    ((peers b.log).up ≡ false)
    × ((peers b.log).live ≡ 0)
    × ((peers b.log).task ≡ false)
    × ((peers b.log).ended ≡ true)

module _ (d : Drivers) where
  -- Whatever libpeer and FreeRTOS answer, `task_webrtc` calls libpeer in order, and either comes to its
  -- loop with a connection in `s_pc` whose task runs, or ends with the connection destroyed and libpeer
  -- taken down.
  pub start_webrtc-IsSettled :
      (b : Board)
      → peers b.log ≡ none_up
      → ((peers (dev (start_webrtc d b)).log).in_order ≡ true) × IsSettled (start_webrtc d b)
  unfolding start_webrtc peers
  start_webrtc-IsSettled b h = ground arith

  -- When the task of the connection cannot be created, `s_pc` still holds the connection that is
  -- destroyed.
  pub pc_dangles :
      (b b' : Board)
      → start_webrtc d b ≡ gives false b'
      → (b'.pc == 0) ≡ false
      → peers b.log ≡ none_up
      → (peers b'.log).live ≡ 0
  unfolding start_webrtc peers
  pc_dangles b b' g z h = ground arith

-- ===== src/Webrtc.antt =====
-- main/task/task_webrtc.cpp: the gate between the media tasks and the peer connection, and the
-- requests for a key frame. libpeer's own state and its senders are parameters.
pub mod Gate
pub mod Keyframe
pub mod Start
pub mod Downlink
pub mod Callbacks
use esp32_ipc.Base.{ℕ, ◌%◌, ◌^◌, ◌-◌, ◌==◌, ◌&&◌, ◌||◌, not, ltb, Bool, true, false, if◌then◌else◌}
use esp32_ipc.Base.Int.{ℤ, pos, negsuc, ltb_ℤ}
use esp32_ipc.Config.{webrtc_peer_loop_ms, webrtc_peer_ice_loop_ms}

-- The statics of the file. `connected` tells whether `s_pc` is not null; a state is a number of
-- libpeer's enumeration.
pub record Webrtc : Type 0 where
  pub connected : Bool
  pub state : ℕ
  pub datachannel_open : Bool
  pub keyframe_requested : Bool

unfoldable pub on_dc_open : Webrtc → Webrtc
on_dc_open w = record w { datachannel_open = true }

unfoldable pub on_dc_close : Webrtc → Webrtc
on_dc_close w = record w { datachannel_open = false }

unfoldable pub on_request_keyframe : Webrtc → Webrtc
on_request_keyframe w = record w { keyframe_requested = true }

-- The two statements of `webrtc_take_keyframe_request`, between which the peer task may run.
unfoldable pub read_request : Webrtc → Bool
read_request w = w.keyframe_requested

unfoldable pub clear_request : Webrtc → Webrtc
clear_request w = record w { keyframe_requested = false }

-- `webrtc_take_keyframe_request`, with nothing in between.
unfoldable pub take_keyframe_request : Webrtc → Bool × Webrtc
unfolding read_request clear_request
take_keyframe_request w = (read_request w, clear_request w)

-- A `size_t` as an `int` of 32 bits.
abbrev pub to_int : ℕ → ℤ
to_int n = if ltb (n % 2 ^ 32) (2 ^ 31) then pos (n % 2 ^ 32) else negsuc (2 ^ 32 - 1 - n % 2 ^ 32)

-- The number of `PEER_CONNECTION_COMPLETED`.
module _ (completed : ℕ) where
  unfoldable pub on_ice_state_change : Webrtc → ℕ → Webrtc
  on_ice_state_change w state = record w {
    state = state;
    datachannel_open = if not (state == completed) then false else w.datachannel_open;
  }

  unfoldable pub is_streaming : Webrtc → Bool
  is_streaming w = w.connected && (w.state == completed)

  -- `webrtc_send` over a sender of libpeer, which is given the length and answers an `int`.
  unfoldable pub send {ℓ} : {Peer : Type ℓ} → (Peer → ℕ → ℤ × Peer) → Webrtc → Peer → ℕ → ℤ × Peer
  unfolding is_streaming
  send sender w peer len =
      if not (is_streaming w) || (len == 0)
      then (pos 0, peer)
      else (let (ret, peer') = sender peer len in
          (if ltb_ℤ ret (pos 0) then ret else to_int len, peer'))

  -- How long `peer_connection_task` sleeps, in milliseconds.
  unfoldable pub loop_delay_ms : Webrtc → ℕ
  unfolding is_streaming
  loop_delay_ms w = if is_streaming w then webrtc_peer_loop_ms else webrtc_peer_ice_loop_ms

-- ===== src/Webrtc/Gate.antt =====
-- When media reach the peer connection.
use esp32_ipc.Base.{ℕ, ◌^◌, ◌<◌, ◌≡◌, ◌⊎◌, arith, true, false}
use esp32_ipc.Base.Int.{ℤ, pos, ltb_ℤ}
use esp32_ipc.Webrtc.{Webrtc, is_streaming, send}

-- `webrtc_send` of less than 2^31 bytes does one of three things: with no peer, or nothing to send,
-- it answers 0 and does not call libpeer; it answers libpeer's error; or it answers the number of
-- bytes, which libpeer has taken.
pub send-cases :
    {Peer : Type 0} (completed : ℕ) (sender : Peer → ℕ → ℤ × Peer) (w : Webrtc) (peer : Peer)
    (len : ℕ)
    → len < 2 ^ 31
    → let (answer, peer') = send completed sender w peer len in
      (((is_streaming completed w ≡ false) ⊎ (len ≡ 0)) × (answer ≡ pos 0) × (peer' ≡ peer))
      ⊎ ((is_streaming completed w ≡ true)
          × (0 < len)
          × (peer' ≡ (sender peer len).1)
          × (answer ≡ (sender peer len).0)
          × (ltb_ℤ (sender peer len).0 (pos 0) ≡ true))
      ⊎ ((is_streaming completed w ≡ true)
          × (0 < len)
          × (peer' ≡ (sender peer len).1)
          × (answer ≡ pos len)
          × (ltb_ℤ (sender peer len).0 (pos 0) ≡ false))
unfolding send
send-cases completed sender w peer len small = ground arith

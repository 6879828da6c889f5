-- ===== src/Webrtc/Callbacks/Tests.antt =====
-- A round of the peer task in which the connection completes, a channel opens and closes, a key frame
-- is asked for and a payload arrives.
use esp32_ipc.Base.{◌≡◌, refl, Bool, true, false, ◌==◌, ◌&&◌, if◌then◌else◌, some, List, [], ◌∷◌}
use esp32_ipc.Config.{webrtc_peer_loop_ms, webrtc_peer_ice_loop_ms}
use esp32_ipc.Speaker.Tests.{listed}
use esp32_ipc.Webrtc.{
  on_ice_state_change, on_dc_open, on_dc_close, on_request_keyframe, loop_delay_ms, is_streaming,
}
use esp32_ipc.Webrtc.Callbacks.{
  PeerConfig, peer_config, PeerEvent, ice_state, dc_open, dc_close, request_keyframe, audio_track,
  Statics, peer_round, peer_loop, call_back,
}
use esp32_ipc.Webrtc.Callbacks.Latest.{
  or_else, latest, state_of, channel_of, asked_of, submitted, peer_round-latest,
}

abbrev statics : Statics listed
statics = record {
  webrtc = record {
    connected = true;
    state = 2;
    datachannel_open = false;
    keyframe_requested = false;
  };
  speaker = record { jitter = some (record { bytes = []; limit = 8 }); dropped = 0 };
}

abbrev events : List (PeerEvent listed)
events =
    ice_state 3 ∷ ice_state 5 ∷ dc_open ∷ request_keyframe ∷ audio_track (213 ∷ []) ∷ dc_close ∷ []

abbrev config : PeerConfig listed Bool
config = peer_config listed true true false false true 4 1 2

sleeps_long : (peer_round listed 5 config statics events).1 ≡ webrtc_peer_loop_ms
unfolding peer_round peer_loop call_back loop_delay_ms is_streaming on_ice_state_change on_dc_open
    on_dc_close on_request_keyframe peer_config
sleeps_long = refl

peer_round-latest_example :
    let (s', sleep) = peer_round listed 5 config statics events in
    let state = or_else (latest listed (state_of listed) events) 2 in
    (s'.webrtc.state ≡ state)
    × (s'.webrtc.datachannel_open ≡ or_else (latest listed (channel_of listed 5) events) false)
    × (s'.webrtc.keyframe_requested ≡ or_else (latest listed (asked_of listed) events) false)
    × (s'.speaker ≡ submitted listed statics.speaker events)
    × (sleep ≡ (if true && (state == 5) then webrtc_peer_loop_ms else webrtc_peer_ice_loop_ms))
peer_round-latest_example =
    peer_round-latest listed 5 true true false false true 4 1 2 statics events

-- ===== src/Webrtc/Callbacks.antt =====
-- main/task/task_webrtc.cpp: the callbacks that `task_webrtc` gives to libpeer, and what they leave
-- when libpeer calls them from its loop. The strings and the numbers of libpeer's enumerations are
-- parameters.
pub mod Latest
mod Tests
use esp32_ipc.Base.{ℕ, ◌==◌, Bool, if◌then◌else◌, Option, none, some, List, [], ◌∷◌}
use esp32_ipc.Esp.{StreamBuffer}
use esp32_ipc.Speaker.{Speaker}
use esp32_ipc.Webrtc.{
  Webrtc, on_dc_open, on_dc_close, on_request_keyframe, on_ice_state_change, loop_delay_ms,
}
use esp32_ipc.Webrtc.Downlink.{on_audio_track}

-- `on_dc_message`, which logs.
abbrev pub on_dc_message : Webrtc → Webrtc
on_dc_message w = w

-- An `IceServer`; a string that is not set is null.
pub record IceServer (Text : Type 0) : Type 0 where
  pub urls : Option Text
  pub username : Option Text
  pub credential : Option Text

abbrev pub no_server : {Text : Type 0} → IceServer Text
no_server = record { urls = none; username = none; credential = none }

module _ (B : StreamBuffer) where
  -- What `task_webrtc` sets of a `PeerConfiguration`.
  pub record PeerConfig (Text : Type 0) : Type 0 where
    pub ice_servers : ℕ → IceServer Text
    pub audio_codec : ℕ
    pub video_codec : ℕ
    pub datachannel : ℕ
    pub on_request_keyframe : Webrtc → Webrtc
    pub onaudiotrack : Speaker B → List ℕ → Speaker B

  -- `cfg` in `task_webrtc`, by the strings and `CONFIG_TURN`.
  unfoldable pub peer_config :
      {Text : Type 0} → Text → Text → Text → Text → Bool → ℕ → ℕ → ℕ → PeerConfig Text
  peer_config stun_url turn_url turn_username turn_credential turn codec_pcma codec_h264 binary =
      let stun : IceServer _ = record {
        urls = some stun_url;
        username = none;
        credential = none;
      } in
      let relay : IceServer _ = record {
        urls = some turn_url;
        username = some turn_username;
        credential = some turn_credential;
      } in
      record {
        ice_servers = λ i.
            if i == 0
            then stun
            else if i == 1
            then (if turn then relay else no_server)
            else no_server;
        audio_codec = codec_pcma;
        video_codec = codec_h264;
        datachannel = binary;
        on_request_keyframe = on_request_keyframe;
        onaudiotrack = on_audio_track B;
      }

  -- What libpeer calls back for.
  pub data PeerEvent : Type 0 where
    ice_state : ℕ → PeerEvent
    dc_message dc_open dc_close request_keyframe : PeerEvent
    audio_track : List ℕ → PeerEvent

  -- The statics of task_webrtc.cpp and task_speaker.cpp.
  pub record Statics : Type 0 where
    pub webrtc : Webrtc
    pub speaker : Speaker B

  module _ (completed : ℕ) {Text : Type 0} (cfg : PeerConfig Text) where
    -- The callback of an event: two are in `cfg`, and four are registered by
    -- `peer_connection_oniceconnectionstatechange` and `peer_connection_ondatachannel`.
    unfoldable pub call_back : Statics → PeerEvent → Statics
    call_back s (ice_state state) = record s {
      webrtc = on_ice_state_change completed s.webrtc state;
    }
    call_back s dc_message = record s { webrtc = on_dc_message s.webrtc }
    call_back s dc_open = record s { webrtc = on_dc_open s.webrtc }
    call_back s dc_close = record s { webrtc = on_dc_close s.webrtc }
    call_back s request_keyframe = record s { webrtc = cfg.on_request_keyframe s.webrtc }
    call_back s (audio_track payload) = record s { speaker = cfg.onaudiotrack s.speaker payload }

    -- The callbacks that `peer_connection_loop` makes, one by one. Which they are is libpeer's to say.
    unfoldable pub peer_loop : Statics → List PeerEvent → Statics
    peer_loop s [] = s
    peer_loop s (e ∷ events) = peer_loop (call_back s e) events

    -- A round of `peer_connection_task`: the loop, and the milliseconds that the task sleeps.
    unfoldable pub peer_round : Statics → List PeerEvent → Statics × ℕ
    peer_round s events = let s' = peer_loop s events in (s', loop_delay_ms completed s'.webrtc)

-- ===== src/Webrtc/Callbacks/Latest.antt =====
-- What a round of the peer task leaves: the latest event of each kind decides.
use esp32_ipc.Base.{
  ℕ, ◌≡◌, refl, sym, ap, ap₂, ◌∙◌, arith, Bool, true, false, ◌==◌, ◌&&◌, if◌then◌else◌, Option,
  none, some, List, [], ◌∷◌,
}
use esp32_ipc.Config.{webrtc_peer_loop_ms, webrtc_peer_ice_loop_ms}
use esp32_ipc.Esp.{StreamBuffer}
use esp32_ipc.Speaker.{Speaker, submit}
use esp32_ipc.Webrtc.{
  on_dc_open, on_dc_close, on_request_keyframe, on_ice_state_change, is_streaming, loop_delay_ms,
}
use esp32_ipc.Webrtc.Downlink.{on_audio_track}
use esp32_ipc.Webrtc.Callbacks.{
  PeerConfig, peer_config, PeerEvent, ice_state, dc_message, dc_open, dc_close, request_keyframe,
  audio_track, Statics, call_back, peer_loop, peer_round,
}

-- A value, or the one before when there is none.
abbrev pub or_else {ℓ} : {A : Type ℓ} → Option A → A → A
or_else none a = a
or_else (some b) a = b

module _ (B : StreamBuffer) where
  -- The last of the values that events have.
  abbrev pub latest {ℓ} : {A : Type ℓ} → (PeerEvent B → Option A) → List (PeerEvent B) → Option A
  latest value [] = none
  latest value (e ∷ events) = elim (latest value events) [ none ↦ value e | some a ↦ some a ]

  abbrev pub state_of : PeerEvent B → Option ℕ
  state_of (ice_state state) = some state
  state_of _ = none

  -- A data channel opens, closes, and is closed by any ICE state but the completed one.
  abbrev pub channel_of : ℕ → PeerEvent B → Option Bool
  channel_of completed (ice_state state) = if state == completed then none else some false
  channel_of completed dc_open = some true
  channel_of completed dc_close = some false
  channel_of completed _ = none

  abbrev pub asked_of : PeerEvent B → Option Bool
  asked_of request_keyframe = some true
  asked_of _ = none

  -- The speaker after the payloads of the events.
  abbrev pub submitted : Speaker B → List (PeerEvent B) → Speaker B
  submitted s [] = s
  submitted s (audio_track payload ∷ events) = submitted (submit B s payload).1 events
  submitted s (_ ∷ events) = submitted s events

  latest-cons {ℓ} :
      {A : Type ℓ} (value : PeerEvent B → Option A) (e : PeerEvent B) (events : List (PeerEvent B))
      (a : A)
      → or_else (latest value (e ∷ events)) a ≡ or_else (latest value events) (or_else (value e) a)
  latest-cons value e events a = go (latest value events)
    where
      go :
          (o : Option _)
          → or_else (elim o [ none ↦ value e | some b ↦ some b ]) a
            ≡ or_else o (or_else (value e) a)
      go none = refl
      go (some b) = refl

  module _ (completed : ℕ) {Text : Type 0} (stun url user secret : Text) (turn : Bool)
      (pcma h264 binary : ℕ) where
    abbrev cfg : PeerConfig B Text
    cfg = peer_config B stun url user secret turn pcma h264 binary

    abbrev callback : Statics B → PeerEvent B → Statics B
    callback = call_back B completed cfg

    abbrev loop : Statics B → List (PeerEvent B) → Statics B
    loop = peer_loop B completed cfg

    -- What each callback sets to the value of its event, the loop sets to the latest one.
    loop-latest {ℓ} :
        {A : Type ℓ} (part : Statics B → A) (value : PeerEvent B → Option A)
        → ((s : Statics B) (e : PeerEvent B) → part (callback s e) ≡ or_else (value e) (part s))
        → (s : Statics B) (events : List (PeerEvent B))
        → part (loop s events) ≡ or_else (latest value events) (part s)
    unfolding peer_loop
    loop-latest part value sets s [] = refl
    loop-latest part value sets s (e ∷ events) =
        loop-latest part value sets (callback s e) events
        ∙ ap (or_else (latest value events)) (sets s e)
        ∙ sym (latest-cons value e events (part s))

    call_back-state :
        (s : Statics B) (e : PeerEvent B)
        → (callback s e).webrtc.state ≡ or_else (state_of e) s.webrtc.state
    unfolding call_back peer_config on_ice_state_change on_dc_open on_dc_close on_request_keyframe
    call_back-state s (ice_state n) = refl
    call_back-state s dc_message = refl
    call_back-state s dc_open = refl
    call_back-state s dc_close = refl
    call_back-state s request_keyframe = refl
    call_back-state s (audio_track payload) = refl

    call_back-channel :
        (s : Statics B) (e : PeerEvent B)
        → (callback s e).webrtc.datachannel_open
          ≡ or_else (channel_of completed e) s.webrtc.datachannel_open
    unfolding call_back peer_config on_ice_state_change on_dc_open on_dc_close on_request_keyframe
    call_back-channel s (ice_state n) = ground arith
    call_back-channel s dc_message = refl
    call_back-channel s dc_open = refl
    call_back-channel s dc_close = refl
    call_back-channel s request_keyframe = refl
    call_back-channel s (audio_track payload) = refl

    call_back-asked :
        (s : Statics B) (e : PeerEvent B)
        → (callback s e).webrtc.keyframe_requested
          ≡ or_else (asked_of e) s.webrtc.keyframe_requested
    unfolding call_back peer_config on_ice_state_change on_dc_open on_dc_close on_request_keyframe
    call_back-asked s (ice_state n) = refl
    call_back-asked s dc_message = refl
    call_back-asked s dc_open = refl
    call_back-asked s dc_close = refl
    call_back-asked s request_keyframe = refl
    call_back-asked s (audio_track payload) = refl

    call_back-connected :
        (s : Statics B) (e : PeerEvent B) → (callback s e).webrtc.connected ≡ s.webrtc.connected
    unfolding call_back peer_config on_ice_state_change on_dc_open on_dc_close on_request_keyframe
    call_back-connected s (ice_state n) = refl
    call_back-connected s dc_message = refl
    call_back-connected s dc_open = refl
    call_back-connected s dc_close = refl
    call_back-connected s request_keyframe = refl
    call_back-connected s (audio_track payload) = refl

    loop-connected :
        (s : Statics B) (events : List (PeerEvent B))
        → (loop s events).webrtc.connected ≡ s.webrtc.connected
    unfolding peer_loop
    loop-connected s [] = refl
    loop-connected s (e ∷ events) = loop-connected (callback s e) events ∙ call_back-connected s e

    loop-speaker :
        (s : Statics B) (events : List (PeerEvent B))
        → (loop s events).speaker ≡ submitted s.speaker events
    unfolding peer_loop call_back peer_config on_audio_track
    loop-speaker s [] = refl
    loop-speaker s (ice_state n ∷ events) = loop-speaker (callback s (ice_state n)) events
    loop-speaker s (dc_message ∷ events) = loop-speaker (callback s dc_message) events
    loop-speaker s (dc_open ∷ events) = loop-speaker (callback s dc_open) events
    loop-speaker s (dc_close ∷ events) = loop-speaker (callback s dc_close) events
    loop-speaker s (request_keyframe ∷ events) = loop-speaker (callback s request_keyframe) events
    loop-speaker s (audio_track payload ∷ events) =
        loop-speaker (callback s (audio_track payload)) events

    -- Whatever libpeer calls back for in a round of the peer task, and in whatever order: `s_state` is
    -- the latest ICE state; the data channel is open if the latest of its events is that it opened, an
    -- ICE state that is not completed counting as a close; a key frame is asked for if a request came,
    -- or was asked for already; the payloads go to the speaker one by one; and the task sleeps the long
    -- time exactly when there is a connection and its latest ICE state is the completed one.
    pub peer_round-latest :
        (s : Statics B) (events : List (PeerEvent B))
        → let (s', sleep) = peer_round B completed cfg s events in
          let state = or_else (latest state_of events) s.webrtc.state in
          (s'.webrtc.state ≡ state)
          × (s'.webrtc.datachannel_open
              ≡ or_else (latest (channel_of completed) events) s.webrtc.datachannel_open)
          × (s'.webrtc.keyframe_requested
              ≡ or_else (latest asked_of events) s.webrtc.keyframe_requested)
          × (s'.speaker ≡ submitted s.speaker events)
          × (sleep ≡ (
              if s.webrtc.connected && (state == completed)
              then webrtc_peer_loop_ms
              else webrtc_peer_ice_loop_ms))
    unfolding peer_round loop_delay_ms is_streaming
    peer_round-latest s events =
        let state = loop-latest (λ s. s.webrtc.state) state_of call_back-state s events in
        (
          state,
          loop-latest (λ s. s.webrtc.datachannel_open) (channel_of completed) call_back-channel s
              events,
          loop-latest (λ s. s.webrtc.keyframe_requested) asked_of call_back-asked s events,
          loop-speaker s events,
          ap₂
              (λ c n.
                if c && (n == completed) then webrtc_peer_loop_ms else webrtc_peer_ice_loop_ms)
              (loop-connected s events) state,
        )

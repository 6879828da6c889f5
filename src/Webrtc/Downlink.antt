-- ===== src/Webrtc/Downlink.antt =====
-- main/task/task_webrtc.cpp: what the peer task does with the audio that it receives.
use esp32_ipc.Base.{ℕ, List}
use esp32_ipc.Esp.{StreamBuffer}
use esp32_ipc.Speaker.{Speaker, submit}

-- `on_audio_track`, which ignores whether the payload was taken.
unfoldable pub on_audio_track : (B : StreamBuffer) → Speaker B → List ℕ → Speaker B
on_audio_track B s payload = (submit B s payload).1

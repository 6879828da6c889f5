-- ===== src/Speaker.antt =====
-- main/task/task_speaker.cpp: the A-law that arrives waits in a jitter buffer, a stream buffer of
-- FreeRTOS, which the speaker task drains, decodes and plays.
pub mod Stream
pub mod Start
pub mod Tone
pub mod Reports
pub mod Tests
use esp32_ipc.Base.{
  ℕ, ◌+◌, ◌-◌, ◌%◌, ◌^◌, ◌==◌, leb, not, ◌&&◌, Bool, true, false, if◌then◌else◌, Option, none, some,
  List, map, length,
}
use esp32_ipc.Base.Int.{ℤ}
use esp32_ipc.Config.{audio_samples_per_packet}
use esp32_ipc.Esp.{StreamBuffer}
use esp32_ipc.G711.{decode}

module _ (B : StreamBuffer) where
  open B use {Buf, send, receive}

  -- `s_jitter`, which is null until the task has made it, and `s_dropped`.
  pub record Speaker : Type 0 where
    pub jitter : Option Buf
    pub dropped : ℕ

  -- `speaker_submit_g711a` on a buffer.
  unfoldable pub submit_to : Speaker → Buf → List ℕ → Bool × Speaker
  submit_to s buf payload =
      let (sent, buf') = send buf payload in
      if sent == length payload then (true, record s { jitter = some buf' }) else (
        false,
        record { jitter = some buf'; dropped = (s.dropped + (length payload - sent)) % 2 ^ 32 },
      )

  -- `speaker_submit_g711a`
  unfoldable pub submit : Speaker → List ℕ → Bool × Speaker
  unfolding submit_to
  submit s payload = elim s.jitter [
    | none ↦ (false, s)
    | some buf ↦ if length payload == 0 then (false, s) else submit_to s buf payload
  ]

  -- One round of the loop of `task_speaker` up to its write: the samples, if there were bytes.
  unfoldable pub play : Buf → List ℤ × Buf
  play buf = let (bytes, buf') = receive buf audio_samples_per_packet in (map decode bytes, buf')

  -- What the loop of `task_speaker` keeps of the overflow reports.
  pub record Report : Type 0 where
    pub reported : ℕ
    pub next_report : ℕ

  -- The end of the loop of `task_speaker`, which reads the tick count twice: what is logged, if
  -- anything. A second is
  -- given in ticks.
  unfoldable pub report : Report → ℕ → ℕ → ℕ → ℕ → Option ℕ × Report
  report r dropped now later second =
      if not (dropped == r.reported) && leb r.next_report now
      then (
        some ((dropped + 2 ^ 32 - r.reported) % 2 ^ 32),
        record { reported = dropped; next_report = (later + second) % 2 ^ 32 },
      )
      else (none, r)

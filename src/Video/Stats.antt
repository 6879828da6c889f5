-- ===== src/Video/Stats.antt =====
-- main/task/task_video.cpp: the counters of `video_ctx_t` and `log_stats`, which prints them and sets
-- them back. Times are natural numbers of microseconds; the averages per frame, in floating point, are
-- given by the sums that they divide and by what they divide by.
pub mod Lost
mod Tests
use esp32_ipc.Base.{ℕ, ◌+◌, ◌-◌, ◌*◌, ◌/◌, ◌%◌, ◌^◌, ◌==◌, if◌then◌else◌, Option, none, some}

-- The counters and the sums of `video_ctx_t`.
pub record Stats : Type 0 where
  pub stat_cap : ℕ
  pub stat_cap_drop : ℕ
  pub stat_cap_pace : ℕ
  pub stat_loop : ℕ
  pub stat_enc : ℕ
  pub stat_send_ok : ℕ
  pub stat_send_fail : ℕ
  pub stat_bytes : ℕ
  pub us_wait : ℕ
  pub us_ppa : ℕ
  pub us_osd : ℕ
  pub us_enc : ℕ
  pub us_send : ℕ

-- What `log_stats` writes: the time, the counters and sums that it shows, the bit rate in kilobits a
-- second, the frames that it divides by, and the sum of the stages.
pub record Line : Type 0 where
  pub elapsed_ms : ℕ
  pub shown : Stats
  pub kbps : ℕ
  pub per_frame : ℕ
  pub us_busy : ℕ

abbrev pub cleared : Stats
cleared = record {
  stat_cap = 0;
  stat_cap_drop = 0;
  stat_cap_pace = 0;
  stat_loop = 0;
  stat_enc = 0;
  stat_send_ok = 0;
  stat_send_fail = 0;
  stat_bytes = 0;
  us_wait = 0;
  us_ppa = 0;
  us_osd = 0;
  us_enc = 0;
  us_send = 0;
}

-- `elapsed_ms`
unfoldable pub elapsed : ℕ → ℕ → ℕ
elapsed last_us now_us = (now_us - last_us) / 1000 % 2 ^ 32

-- What is printed of the counters, after `elapsed_ms` that is not 0.
unfoldable pub line_of : Stats → ℕ → Line
line_of s ms = record {
  elapsed_ms = ms;
  shown = s;
  kbps = s.stat_bytes * 8 / ms % 2 ^ 32;
  per_frame = if s.stat_loop == 0 then 1 else s.stat_loop;
  us_busy = s.us_ppa + s.us_osd + s.us_enc + s.us_send;
}

-- `log_stats` up to what it prints, of the counters as it finds them then: nothing when less than a
-- millisecond has passed.
unfoldable pub report : Stats → ℕ → ℕ → Option Line
unfolding elapsed
report s last_us now_us =
    let ms = elapsed last_us now_us in if ms == 0 then none else some (line_of s ms)

-- The rest of `log_stats`, after a line: the counters, whatever they are by then, since the tasks count
-- on while it prints, and `*last_us`.
unfoldable pub clear : Stats → ℕ → Stats × ℕ
clear s now_us = (cleared, now_us)

-- ===== src/Video/Pace.antt =====
-- main/task/task_video.cpp, `on_frame_grid`: which captured frames go on to the encoder. A time is a
-- number of microseconds since boot, which an `int64_t` does not outgrow.
pub mod Rate
use esp32_ipc.Base.{ℕ, ◌+◌, Bool, true, false, ltb, leb, if◌then◌else◌, List, [], ◌∷◌}
use esp32_ipc.Config.{video_frame_interval_us}

-- `on_frame_grid` at a time, with its static `next_us`, which it returns anew.
unfoldable pub on_frame_grid : ℕ → ℕ → Bool × ℕ
on_frame_grid now next_us =
    if ltb now next_us
    then (false, next_us)
    else if leb (next_us + video_frame_interval_us) now
    then (true, now + video_frame_interval_us)
    else (true, next_us + video_frame_interval_us)

-- One frame of `paced`, by the answer that it gets.
unfoldable pub keep : Bool → ℕ → List ℕ → List ℕ
keep true now rest = now ∷ rest
keep false now rest = rest

-- The times that pass, of frames that are captured at the given times one after the other.
unfoldable pub paced : ℕ → List ℕ → List ℕ
paced next_us [] = []
paced next_us (now ∷ times) =
    let (passes, next_us') = on_frame_grid now next_us in keep passes now (paced next_us' times)

-- ===== src/Video/Stats/Lost.antt =====
-- main/task/task_video.cpp: the counters of `video_ctx_t`, which the capture and the encode task add to
-- while `log_stats` reads each for its line and later sets it to 0, with no lock.
use esp32_ipc.Base.{ℕ, ◌+◌, ◌%◌, ◌^◌, ◌≡◌, ◌==◌, Bool, true, false, if◌then◌else◌, store}
use esp32_ipc.Video.Stats.{Stats}

pub data Counter : Type 0 where
  cap cap_drop cap_pace loop enc send_ok send_fail bytes : Counter

abbrev pub code : Counter → ℕ
code cap = 0
code cap_drop = 1
code cap_pace = 2
code loop = 3
code enc = 4
code send_ok = 5
code send_fail = 6
code bytes = 7

abbrev pub value : Counter → Stats → ℕ
value cap s = s.stat_cap
value cap_drop s = s.stat_cap_drop
value cap_pace s = s.stat_cap_pace
value loop s = s.stat_loop
value enc s = s.stat_enc
value send_ok s = s.stat_send_ok
value send_fail s = s.stat_send_fail
value bytes s = s.stat_bytes

-- A task counts, modulo 2^32.
unfoldable pub add : Counter → ℕ → Stats → Stats
add cap n s = record s { stat_cap = (s.stat_cap + n) % 2 ^ 32 }
add cap_drop n s = record s { stat_cap_drop = (s.stat_cap_drop + n) % 2 ^ 32 }
add cap_pace n s = record s { stat_cap_pace = (s.stat_cap_pace + n) % 2 ^ 32 }
add loop n s = record s { stat_loop = (s.stat_loop + n) % 2 ^ 32 }
add enc n s = record s { stat_enc = (s.stat_enc + n) % 2 ^ 32 }
add send_ok n s = record s { stat_send_ok = (s.stat_send_ok + n) % 2 ^ 32 }
add send_fail n s = record s { stat_send_fail = (s.stat_send_fail + n) % 2 ^ 32 }
add bytes n s = record s { stat_bytes = (s.stat_bytes + n) % 2 ^ 32 }

-- The statement of `log_stats` that sets a counter to 0.
unfoldable pub clear_one : Counter → Stats → Stats
clear_one cap s = record s { stat_cap = 0 }
clear_one cap_drop s = record s { stat_cap_drop = 0 }
clear_one cap_pace s = record s { stat_cap_pace = 0 }
clear_one loop s = record s { stat_loop = 0 }
clear_one enc s = record s { stat_enc = 0 }
clear_one send_ok s = record s { stat_send_ok = 0 }
clear_one send_fail s = record s { stat_send_fail = 0 }
clear_one bytes s = record s { stat_bytes = 0 }

-- The counters, and which of them `log_stats` has read and not yet set to 0.
pub record Watch : Type 0 where
  pub stats : Stats
  pub printed : ℕ → Bool

-- A task counts, or `log_stats` reads a counter for its line or sets it to 0.
pub data Step (w : Watch) : Watch → Type 0 where
  counts : (c : Counter) (n : ℕ) → Step w (record w { stats = add c n w.stats })
  prints :
      (c : Counter)
      → w.printed (code c) ≡ false
      → Step w (record w { printed = store w.printed (code c) true })
  clears :
      (c : Counter)
      → w.printed (code c) ≡ true
      → Step w (record w { stats = clear_one c w.stats; printed = store w.printed (code c) false })

pub data Reach (w : Watch) : Watch → Type 0 where
  here : Reach w w
  next : {u v : Watch} → Reach w u → Step u v → Reach w v

-- What the lines show of a counter.
abbrev pub shown : Counter → {w v : Watch} → Reach w v → ℕ
shown c here = 0
shown c (next {u} r (prints e idle)) = shown c r + (if code c == code e then value c u.stats else 0)
shown c (next r _) = shown c r

-- What the tasks add to a counter.
abbrev pub counted : Counter → {w v : Watch} → Reach w v → ℕ
counted c here = 0
counted c (next r (counts e n)) = counted c r + (if code c == code e then n else 0)
counted c (next r _) = counted c r

-- What they add to it between its read and its clear.
abbrev pub between : Counter → {w v : Watch} → Reach w v → ℕ
between c here = 0
between c (next {u} r (counts e n)) =
    between c r + (if u.printed (code c) then (if code c == code e then n else 0) else 0)
between c (next r _) = between c r

-- What a counter holds of what no line has shown yet.
abbrev pub unshown : Counter → Watch → ℕ
unshown c w = if w.printed (code c) then 0 else value c w.stats

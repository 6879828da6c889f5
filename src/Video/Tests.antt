-- ===== src/Video/Tests.antt =====
-- The theorems on main/task/task_video.cpp at concrete inputs.
use esp32_ipc.Base.{
  ◌/◌, ◌*◌, if◌then◌else◌, ℕ, some, none, false, ◌+◌, ◌<◌, ◌≡◌, ◌≢◌, refl, arith, true, List, [],
  ◌∷◌,
}
use esp32_ipc.Base.Int.{ℤ, pos, ◌*ℤ◌, ◌-ℤ◌, ◌+ℤ◌}
use esp32_ipc.Detect.Box.{DetBox}
use esp32_ipc.Hal.Vcap.{Vcap, VcapFrame, acquire, publish_rows, publish_clamped}
use esp32_ipc.Hal.Device.{capture, qbuf}
use esp32_ipc.Hal.Tests.Bench.{Slots, bench, reply, ioctl, queued, accepts}
use esp32_ipc.Video.Encode.{Stage}
use esp32_ipc.FramePool.{Pool}
use esp32_ipc.FramePool.Tests.{Counter, counting, pool, pool-IsValid}
use esp32_ipc.FramePool.PutBack.{SameHeld}
use esp32_ipc.Detect.Iface.{DetectorIface, pedestrian}
use esp32_ipc.Detect.Results.{Result, Boxes, store_results}
use esp32_ipc.Osd.Draw.Paint.{owns, ink}
use esp32_ipc.Video.Round.Shown.{marks_of, encode_round_shows}
use esp32_ipc.Esp.{esp_ok}
use esp32_ipc.Video.Round.{Loop, encode_round}
use esp32_ipc.Video.Round.Balanced.{encode_round-GivenBack}
use esp32_ipc.Video.Encode.Balance.{GivenBack, asked_for_slot}
use esp32_ipc.Hal.H264.Slots.{Fits}
use esp32_ipc.Video.Flow.{Flow, Reach, here, next, captures, dispatches, receives, dispatch}
use esp32_ipc.Video.Flow.Conserve.{IsWhole, Reach-IsWhole, driver_keeps_one}
use esp32_ipc.Osd.Dirty.{rows, add, skip, absorb, place, shift_down, shift_up, reset}
use esp32_ipc.Osd.Corners.{Drawn, draw_boxes, draw_all, draw_corners, draw_ordered, draw_clipped}
use esp32_ipc.Video.Overlay.{overlay_boxes, publish_each}
use esp32_ipc.Video.Overlay.Published.{InBlocks, overlay_boxes_same}
use esp32_ipc.Config.{enc_out_buf_count, video_frame_interval_us, cam_width, osd_y, osd_u, osd_v}
use esp32_ipc.Video.Pace.{on_frame_grid, keep, paced}
use esp32_ipc.Video.Pace.Rate.{paced_rate}

-- The sensor's frames, at thirty a second.
abbrev captured : List ℕ
captured = 500000 ∷ 533333 ∷ 566666 ∷ 600000 ∷ 633333 ∷ 666666 ∷ 700000 ∷ []

captured-paced : paced 0 captured ≡ 500000 ∷ 600000 ∷ 666666 ∷ []
unfolding paced keep on_frame_grid
captured-paced = refl

paced_rate_example : 500000 + 1 * video_frame_interval_us < 666666
unfolding paced keep on_frame_grid
paced_rate_example = paced_rate captured 0 0 1 500000 666666 refl refl

abbrev blank : Drawn
blank = record { frame = λ a. 0; dirty = record { count = 0; range = λ k. rows 0 0 } }

abbrev pub vcap : Vcap
vcap = record { width = 1920; height = 1080; stride = 2880; mmap = λ i. 64; length = λ i. 4096 }

-- A box that covers the rows from 40 to 76 of the frame.
abbrev boxes : List (DetBox ℕ)
boxes = record { x1 = pos 10; y1 = pos 10; x2 = pos 29; y2 = pos 19; score = 7 } ∷ []

-- The marks of a box of 37 rows meet, and make one block.
written_back : (overlay_boxes vcap blank boxes).1 ≡ (115200, 106560) ∷ []
unfolding overlay_boxes publish_each publish_rows publish_clamped draw_boxes draw_all draw_corners
    draw_ordered draw_clipped add skip absorb place shift_down shift_up reset ◌*ℤ◌ ◌-ℤ◌ ◌+ℤ◌
written_back = refl

row_one_kept : ¬ InBlocks (overlay_boxes vcap blank boxes).1 2880
row_one_kept = rw written_back (λ h. ground arith)

overlay_boxes_same_example : (overlay_boxes vcap blank boxes).0.frame 2880 ≡ 0
overlay_boxes_same_example =
    overlay_boxes_same vcap blank boxes 2880 refl refl (omega arith) row_one_kept

abbrev pub frame : VcapFrame
frame = record { buf = reply 0; data_at = 64; bytesused = 700 }

-- The second frame.
abbrev pub second : VcapFrame
second = record { buf = reply 1; data_at = 64; bytesused = 700 }

abbrev pub start : Flow bench
start = record {
  vcap = vcap;
  camera = record { caps = 0 ∷ 1 ∷ 2 ∷ []; outs = [] };
  cap_queue = [];
  cap_holds = none;
  enc_holds = none;
  next_us = 0;
  stat_cap = 0;
  stat_cap_drop = 0;
  stat_cap_pace = 0;
}

-- The encode task has the first frame, and the second one waits.
abbrev pub behind : Flow bench
behind = record {
  vcap = vcap;
  camera = record { caps = 2 ∷ []; outs = [] };
  cap_queue = second ∷ [];
  cap_holds = none;
  enc_holds = some frame;
  next_us = 666666;
  stat_cap = 2;
  stat_cap_drop = 0;
  stat_cap_pace = 0;
}

pub to_behind : Reach bench start behind
unfolding acquire dispatch on_frame_grid
to_behind =
    next
      (next
        (next (next (next here (captures refl)) (dispatches frame 500000 refl))
          (receives frame [] refl refl))
        (captures refl))
      (dispatches second 600000 refl)

pub start-IsWhole : IsWhole bench start
start-IsWhole = record { each = λ j. ground arith }

Reach-IsWhole_example : IsWhole bench behind
Reach-IsWhole_example = Reach-IsWhole bench accepts to_behind start-IsWhole

driver_keeps_one_example : (j : ℕ) × (j < 3) × (queued behind.camera capture j ≡ 1)
driver_keeps_one_example = driver_keeps_one bench accepts to_behind start-IsWhole (omega arith) refl

takes_one :
    (i : ℕ) (d : Slots)
    → i < enc_out_buf_count
    → queued d capture i ≡ 0
    → (ioctl (qbuf capture i) d).0 ≢ none
takes_one i d small lent = accepts i d (omega arith) lent

abbrev stage : Stage bench bench {Peer = ℕ} (λ peer len. (pos len, peer + len))
stage = record {
  encoder = record { caps = 0 ∷ []; outs = [] };
  camera = record { caps = 1 ∷ 2 ∷ []; outs = [] };
  peer = 0;
  counters = record {
    enc = record { out_mmap = λ i. 64; out_length = 4096; no_force_idr = false };
    stat_loop = 0;
    stat_enc = 0;
    stat_send_ok = 0;
    stat_send_fail = 0;
    stat_bytes = 0;
  };
}

-- The detector came up, and has found one box.
abbrev detector : DetectorIface ℕ
detector =
    pedestrian counting
      (esp_ok, record { feed = some pool; box_mutex = true; model = true; running = true })

abbrev before : Loop bench bench detector (λ peer len. (pos len, peer + len))
before = record { stage = stage; feed = some pool; frame_no = 3; vcap = vcap }

abbrev results : List (Result ℕ)
results = record { box = pos 10 ∷ pos 10 ∷ pos 29 ∷ pos 19 ∷ []; score = 7 } ∷ []

abbrev earlier : Boxes ℕ
earlier = record {
  array = λ k. record { x1 = pos 0; y1 = pos 0; x2 = pos 0; y2 = pos 0; score = 0 };
  count = 0;
}

stage-Fits : Fits bench stage.encoder
stage-Fits = record { caps = λ i. ground arith; outs = λ i. omega arith }

abbrev send : ℕ → ℕ → ℤ × ℕ
send peer len = (pos len, peer + len)

abbrev after : Loop bench bench detector send
after =
    (encode_round bench bench detector send before frame blank true true
      (some (store_results earlier results))).0

encode_round-GivenBack_example :
    GivenBack bench bench send
      (asked_for_slot bench bench send stage frame true)
      frame
      stage
      after.stage
    × (p' : Pool Counter) × (after.feed ≡ some p')
    × SameHeld pool p'
encode_round-GivenBack_example =
    encode_round-GivenBack bench bench counting
      (esp_ok, record { feed = some pool; box_mutex = true; model = true; running = true }) send
      takes_one accepts before pool frame blank true true (some (store_results earlier results))
      stage-Fits (omega arith) refl refl pool-IsValid

encode_round_shows_example :
    (encode_round bench bench detector
        (λ peer len. (pos len, peer + len))
        before
        frame
        blank
        true
        true
        (some (store_results earlier results))).2
      (41 * (cam_width + cam_width / 2) + 46)
    ≡ (if owns (marks_of results) 41 46 then ink osd_y osd_u osd_v 41 46 else 0)
encode_round_shows_example =
    encode_round_shows bench bench counting
      (esp_ok, record { feed = some pool; box_mutex = true; model = true; running = true })
      (λ peer len. (pos len, peer + len)) before frame blank true true earlier results 41 46 refl
      refl (omega arith)

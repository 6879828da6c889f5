-- ===== src/Detect/Task/Tests.antt =====
-- A round of the detector task at concrete inputs.
use esp32_ipc.Base.{ℕ, refl, arith, some, none, true, false, [], ◌∷◌, List}
use esp32_ipc.Esp.{EspErr, esp_ok}
use esp32_ipc.Detect.Pedestrian.{Started}
use esp32_ipc.Detect.Iface.{pedestrian}
use esp32_ipc.Detect.Handover.Calls.{Leads, fed, rested, calls-Lead}
use esp32_ipc.Video.Feed.{feed_detector}
use esp32_ipc.Base.Int.{pos}
use esp32_ipc.FramePool.{Pool}
use esp32_ipc.FramePool.Inv.{IsValid}
use esp32_ipc.FramePool.Tests.{counting, Counter, pool}
use esp32_ipc.Detect.Results.{Result}
use esp32_ipc.Detect.Task.{Detector, detect_round}
use esp32_ipc.Detect.Task.Round.{IsDone, detect_round-IsDone}

abbrev model : ℕ → List (Result ℕ) × ℕ
model buffer = (record { box = pos 1 ∷ pos 2 ∷ pos 3 ∷ pos 4 ∷ []; score = buffer } ∷ [], 110000)

-- One buffer is submitted.
abbrev loaded : Pool Counter
loaded = record pool {
  free_list = 0 ∷ [];
  ready_list = 1 ∷ [];
  ready_sem = record { value = 1; limit = 2 };
}

loaded-IsValid : IsValid loaded
loaded-IsValid = record {
  one_place = λ i h. ground arith;
  no_other = λ i h. ground arith;
  own_index = λ i h. refl;
}

abbrev detector : Detector counting ℕ
detector = record {
  feed = some loaded;
  boxes = record {
    array = λ i. record { x1 = pos 0; y1 = pos 0; x2 = pos 0; y2 = pos 0; score = 0 };
    count = 0;
  };
  window = record { acc_us = 0; acc_n = 0 };
}

detect_round-IsDone_example :
    IsDone counting model loaded detector (detect_round counting ℕ model 5 detector).0
detect_round-IsDone_example =
    detect_round-IsDone counting model 5 detector loaded refl loaded-IsValid

abbrev up : EspErr × Started counting
up = (esp_ok, record { feed = some loaded; box_mutex = true; model = true; running = true })

calls-Lead_example :
    Leads counting
      (fed counting true none)
      loaded
      (feed_detector (pedestrian {Score = ℕ} counting up) (some loaded) 0 true).0
    × Leads counting
        (rested counting none false)
        loaded
        (detect_round counting ℕ model 5 detector).0.feed
calls-Lead_example =
    calls-Lead counting up model true false true none none loaded 0 5 detector loaded-IsValid refl

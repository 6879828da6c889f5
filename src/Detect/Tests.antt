-- ===== src/Detect/Tests.antt =====
-- The theorems on main/task/task_detect.cpp at concrete inputs.
use esp32_ipc.Detect.Results.{tick, tick_all}
use esp32_ipc.Detect.Results.Windows.{IsLogged, quiet, tick_all-IsLogged}
use esp32_ipc.Base.{ℕ, ◌≡◌, refl, List, [], ◌∷◌}
use esp32_ipc.Base.Int.{pos}
use esp32_ipc.Detect.Box.{DetBox}
use esp32_ipc.Detect.Results.{Result, Boxes, get_boxes, store_results, store_from, copy}

abbrev corner : DetBox ℕ
corner = record { x1 = pos 1; y1 = pos 2; x2 = pos 3; y2 = pos 4; score = 9 }

-- A result with a short box between two whole ones.
abbrev results : List (Result ℕ)
results =
    record { box = pos 1 ∷ pos 2 ∷ pos 3 ∷ pos 4 ∷ []; score = 9 }
    ∷ record { box = pos 5 ∷ []; score = 8 }
    ∷ record { box = pos 1 ∷ pos 2 ∷ pos 3 ∷ pos 4 ∷ pos 5 ∷ []; score = 9 }
    ∷ []

-- Four boxes of an earlier frame.
abbrev earlier : Boxes ℕ
earlier = record { array = λ i. record corner { score = i }; count = 4 }

two_stored : get_boxes (store_results earlier results) 5 ≡ corner ∷ corner ∷ []
unfolding get_boxes store_results store_from copy
two_stored = refl

-- One more than a window.
abbrev inferences : List ℕ
inferences =
    100 ∷ 101 ∷ 102 ∷ 103 ∷ 104 ∷ 105 ∷ 106 ∷ 107 ∷ 108 ∷ 109 ∷ 110 ∷ 111 ∷ 112 ∷ 113 ∷ 114 ∷ 115
    ∷ 90 ∷ []

one_line : tick_all quiet inferences ≡ (record { acc_us = 90; acc_n = 1 }, 1720 ∷ [])
unfolding tick_all tick
one_line = refl

tick_all-IsLogged_example : IsLogged (tick_all quiet inferences) inferences
tick_all-IsLogged_example = tick_all-IsLogged inferences

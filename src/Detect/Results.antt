-- ===== src/Detect/Results.antt =====
-- main/task/task_detect.cpp: the boxes that the detector task stores and the video task copies, each
-- under the mutex, so each in one step.
pub mod Laws
pub mod Windows
use esp32_ipc.Base.{
  ℕ, zero, suc, Option, some, none, ◌+◌, ltb, leb, ◌==◌, if◌then◌else◌, List, [], ◌∷◌, store,
}
use esp32_ipc.Base.Int.{ℤ}
use esp32_ipc.Config.{det_max_box, det_timing_window}
use esp32_ipc.Detect.Box.{DetBox}

-- A result of the model, a `dl::detect::result_t`: the numbers of its box and its score.
pub record Result {ℓ} (Score : Type ℓ) : Type ℓ where
  pub box : List ℤ
  pub score : Score

-- `s_boxes` and `s_box_count`.
pub record Boxes {ℓ} (Score : Type ℓ) : Type ℓ where
  pub array : ℕ → DetBox Score
  pub count : ℕ

module _ {ℓ} {Score : Type ℓ} where
  -- The box that a result makes, when it has four numbers.
  abbrev pub box_of : List ℤ → Score → Option (DetBox Score)
  box_of (x1 ∷ y1 ∷ x2 ∷ y2 ∷ more) score =
      some (record { x1 = x1; y1 = y1; x2 = x2; y2 = y2; score = score })
  box_of _ score = none

  -- The loop of `store_results` over the results that are left, with the array and `n`.
  unfoldable pub store_from : List (Result Score) → (ℕ → DetBox Score) → ℕ → Boxes Score
  store_from [] array n = record { array = array; count = n }
  store_from (res ∷ results) array n =
      let skipped = store_from results array n in
      if leb det_max_box n
      then record { array = array; count = n }
      else elim (box_of res.box res.score) [
        | none ↦ skipped
        | some b ↦ store_from results (store array n b) (suc n)
      ]

  unfoldable pub store_results : Boxes Score → List (Result Score) → Boxes Score
  store_results s results = store_from results s.array 0

  -- The first `n` boxes of an array, as `memcpy` copies them.
  unfoldable pub copy : (ℕ → DetBox Score) → ℕ → ℕ → List (DetBox Score)
  copy array i zero = []
  copy array i (suc n) = array i ∷ copy array (suc i) n

  -- `ped_get_boxes` once there is a mutex: the boxes copied, which are as many as it answers.
  unfoldable pub get_boxes : Boxes Score → ℕ → List (DetBox Score)
  get_boxes s most = copy s.array 0 (if ltb s.count most then s.count else most)

-- The timing window of `detect_task`: `acc_us` and `acc_n`.
pub record Window : Type 0 where
  pub acc_us : ℕ
  pub acc_n : ℕ

-- One inference that took `us`, and the time of a whole window, of which the average is logged after
-- its last.
unfoldable pub tick : Window → ℕ → Window × Option ℕ
tick w us =
    if suc w.acc_n == det_timing_window
    then (record { acc_us = 0; acc_n = 0 }, some (w.acc_us + us))
    else (record { acc_us = w.acc_us + us; acc_n = suc w.acc_n }, none)

-- The lines, with the one of the last window, if it is whole.
abbrev pub with_line : Option ℕ → Window × List ℕ → Window × List ℕ
with_line none (w, lines) = (w, lines)
with_line (some total) (w, lines) = (w, total ∷ lines)

-- The inferences of a life of the task, by how long each took, with what is logged.
unfoldable pub tick_all : Window → List ℕ → Window × List ℕ
tick_all w [] = (w, [])
tick_all w (us ∷ times) = let (w', line) = tick w us in with_line line (tick_all w' times)

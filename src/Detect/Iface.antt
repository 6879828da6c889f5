-- ===== src/Detect/Iface.antt =====
-- main/core/detector.h, `detector_iface_t`: what the video task needs of a detector; and its two
-- implementations in main/task/task_detect.cpp, by `CONFIG_APP_ENABLE_AI`. The buffers that are lent
-- and the boxes that are found are two states, since two tasks change them.
pub mod Lawful
use esp32_ipc.Base.{ℕ, Option, none, some, List, []}
use esp32_ipc.Esp.{EspErr, esp_err_not_supported, Semaphore}
use esp32_ipc.FramePool.{Pool}
use esp32_ipc.Detect.Box.{DetBox}
use esp32_ipc.Detect.Pedestrian.{DetInput, Started, acquire_input, submit_input, discard_input}
use esp32_ipc.Detect.Results.{Boxes, get_boxes}

pub record DetectorIface (Score : Type 0) : Type 1 where
  pub Feed : Type 0
  pub Found : Type 0
  -- What `start` answers.
  pub start : EspErr
  -- The buffer lent, if there is one to lend.
  pub acquire_input : Feed → Option DetInput × Feed
  pub submit : Feed → DetInput → Feed
  pub discard : Feed → DetInput → Feed
  -- The boxes copied, at most as many as asked for.
  pub get_boxes : Found → ℕ → List (DetBox Score)

module _ {Score : Type 0} where
  -- `ped_get_boxes`: no boxes without a mutex, which is made together with the array.
  unfoldable pub ped_get_boxes : Option (Boxes Score) → ℕ → List (DetBox Score)
  ped_get_boxes none most = []
  ped_get_boxes (some boxes) most = get_boxes boxes most

  -- `detector_pedestrian` with the model, by what `ped_start` came to.
  abbrev pub pedestrian : (S : Semaphore) → EspErr × Started S → DetectorIface Score
  pedestrian S started = record {
    Feed = Option (Pool (S.Sem));
    Found = Option (Boxes Score);
    start = started.0;
    acquire_input = acquire_input S;
    submit = submit_input S;
    discard = discard_input S;
    get_boxes = ped_get_boxes;
  }

  -- `detector_pedestrian` of a build without the model: a detector that never finds anything.
  abbrev pub disabled : DetectorIface Score
  disabled = record {
    Feed = Unit {0};
    Found = Unit {0};
    start = esp_err_not_supported;
    acquire_input = λ s. (none, s);
    submit = λ s input. s;
    discard = λ s input. s;
    get_boxes = λ s most. [];
  }

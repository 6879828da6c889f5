-- ===== src/Detect/Pedestrian.antt =====
-- main/task/task_detect.cpp: the start of the detector, and the buffers that it lends. What it hands
-- out as a token is the element, here its place in the pool.
use esp32_ipc.Base.{ℕ, not, Bool, true, false, if◌then◌else◌, Option, none, some}
use esp32_ipc.Base.Int.{pos}
use esp32_ipc.Esp.{EspErr, esp_ok, esp_fail, esp_err_no_mem, is_ok, Semaphore}
use esp32_ipc.FramePool.{Pool, acquire, submit, release}

-- `det_input_t`
pub record DetInput : Type 0 where
  pub token : ℕ
  pub buffer_at : ℕ

module _ (S : Semaphore) where
  open S use {Sem}

  -- What `ped_start` leaves in the statics, and whether the task runs.
  pub record Started : Type 0 where
    pub feed : Option (Pool Sem)
    pub box_mutex : Bool
    pub model : Bool
    pub running : Bool

  -- `ped_start`, by what `frame_pool_new` answers and leaves in `s_feed`, and by whether the mutex, the
  -- model and the task can be made.
  unfoldable pub ped_start : EspErr × Option (Pool Sem) → Bool → Bool → Bool → EspErr × Started
  ped_start (made, feed) mutex model task =
      if not (is_ok made)
      then (
        esp_err_no_mem,
        record { feed = feed; box_mutex = false; model = false; running = false },
      )
      else if not mutex
      then (
        esp_err_no_mem,
        record { feed = feed; box_mutex = false; model = false; running = false },
      )
      else if not model
      then (
        esp_err_no_mem,
        record { feed = feed; box_mutex = true; model = false; running = false },
      )
      else if not task
      then (esp_fail, record { feed = feed; box_mutex = true; model = true; running = false })
      else (esp_ok, record { feed = feed; box_mutex = true; model = true; running = true })

  -- The buffer of an element of a pool, 0 of no pool.
  abbrev pub buffer_of : Option (Pool Sem) → ℕ → ℕ
  buffer_of none i = 0
  buffer_of (some p) i = (p.element i).buffer

  -- `ped_acquire_input`, and the `in` that it fills.
  unfoldable pub acquire_input : Option (Pool Sem) → Option DetInput × Option (Pool Sem)
  acquire_input feed =
      let (elem, feed') = acquire feed in
      elim elem [
        | none ↦ (none, feed')
        | some i ↦ (some (record { token = i; buffer_at = buffer_of feed' i }), feed')
      ]

  -- `ped_submit`
  unfoldable pub submit_input : Option (Pool Sem) → DetInput → Option (Pool Sem)
  submit_input feed input = (submit S feed (some input.token)).1

  -- The field `index` of an element.
  abbrev pub index_of : Option (Pool Sem) → ℕ → ℕ
  index_of none i = 0
  index_of (some p) i = (p.element i).index

  -- `ped_discard`
  unfoldable pub discard_input : Option (Pool Sem) → DetInput → Option (Pool Sem)
  discard_input feed input = (release feed (pos (index_of feed input.token))).1

-- ===== src/Hal/Device.antt =====
-- A V4L2 device of esp_video as main/hal/hal_video_capture.c and main/hal/hal_h264_encoder.c call it:
-- an interface, with what V4L2 documents of its buffer queues as laws.
pub mod Outcome
use esp32_ipc.Base.{ℕ, suc, ◌-◌, ◌<◌, ◌≡◌, ◌==◌, if◌then◌else◌, Bool, Option, none, some}

-- The two queues of a device: `V4L2_BUF_TYPE_VIDEO_CAPTURE` is what it fills,
-- `V4L2_BUF_TYPE_VIDEO_OUTPUT` is what it reads.
pub data Queue : Type 0 where
  capture output : Queue

pub data PixelFormat : Type 0 where
  yuv420 h264 : PixelFormat

pub data Control : Type 0 where
  i_period bitrate min_qp max_qp force_key_frame : Control

-- The calls of `ioctl` that the firmware makes. `reqbufs` has a count, `qbuf` an index; that of a
-- buffer of the user also has its address and its length.
pub data Request : Type 0 where
  s_dqbuf_timeout : ℕ → ℕ → Request
  s_ext_ctrl : Control → ℕ → Request
  s_fmt : Queue → ℕ → ℕ → PixelFormat → ℕ → Request
  reqbufs : Queue → ℕ → Request
  querybuf : Queue → ℕ → Request
  qbuf : Queue → ℕ → Request
  qbuf_userptr : ℕ → ℕ → ℕ → Request
  dqbuf : Queue → Request
  streamon : Queue → Request

-- What a call leaves in its `struct v4l2_buffer`.
pub record Reply : Type 0 where
  pub index : ℕ
  pub bytesused : ℕ
  pub flag_error : Bool
  pub length : ℕ
  pub offset : ℕ

-- How often the driver has buffer `i` of a queue after a call that succeeds with a reply, of how often
-- it had it before.
abbrev pub after : Request → Reply → Queue → ℕ → ℕ → ℕ
after (reqbufs capture count) x capture i n = 0
after (reqbufs output count) x output i n = 0
after (qbuf capture index) x capture i n = if i == index then suc n else n
after (qbuf output index) x output i n = if i == index then suc n else n
after (qbuf_userptr index address length) x output i n = if i == index then suc n else n
after (dqbuf capture) x capture i n = if i == x.index then n - 1 else n
after (dqbuf output) x output i n = if i == x.index then n - 1 else n
after _ x _ i n = n

pub record Device : Type 1 where
  pub Dev : Type 0
  -- Whether `open` answers a descriptor.
  pub opens : Dev → Bool
  -- Nothing when `ioctl` does not answer 0.
  pub ioctl : Request → Dev → Option Reply × Dev
  -- The address that `mmap` answers for a length and an offset, 0 for `NULL`.
  pub mmap : Dev → ℕ → ℕ → ℕ
  -- How often the driver has a buffer of a queue, by its index.
  pub queued : Dev → Queue → ℕ → ℕ
  pub queued_ok :
      (r : Request) (q : Queue) (d d' : Dev) (x : Reply)
      → ioctl r d ≡ (some x, d')
      → (i : ℕ) → queued d' q i ≡ after r x q i (queued d q i)
  pub queued_fail :
      (r : Request) (q : Queue) (d d' : Dev)
      → ioctl r d ≡ (none, d')
      → (i : ℕ) → queued d' q i ≡ queued d q i
  pub dqbuf_some :
      (q : Queue) (d d' : Dev) (x : Reply)
      → ioctl (dqbuf q) d ≡ (some x, d')
      → 0 < queued d q x.index
  -- A buffer that the driver has is not taken a second time.
  pub userptr_once :
      (index address length : ℕ) (d d' : Dev) (x : Reply)
      → ioctl (qbuf_userptr index address length) d ≡ (some x, d')
      → queued d output index ≡ 0

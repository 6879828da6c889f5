-- ===== src/Boot.antt =====
-- What main/app_main.cpp brings up, main/hal/hal_netif.c, hal_video_init.c and hal_audio.c with it,
-- and the start of the tasks: the calls of drivers that they make, in the order made, and the statics
-- that they leave. The
-- drivers are an argument: they answer a call as they like, and differently each time.
pub mod Netif
pub mod Camera
pub mod Codec
pub mod Main
pub mod Protocol
pub mod Tests
use esp32_ipc.Base.{ℕ, ◌==◌, not, Bool, true, false, List, ◌∷◌, length}
use esp32_ipc.Esp.{EspErr, is_ok}
use esp32_ipc.Hal.Device.Outcome.{Outcome, fails, gives}

-- The tasks that the firmware creates.
pub data Task : Type 0 where
  speaker audio camera webrtc video_cap video_enc peer : Task

-- The calls of drivers and of FreeRTOS on the way up. A handle is a number, 0 for `NULL`.
pub data Call : Type 0 where
  -- hal_netif.c
  event_group_create netif_init event_loop_create : Call
  register_link register_got_ip wait_got_ip : Call
  create_wifi_sta wifi_init wifi_set_mode wifi_set_config wifi_start : Call
  eth_new_mac eth_new_phy netif_new : Call
  eth_driver_install : ℕ → ℕ → Call
  eth_new_glue : ℕ → Call
  netif_attach : ℕ → ℕ → Call
  eth_start : ℕ → Call
  -- hal_video_init.c
  video_init : Call
  -- hal_audio.c
  get_bus_handle : ℕ → Call
  i2s_new_channel : ℕ → Call
  i2s_init_std : ℕ → Call
  i2s_enable : ℕ → Call
  new_i2s_data : ℕ → ℕ → ℕ → Call
  new_gpio : Call
  new_i2c_ctrl : ℕ → ℕ → Call
  es8311_new : ℕ → ℕ → Call
  codec_dev_new : ℕ → ℕ → Call
  codec_open : ℕ → Call
  codec_set_out_vol : ℕ → ℕ → Call
  codec_set_in_gain : ℕ → Call
  -- app_main.cpp: the task, its stack, its priority and its core
  create_task : Task → ℕ → ℕ → ℕ → Call
  -- task_video.cpp
  ppa_register_client : Call
  vcap_open : ℕ → ℕ → Call
  h264_open : ℕ → ℕ → ℕ → ℕ → ℕ → ℕ → Call
  h264_start vcap_start detector_start : Call
  queue_create : ℕ → Call
  priority_set : ℕ → Call
  -- task_webrtc.cpp
  peer_init peer_deinit peer_connection_create : Call
  on_ice_state on_data_channel signaling_connect : ℕ → Call
  peer_connection_destroy : ℕ → Call
  -- task_speaker.cpp and task_audio.cpp
  stream_buffer_create : ℕ → ℕ → Call
  malloc : ℕ → Call
  free : ℕ → Call
  -- `vTaskDelete` of the task that calls it
  delete_self : Call

-- What a call answers: its error, and the handles that it returns or writes through its arguments.
pub record Answer : Type 0 where
  pub err : EspErr
  pub handle : ℕ
  pub second : ℕ

pub record Event : Type 0 where
  pub call : Call
  pub answer : Answer

-- The answers of the drivers, by how many calls there were before.
abbrev pub Drivers : Type 0
Drivers = ℕ → Call → Answer

-- The statics `s_event_group`, `s_is_init`, `s_codec`, `s_i2s_data_if`, `s_tx_handle`, `s_rx_handle`,
-- `s_ctx.ppa`, `s_ctx.cap_queue`, `s_pc` and `s_jitter`, and the calls that were made, the last one
-- first.
pub record Board : Type 0 where
  pub log : List Event
  pub event_group : ℕ
  pub is_init : Bool
  pub codec : ℕ
  pub i2s_data_if : ℕ
  pub tx_handle : ℕ
  pub rx_handle : ℕ
  pub ppa : ℕ
  pub cap_queue : ℕ
  pub pc : ℕ
  pub jitter : ℕ

-- A function of the firmware on the statics that answers a value, or ends with an error.
abbrev pub M : Type 0 → Type 0
M A = Board → Outcome Board A

infixl 5 ◌>>=◌ ◌>>◌
abbrev pub ◌>>=◌ : {A B : Type 0} → M A → (A → M B) → M B
◌>>=◌ m f b = elim (m b) [ fails e b' ↦ fails e b' | gives a b' ↦ f a b' ]

abbrev pub ◌>>◌ : {A B : Type 0} → M A → M B → M B
m >> k = m >>= λ _. k

abbrev pub done : M (Unit {0})
done b = gives tt b

abbrev pub assign : (Board → Board) → M (Unit {0})
assign f b = gives tt (f b)

-- An early `return ESP_OK`, if a test holds.
abbrev pub unless : Bool → M (Unit {0}) → M (Unit {0})
unless true m b = gives tt b
unless false m b = m b

-- A branch.
abbrev pub branch : {A : Type 0} → Bool → M A → M A → M A
branch true m k b = m b
branch false m k b = k b

abbrev pub pure : {A : Type 0} → A → M A
pure a b = gives a b

-- The rest, if a test holds, else an error.
abbrev pub when : {A : Type 0} → Bool → A → EspErr → Board → Outcome Board A
when true a e b = gives a b
when false a e b = fails e b

-- `ESP_RETURN_ON_FALSE` of a handle.
abbrev pub not_null : ℕ → EspErr → M (Unit {0})
not_null handle e b = when (not (handle == 0)) tt e b

module _ (d : Drivers) where
  -- The call, and what it answers.
  abbrev pub ask : Call → M Answer
  ask c b =
      let a = d (length b.log) c in
      gives a (record b { log = (record { call = c; answer = a }) ∷ b.log })

  -- `ESP_RETURN_ON_ERROR`
  abbrev pub on_error : Call → M Answer
  on_error c b =
      let a = d (length b.log) c in
      let b' : Board = record b { log = (record { call = c; answer = a }) ∷ b.log } in
      when (is_ok a.err) a a.err b'

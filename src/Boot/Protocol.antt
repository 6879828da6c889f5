-- ===== src/Boot/Protocol.antt =====
-- What the drivers ask of those who call them: the state that the calls put the board in, by what
-- ESP-IDF and the headers of main/ say of their order, and whether a call came out of order.
pub mod Steps
pub mod Codec
pub mod Netif
pub mod Kept
pub mod Main
pub mod Retry
use esp32_ipc.Base.{
  ℕ, ◌==◌, not, ◌&&◌, ◌||◌, suc, Bool, true, false, if◌then◌else◌, List, [], ◌∷◌, ◌≡◌,
}
use esp32_ipc.Esp.{is_ok}
use esp32_ipc.Boot.{
  Call, Answer, Event, Board, Task, speaker, audio, camera, event_loop_create, register_link,
  register_got_ip, wait_got_ip, wifi_init, wifi_set_mode, wifi_set_config, wifi_start,
  eth_driver_install, eth_new_glue, eth_start, video_init, get_bus_handle, i2s_new_channel,
  i2s_init_std, i2s_enable, new_i2s_data, new_i2c_ctrl, es8311_new, codec_dev_new, codec_open,
  codec_set_out_vol, codec_set_in_gain, create_task,
}

-- What the calls so far have brought up.
pub record Devices : Type 0 where
  pub loop_made : Bool
  pub link_handler : Bool
  pub ip_handler : Bool
  pub wifi_up : Bool
  pub wifi_mode : Bool
  pub eth_up : Bool
  pub started : Bool
  pub online : Bool
  pub video : Bool
  pub tx : ℕ
  pub rx : ℕ
  pub tx_set : Bool
  pub rx_set : Bool
  pub tx_on : Bool
  pub rx_on : Bool
  pub channels : ℕ
  pub data_if : ℕ
  pub dev : ℕ
  pub opened : Bool
  pub volume_set : Bool
  pub gain_set : Bool
  pub in_order : Bool

abbrev pub nothing_up : Devices
nothing_up = record {
  loop_made = false;
  link_handler = false;
  ip_handler = false;
  wifi_up = false;
  wifi_mode = false;
  eth_up = false;
  started = false;
  online = false;
  video = false;
  tx = 0;
  rx = 0;
  tx_set = false;
  rx_set = false;
  tx_on = false;
  rx_on = false;
  channels = 0;
  data_if = 0;
  dev = 0;
  opened = false;
  volume_set = false;
  gain_set = false;
  in_order = true;
}

-- A call that asks for `needed`.
abbrev pub asks : Bool → Devices → Devices
asks needed s = record s { in_order = s.in_order && needed }

-- The codec is opened and set.
abbrev pub sounds : Devices → Bool
sounds s = s.opened && s.volume_set && s.gain_set

-- A task that uses the network asks for an address, the camera also for the driver, and the audio
-- tasks for the codec.
abbrev pub ready_for : Task → Devices → Bool
ready_for speaker s = s.online && sounds s
ready_for audio s = s.online && sounds s
ready_for camera s = s.online && s.video
ready_for _ s = s.online

-- The board after a call that was answered with no error or with one.
abbrev pub after : Call → Answer → Bool → Devices → Devices
after event_loop_create a true s = record s { loop_made = true }
after register_link a ok s =
    let t = asks s.loop_made s in if ok then record t { link_handler = true } else t
after register_got_ip a ok s =
    let t = asks s.loop_made s in if ok then record t { ip_handler = true } else t
after wifi_init a ok s = let t = asks s.loop_made s in if ok then record t { wifi_up = true } else t
after wifi_set_mode a ok s =
    let t = asks s.wifi_up s in if ok then record t { wifi_mode = true } else t
after wifi_set_config a ok s = asks (s.wifi_up && s.wifi_mode) s
after wifi_start a ok s =
    let t = asks (s.wifi_mode && s.link_handler && s.ip_handler) s in
    if ok then record t { started = true } else t
after (eth_driver_install mac phy) a ok s =
    let t = asks (not (mac == 0) && not (phy == 0)) s in
    if ok then record t { eth_up = true } else t
after (eth_new_glue eth) a ok s = asks s.eth_up s
after (eth_start eth) a ok s =
    let t = asks (s.eth_up && s.link_handler && s.ip_handler) s in
    if ok then record t { started = true } else t
after wait_got_ip a ok s = record (asks (s.started && s.ip_handler) s) { online = true }
after video_init a ok s =
    let t = asks (not s.video) s in if ok then record t { video = true } else t
after (get_bus_handle port) a ok s = asks s.video s
after (i2s_new_channel port) a true s = record s {
  tx = a.handle;
  rx = a.second;
  tx_set = false;
  rx_set = false;
  tx_on = false;
  rx_on = false;
  channels = suc s.channels;
}
after (i2s_init_std channel) a ok s =
    let t = asks (channel == s.tx || channel == s.rx) s in
    if ok
    then record t { tx_set = s.tx_set || channel == s.tx; rx_set = s.rx_set || channel == s.rx }
    else t
after (i2s_enable channel) a ok s =
    let t = asks ((not (channel == s.tx) || s.tx_set) && (not (channel == s.rx) || s.rx_set)) s in
    if ok
    then record t { tx_on = s.tx_on || channel == s.tx; rx_on = s.rx_on || channel == s.rx }
    else t
after (new_i2s_data port rx tx) a ok s =
    record (asks (rx == s.rx && tx == s.tx && s.tx_on && s.rx_on && s.data_if == 0) s) {
      data_if = a.handle;
    }
after (new_i2c_ctrl port bus) a ok s = asks s.video s
after (es8311_new ctrl gpio) a ok s = asks (not (ctrl == 0) && not (gpio == 0)) s
after (codec_dev_new es8311 data_if) a ok s =
    record (asks (not (es8311 == 0) && not (data_if == 0) && data_if == s.data_if && s.dev == 0)
      s) { dev = a.handle; opened = false; volume_set = false; gain_set = false }
after (codec_open dev) a ok s =
    let t = asks (not (dev == 0) && dev == s.dev) s in if ok then record t { opened = true } else t
after (codec_set_out_vol dev volume) a ok s =
    let t = asks (dev == s.dev && s.opened) s in if ok then record t { volume_set = true } else t
after (codec_set_in_gain dev) a ok s =
    let t = asks (dev == s.dev && s.opened) s in if ok then record t { gain_set = true } else t
after (create_task task stack prio core) a ok s = asks (ready_for task s) s
after _ a ok s = s

-- The board after the calls of a log.
unfoldable pub devices : List Event → Devices
devices [] = nothing_up
devices (e ∷ log) = after e.call e.answer (is_ok e.answer.err) (devices log)

-- The calls were in order, and the statics say what the drivers have.
pub record IsSound (b : Board) : Type 0 where
  pub in_order : (devices b.log).in_order ≡ true
  pub init_same : (devices b.log).video ≡ b.is_init
  pub tx_same : (devices b.log).tx ≡ b.tx_handle
  pub rx_same : (devices b.log).rx ≡ b.rx_handle
  pub data_if_same : (devices b.log).data_if ≡ b.i2s_data_if
  pub dev_same : (devices b.log).dev ≡ b.codec

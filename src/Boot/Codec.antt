-- ===== src/Boot/Codec.antt =====
-- main/hal/hal_audio.c: the start of the audio codec and of the I2S channels behind it.
use esp32_ipc.Base.{not, ℕ, ◌==◌}
use esp32_ipc.Esp.{esp_fail}
use esp32_ipc.Hal.Device.Outcome.{fails, gives}
use esp32_ipc.Boot.{
  unless, ◌>>=◌, ◌>>◌, Board, Drivers, M, done, assign, not_null, ask, on_error, get_bus_handle,
  i2s_new_channel, i2s_init_std, i2s_enable, new_i2s_data, new_gpio, new_i2c_ctrl, es8311_new,
  codec_dev_new, codec_open, codec_set_out_vol, codec_set_in_gain,
}

-- `CONFIG_APP_AUDIO_I2C_NUM`, `CONFIG_APP_AUDIO_I2S_NUM` and `CONFIG_APP_AUDIO_VOLUME`, which the
-- builder chooses.
pub record CodecConfig : Type 0 where
  pub i2c_num : ℕ
  pub i2s_num : ℕ
  pub volume : ℕ

-- `hal_audio_get_handle`
unfoldable pub hal_audio_get_handle : Board → ℕ
hal_audio_get_handle b = b.codec

module _ (d : Drivers) (k : CodecConfig) where
  -- A call of the codec device, any failure of which is `ESP_FAIL`.
  unfoldable pub codec_step : M (Unit {0}) → M (Unit {0})
  codec_step m b = elim (m b) [ fails e b' ↦ fails esp_fail b' | gives a b' ↦ gives a b' ]

  -- The channels, from `i2s_new_channel` on.
  unfoldable pub new_channels : M (Unit {0})
  new_channels = do
    channel ← on_error d (i2s_new_channel k.i2s_num)
    assign (λ b. record b { tx_handle = channel.handle; rx_handle = channel.second })
    on_error d (i2s_init_std channel.handle)
    on_error d (i2s_init_std channel.second)
    on_error d (i2s_enable channel.handle)
    on_error d (i2s_enable channel.second)
    done

  -- `audio_i2s_init`
  unfoldable pub audio_i2s_init : M (Unit {0})
  unfolding new_channels
  audio_i2s_init b =
      unless (not (b.i2s_data_if == 0))
        (do
          new_channels
          face ← λ b. ask d (new_i2s_data k.i2s_num b.rx_handle b.tx_handle) b
          assign (λ b. record b { i2s_data_if = face.handle })
          not_null face.handle esp_fail)
        b

  -- The interfaces and the device of the codec, from `audio_codec_new_gpio` to `esp_codec_dev_new`.
  unfoldable pub new_codec : ℕ → M (Unit {0})
  new_codec bus = do
    gpio ← ask d new_gpio
    not_null gpio.handle esp_fail
    ctrl ← ask d (new_i2c_ctrl k.i2c_num bus)
    not_null ctrl.handle esp_fail
    es8311 ← ask d (es8311_new ctrl.handle gpio.handle)
    not_null es8311.handle esp_fail
    dev ← λ b. ask d (codec_dev_new es8311.handle b.i2s_data_if) b
    assign (λ b. record b { codec = dev.handle })
    not_null dev.handle esp_fail

  -- The codec is opened, and its volume and gain are set.
  unfoldable pub open_codec : M (Unit {0})
  unfolding codec_step
  open_codec = do
    λ b. codec_step (do on_error d (codec_open b.codec); done) b
    λ b. codec_step (do on_error d (codec_set_out_vol b.codec k.volume); done) b
    λ b. codec_step (do on_error d (codec_set_in_gain b.codec); done) b

  -- `hal_audio_init`
  unfoldable pub hal_audio_init : M (Unit {0})
  hal_audio_init b =
      unless (not (b.codec == 0))
        (do
          bus ← on_error d (get_bus_handle k.i2c_num)
          audio_i2s_init
          new_codec bus.handle
          open_codec)
        b

-- ===== src/Hal/Ppa.antt =====
-- main/hal/hal_ppa.c and hal_ppa.h: the frame is scaled down by the pixel accelerator. The driver is a
-- parameter; a scale factor is the ratio that the code writes, before any rounding of a float.
pub mod Exact
mod Tests
use esp32_ipc.Base.{ℕ, ◌*◌, ◌%◌, ◌==◌, Bool, if◌then◌else◌}
use esp32_ipc.Esp.{EspErr, esp_ok, is_ok}

-- `HAL_PPA_SCALE_IS_EXACT`
unfoldable pub scale_is_exact : ℕ → ℕ → Bool
scale_is_exact src dst = dst * 16 % src == 0

-- A ratio.
pub record Ratio : Type 0 where
  pub over : ℕ
  pub under : ℕ

-- What `hal_ppa_yuv420_to_rgb565` sets of `ppa_srm_oper_config_t`, whose other fields are constant.
pub record SrmConfig : Type 0 where
  pub in_buffer : ℕ
  pub in_pic_w : ℕ
  pub in_pic_h : ℕ
  pub in_block_w : ℕ
  pub in_block_h : ℕ
  pub out_buffer : ℕ
  pub out_buffer_size : ℕ
  pub out_pic_w : ℕ
  pub out_pic_h : ℕ
  pub scale_x : Ratio
  pub scale_y : Ratio

-- The configuration, by the addresses of the two buffers.
unfoldable pub srm_config : ℕ → ℕ → ℕ → ℕ → ℕ → ℕ → ℕ → SrmConfig
srm_config src src_w src_h dst dst_size dst_w dst_h = record {
  in_buffer = src;
  in_pic_w = src_w;
  in_pic_h = src_h;
  in_block_w = src_w;
  in_block_h = src_h;
  out_buffer = dst;
  out_buffer_size = dst_size;
  out_pic_w = dst_w;
  out_pic_h = dst_h;
  scale_x = record { over = dst_w; under = src_w };
  scale_y = record { over = dst_h; under = src_h };
}

module _ {Ppa : Type 0} (do_srm : SrmConfig → Ppa → EspErr × Ppa)
    (msync : ℕ → ℕ → Ppa → EspErr × Ppa) where
  -- `hal_ppa_yuv420_to_rgb565`: the accelerator, and then the cache of what it wrote.
  unfoldable pub yuv420_to_rgb565 : ℕ → ℕ → ℕ → ℕ → ℕ → ℕ → ℕ → Ppa → EspErr × Ppa
  yuv420_to_rgb565 src src_w src_h dst dst_size dst_w dst_h p =
      let (scaled, p') = do_srm (srm_config src src_w src_h dst dst_size dst_w dst_h) p in
      let (synced, p'') = msync dst dst_size p' in
      if is_ok scaled then (if is_ok synced then (esp_ok, p'') else (synced, p'')) else (scaled, p')

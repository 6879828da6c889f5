-- ===== src/Hal/Ppa/Exact.antt =====
-- When the accelerator fills its output.
use esp32_ipc.Base.{ℕ, ◌*◌, ◌/◌, ◌≤◌, ◌<◌, ◌≡◌, refl, ◌↔◌, true, arith}
use native.Mathlib.Nat.{div-add-mod, mod-lt}
use esp32_ipc.Config.{cam_width, cam_height, det_width, det_height}
use esp32_ipc.Hal.Ppa.{scale_is_exact, Ratio, srm_config, SrmConfig}

-- What hal_ppa.h says of the accelerator: it keeps a factor in steps of 1/16 and cuts off the rest, so
-- that `size` becomes
abbrev pub scaled : Ratio → ℕ → ℕ
scaled r size = size * (r.over * 16 / r.under) / 16

-- The output is filled: the picture that the accelerator makes of the input block has its size.
abbrev pub IsFilled : SrmConfig → Type 0
IsFilled c =
    (scaled c.scale_x c.in_block_w ≡ c.out_pic_w) × (scaled c.scale_y c.in_block_h ≡ c.out_pic_h)

-- One side of the picture fits, and fills the output's exactly when the scale is exact.
scaled_lem :
    (src dst : ℕ)
    → 0 < src
    → (scaled (record { over = dst; under = src }) src ≤ dst)
      × ((scaled (record { over = dst; under = src }) src ≡ dst) ↔ (scale_is_exact src dst ≡ true))
unfolding scale_is_exact
scaled_lem src dst h =
    let whole = div-add-mod (dst * 16) src in
    let rest = mod-lt (dst * 16) h in
    (omega (arith, whole), ((λ e. ground (arith, whole, rest)), (λ e. ground (arith, whole))))

-- The picture never passes the size of the output, and fills it exactly when `HAL_PPA_SCALE_IS_EXACT`
-- holds of both pairs of sizes: otherwise rows or columns of the output stay as they were.
pub srm_config-IsFilled :
    (src src_w src_h dst dst_size dst_w dst_h : ℕ)
    → 0 < src_w
    → 0 < src_h
    → let c = srm_config src src_w src_h dst dst_size dst_w dst_h in
      (scaled c.scale_x c.in_block_w ≤ dst_w)
      × (scaled c.scale_y c.in_block_h ≤ dst_h)
      × (IsFilled c ↔ ((scale_is_exact src_w dst_w ≡ true) × (scale_is_exact src_h dst_h ≡ true)))
unfolding srm_config
srm_config-IsFilled src src_w src_h dst dst_size dst_w dst_h w h =
    let (low_w, iff_w) = scaled_lem src_w dst_w w in
    let (low_h, iff_h) = scaled_lem src_h dst_h h in
    (low_w, low_h, ((λ f. (iff_w.0 f.0, iff_h.0 f.1)), (λ e. (iff_w.1 e.0, iff_h.1 e.1))))

-- The static assertions of main/task/task_video.cpp hold.
det_exact :
    (scale_is_exact cam_width det_width ≡ true) × (scale_is_exact cam_height det_height ≡ true)
unfolding scale_is_exact
det_exact = (refl, refl)

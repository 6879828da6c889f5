-- ===== src/Osd/Draw.antt =====
-- main/core/osd.c: `draw_hrun` and `draw_vrun`. The frame is a function from byte offsets; the
-- runs get coordinates that are clipped already, so they are natural numbers.
pub mod Hrun
pub mod Vrun
pub mod Apart
pub mod Paint
use esp32_ipc.Base.{ℕ, zero, suc, ◌+◌, ◌*◌, ◌/◌, bit_and, leb, ◌==◌, if◌then◌else◌, store}

abbrev pub Frame : Type 0
Frame = ℕ → ℕ

-- `y & 1 ? vc : uc`
abbrev pub chroma : ℕ → ℕ → ℕ → ℕ
chroma y uc vc = if bit_and y 1 == 0 then uc else vc

-- A frame on the way, with the column that the run has reached.
pub record Cursor : Type 0 where
  pub frame : Frame
  pub x : ℕ

-- `if (x & 1) …`: an odd leading pixel, the second luma of its group.
unfoldable pub hrun_lead : Frame → ℕ → ℕ → ℕ → ℕ → Cursor
hrun_lead m line x yc c =
    if bit_and x 1 == 0
    then record { frame = m; x = x }
    else let g = line + x / 2 * 3 in record { frame = store (store m g c) (g + 2) yc; x = x + 1 }

-- `for (; x + 1 <= x2; x += 2)`: whole groups, on fuel.
unfoldable pub hrun_groups : ℕ → Frame → ℕ → ℕ → ℕ → ℕ → ℕ → Cursor
hrun_groups zero m line x x2 yc c = record { frame = m; x = x }
hrun_groups (suc fuel) m line x x2 yc c =
    let g = line + x / 2 * 3 in
    let rest =
      hrun_groups fuel (store (store (store m g c) (g + 1) yc) (g + 2) yc) line (x + 2) x2 yc c in
    if leb (x + 1) x2 then rest else record { frame = m; x = x }

-- `if (x == x2) …`: an even trailing pixel, the first luma of its group.
unfoldable pub hrun_tail : Cursor → ℕ → ℕ → ℕ → ℕ → Frame
hrun_tail s line x2 yc c =
    if s.x == x2
    then (let g = line + s.x / 2 * 3 in store (store s.frame g c) (g + 1) yc)
    else s.frame

-- `draw_hrun`. Each round of the loop moves two columns on, so `x2` rounds are enough.
unfoldable pub draw_hrun : Frame → ℕ → ℕ → ℕ → ℕ → ℕ → ℕ → ℕ → Frame
draw_hrun m stride y x1 x2 yc uc vc =
    let line = y * stride in
    let c = chroma y uc vc in
    let s = hrun_lead m line x1 yc c in
    hrun_tail (hrun_groups x2 s.frame line s.x x2 yc c) line x2 yc c

-- `for (int y = y1; y <= y2; ++y, p += stride)`, on fuel; `p` is an offset.
unfoldable pub vrun_rows : ℕ → Frame → ℕ → ℕ → ℕ → ℕ → ℕ → ℕ → ℕ → ℕ → Frame
vrun_rows zero m stride luma p y y2 yc uc vc = m
vrun_rows (suc fuel) m stride luma p y y2 yc uc vc =
    let rest =
      vrun_rows fuel (store (store m (p + luma) yc) p (chroma y uc vc)) stride luma (p + stride)
        (suc y) y2 yc uc vc in
    if leb y y2 then rest else m

-- `draw_vrun`. `y2 + 1` rounds are enough.
unfoldable pub draw_vrun : Frame → ℕ → ℕ → ℕ → ℕ → ℕ → ℕ → ℕ → Frame
draw_vrun m stride x y1 y2 yc uc vc =
    vrun_rows (suc y2) m stride (1 + bit_and x 1) (y1 * stride + x / 2 * 3) y1 y2 yc uc vc

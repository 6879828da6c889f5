-- ===== src/Osd/Draw/Hrun.antt =====
-- A horizontal run, byte by byte, against the description of the packed line.
use esp32_ipc.Base.{
  ℕ, zero, suc, ◌+◌, ◌-◌, ◌*◌, ◌/◌, ◌%◌, ◌≤◌, ◌<◌, ◌≡◌, inl, inr, refl, arith, ◌&&◌, leb, ◌==◌,
  store, bit_and, Bool-cases, ◌∙◌, if◌then◌else◌,
}
use esp32_ipc.Base.Bits.{bit_and-one}
use esp32_ipc.Osd.Draw.{Frame, Cursor, chroma, hrun_lead, hrun_groups, hrun_tail, draw_hrun}

-- Byte `o` of a line belongs to group `o / 3`: its chroma, its first luma, its second luma. A run
-- over `x1..x2` gives it the value `v` if the byte is one of a pixel of the run.
abbrev pub run_byte : ℕ → ℕ → ℕ → ℕ → ℕ → ℕ → ℕ
run_byte x1 x2 yc c old o =
    let g = o / 3 in
    if o % 3 == 0
    then (if leb (x1 / 2) g && leb g (x2 / 2) then c else old)
    else (let x = 2 * g + (o % 3 - 1) in if leb x1 x && leb x x2 then yc else old)

module _ (line yc c : ℕ) where
  abbrev group : Frame → ℕ → Frame
  group m x = let g = line + x / 2 * 3 in store (store (store m g c) (g + 1) yc) (g + 2) yc

  groups-below :
      (fuel : ℕ) (m : Frame) (x x2 a : ℕ)
      → a < line
      → (hrun_groups fuel m line x x2 yc c).frame a ≡ m a
  unfolding hrun_groups
  groups-below zero m x x2 a h = refl
  groups-below (suc fuel) m x x2 a h = ground (arith, groups-below fuel (group m x) (x + 2) x2 a)

  -- From an even column on: the column that is reached, and whole groups up to the last pair.
  groups-x :
      (fuel : ℕ) (m : Frame) (x x2 : ℕ)
      → x % 2 ≡ 0
      → x2 < x + 2 * fuel + 1
      → (hrun_groups fuel m line x x2 yc c).x ≡ (if leb x x2 then (x2 + 1) / 2 * 2 else x)
  unfolding hrun_groups
  groups-x zero m x x2 e h = ground arith
  groups-x (suc fuel) m x x2 e h = ground (arith, groups-x fuel (group m x) (x + 2) x2)

  groups_bytes :
      (fuel : ℕ) (m : Frame) (x x2 o : ℕ)
      → x % 2 ≡ 0
      → x2 < x + 2 * fuel + 1
      → (hrun_groups fuel m line x x2 yc c).frame (line + o) ≡ (
          if leb (x / 2) (o / 3) && leb (2 * (o / 3) + 1) x2
          then (if o % 3 == 0 then c else yc)
          else m (line + o))
  unfolding hrun_groups
  groups_bytes zero m x x2 o e h = ground arith
  groups_bytes (suc fuel) m x x2 o e h = ground (arith, groups_bytes fuel (group m x) (x + 2) x2 o)

module _ (line yc c x2 : ℕ) where
  finish_bytes :
      (m : Frame) (x o : ℕ)
      → x % 2 ≡ 0
      → x ≤ x2 + 1
      → hrun_tail (hrun_groups x2 m line x x2 yc c) line x2 yc c (line + o)
        ≡ run_byte x x2 yc c (m (line + o)) o
  unfolding hrun_tail
  finish_bytes m x o e h =
      ground (arith, groups-x line yc c x2 m x x2, groups_bytes line yc c x2 m x x2 o)

  finish-below :
      (s : Cursor) (a : ℕ)
      → a < line
      → hrun_tail (hrun_groups x2 s.frame line s.x x2 yc c) line x2 yc c a ≡ s.frame a
  unfolding hrun_tail
  finish-below s a h = ground (arith, groups-below line yc c x2 s.frame s.x x2 a)

  lead-below : (m : Frame) (x a : ℕ) → a < line → (hrun_lead m line x yc c).frame a ≡ m a
  unfolding hrun_lead
  lead-below m x a h = ground arith

  run_bytes :
      (m : Frame) (x o : ℕ)
      → x ≤ x2
      → let s = hrun_lead m line x yc c in
        hrun_tail (hrun_groups x2 s.frame line s.x x2 yc c) line x2 yc c (line + o)
        ≡ run_byte x x2 yc c (m (line + o)) o
  unfolding hrun_lead
  run_bytes m x o h = elim (Bool-cases (bit_and x 1 == 0)) [
    | inl even ↦ rw even (finish_bytes m x o (ground (arith, bit_and-one x)) (omega arith))
    | inr odd ↦
        let parity : x % 2 ≡ 1 = ground (arith, bit_and-one x) in
        rw
          (
            odd,
            finish_bytes (store (store m (line + x / 2 * 3) c) (line + x / 2 * 3 + 2) yc) (x + 1) o
                (omega arith) (omega arith),
          )
          (ground arith)
  ]

module _ (m : Frame) (stride y x1 x2 yc uc vc : ℕ) where
  -- No byte before the line is written.
  pub draw_hrun-below : (a : ℕ) → a < y * stride → draw_hrun m stride y x1 x2 yc uc vc a ≡ m a
  unfolding draw_hrun
  draw_hrun-below a h =
      finish-below (y * stride) yc (chroma y uc vc) x2 _ a h
      ∙ lead-below (y * stride) yc (chroma y uc vc) x2 m x1 a h

  -- `draw_hrun` over columns `x1..x2` of line `y` gives every byte of the line and after it the
  -- value that the packed layout says: the luma of exactly those columns, the chroma of exactly
  -- their groups, and the old value everywhere else.
  pub draw_hrun_bytes :
      (o : ℕ)
      → x1 ≤ x2
      → draw_hrun m stride y x1 x2 yc uc vc (y * stride + o)
        ≡ run_byte x1 x2 yc (chroma y uc vc) (m (y * stride + o)) o
  unfolding draw_hrun
  draw_hrun_bytes o h = run_bytes (y * stride) yc (chroma y uc vc) x2 m x1 o h

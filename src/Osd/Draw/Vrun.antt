-- ===== src/Osd/Draw/Vrun.antt =====
-- A vertical run, byte by byte: one pixel in each of its rows.
use esp32_ipc.Base.{
  ℕ, zero, suc, ◌+◌, ◌*◌, ◌/◌, ◌%◌, ◌<◌, ◌≡◌, ◌≢◌, inl, inr, refl, arith, true, ◌&&◌, leb, ◌==◌,
  store, bit_and, Bool-cases, if◌then◌else◌, dec_lt, ℕ_discrete, ◌∙◌,
}
use esp32_ipc.Base.Bits.{bit_and-one}
use esp32_ipc.Osd.Draw.{Frame, chroma, vrun_rows, draw_vrun}

pub row_lt : (s y y' o o' : ℕ) → o < s → y < y' → y * s + o < y' * s + o'
row_lt s y y' o o' h k = grind arith

-- Offsets in two lines are different.
pub row_ne : (s y y' o o' : ℕ) → o < s → o' < s → y ≢ y' → y * s + o ≢ y' * s + o'
row_ne s y y' o o' h h' ne = elim (dec_lt y y') [
  | yes p ↦ omega (arith, row_lt s y y' o o' h p)
  | no p ↦ omega (arith, row_lt s y' y o' o h' (omega arith))
]

-- Byte `o` of a line that the run over column `x` passes through.
abbrev pub column_byte : ℕ → ℕ → ℕ → ℕ → ℕ → ℕ
column_byte x yc c old o =
    if o == x / 2 * 3 then c else if o == x / 2 * 3 + (1 + x % 2) then yc else old

module _ (stride x y2 yc uc vc : ℕ) (fits : x / 2 * 3 + 2 < stride) where
  abbrev dot : Frame → ℕ → Frame
  dot m y =
      store (store m (y * stride + x / 2 * 3 + (1 + bit_and x 1)) yc) (y * stride + x / 2 * 3)
        (chroma y uc vc)

  dot_bytes :
      (m : Frame) (y y' o : ℕ)
      → o < stride
      → dot m y (y' * stride + o) ≡ (
          if y' == y
          then column_byte x yc (chroma y uc vc) (m (y' * stride + o)) o
          else m (y' * stride + o))
  dot_bytes m y y' o h = elim (ℕ_discrete y' y) [
    | yes e ↦ rw e (ground (arith, bit_and-one x))
    | no ne ↦ ground (
      arith,
      bit_and-one x,
      row_ne stride y' y o (x / 2 * 3),
      row_ne stride y' y o (x / 2 * 3 + (1 + x % 2)),
    )
  ]

  vrun_bytes :
      (fuel : ℕ) (m : Frame) (p y y' o : ℕ)
      → p ≡ y * stride + x / 2 * 3
      → y2 < y + fuel
      → o < stride
      → vrun_rows fuel m stride (1 + bit_and x 1) p y y2 yc uc vc (y' * stride + o) ≡ (
          if leb y y' && leb y' y2
          then column_byte x yc (chroma y' uc vc) (m (y' * stride + o)) o
          else m (y' * stride + o))
  unfolding vrun_rows
  vrun_bytes zero m p y y' o e k h = ground arith
  vrun_bytes (suc fuel) m p y y' o e k h = elim (Bool-cases (leb y y2)) [
    | inl more ↦
        rw (e, more)
          (vrun_bytes fuel (dot m y) (y * stride + x / 2 * 3 + stride) (suc y) y' o (grind arith)
              (omega arith) h
            ∙ rw (dot_bytes m y y' o h) (split more))
    | inr done ↦ rw done (ground arith)
  ]
    where
      old : ℕ
      old = m (y' * stride + o)

      split :
          leb y y2 ≡ true
          → (if leb (suc y) y' && leb y' y2
              then column_byte x yc
                  (chroma y' uc vc)
                  (if y' == y then column_byte x yc (chroma y uc vc) old o else old)
                  o
              else (if y' == y then column_byte x yc (chroma y uc vc) old o else old))
            ≡ (if leb y y' && leb y' y2 then column_byte x yc (chroma y' uc vc) old o else old)
      split more = elim (ℕ_discrete y' y) [
        | yes same ↦ rw same (ground arith)
        | no other ↦ ground arith
      ]

-- `draw_vrun` over rows `y1..y2` of column `x` gives every byte of every line the value that the
-- packed layout says: the luma and the chroma of that column in exactly those rows, and the old
-- value everywhere else. The column's group must lie within the line.
pub draw_vrun_bytes :
    (m : Frame) (stride x y1 y2 yc uc vc y o : ℕ)
    → x / 2 * 3 + 2 < stride
    → o < stride
    → draw_vrun m stride x y1 y2 yc uc vc (y * stride + o) ≡ (
        if leb y1 y && leb y y2
        then column_byte x yc (chroma y uc vc) (m (y * stride + o)) o
        else m (y * stride + o))
unfolding draw_vrun
draw_vrun_bytes m stride x y1 y2 yc uc vc y o fits h =
    vrun_bytes stride x y2 yc uc vc fits (suc y2) m (y1 * stride + x / 2 * 3) y1 y o refl
      (omega arith) h

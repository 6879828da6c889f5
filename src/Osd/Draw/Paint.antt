-- ===== src/Osd/Draw/Paint.antt =====
-- Drawing as painting a set of pixels: which bytes of the packed layout a set of pixels owns, and
-- the sets that `draw_hrun` and `draw_vrun` paint.
use esp32_ipc.Base.{
  ℕ, ◌+◌, ◌-◌, ◌*◌, ◌/◌, ◌%◌, ◌≤◌, ◌<◌, ◌≡◌, arith, Bool, false, ◌&&◌, ◌||◌, leb, ◌==◌,
  if◌then◌else◌, ℕ_discrete, ◌∙◌,
}
use esp32_ipc.Osd.Draw.{Frame, chroma, draw_hrun, draw_vrun}
use esp32_ipc.Osd.Draw.Hrun.{draw_hrun_bytes}
use esp32_ipc.Osd.Draw.Apart.{draw_hrun-SameAt}
use esp32_ipc.Osd.Draw.Vrun.{draw_vrun_bytes}

-- A set of pixels, by column and row.
abbrev pub Pixels : Type 0
Pixels = ℕ → ℕ → Bool

abbrev pub between : ℕ → ℕ → ℕ → Bool
between lo hi v = leb lo v && leb v hi

abbrev pub rect : ℕ → ℕ → ℕ → ℕ → Pixels
rect x1 x2 y1 y2 x y = between y1 y2 y && between x1 x2 x

abbrev pub both : Pixels → Pixels → Pixels
both p q x y = p x y || q x y

-- Whether byte `o` of line `y` belongs to a pixel of the set: group `o / 3` holds the chroma of
-- columns `2 g` and `2 g + 1`, then the luma of either.
abbrev pub owns : Pixels → ℕ → ℕ → Bool
owns p y o =
    let g = o / 3 in
    if o % 3 == 0 then p (2 * g) y || p (2 * g + 1) y else p (2 * g + (o % 3 - 1)) y

-- What byte `o` of line `y` is on a pixel that is painted.
abbrev pub ink : ℕ → ℕ → ℕ → ℕ → ℕ → ℕ
ink yc uc vc y o = if o % 3 == 0 then chroma y uc vc else yc

-- `m'` is `m` with exactly the pixels of the set painted.
pub record Paints (stride yc uc vc : ℕ) (p : Pixels) (m m' : Frame) : Type 0 where
  pub bytes :
      (y o : ℕ)
      → o < stride
      → m' (y * stride + o) ≡ (if owns p y o then ink yc uc vc y o else m (y * stride + o))

module _ (stride yc uc vc : ℕ) where
  -- Painting one set and then another paints both.
  pub Paints-then :
      (p q : Pixels) (m m' m'' : Frame)
      → Paints stride yc uc vc p m m'
      → Paints stride yc uc vc q m' m''
      → Paints stride yc uc vc (both p q) m m''
  Paints-then p q m m' m'' h k = record {
    bytes = λ y o fit. ground (arith, h.bytes y o fit, k.bytes y o fit);
  }

  pub Paints-cong :
      (p q : Pixels) (m m' : Frame)
      → ((x y : ℕ) → p x y ≡ q x y)
      → Paints stride yc uc vc p m m'
      → Paints stride yc uc vc q m m'
  Paints-cong p q m m' e h = record {
    bytes = λ y o fit. ground (
      arith,
      h.bytes y o fit,
      e (2 * (o / 3)) y,
      e (2 * (o / 3) + 1) y,
      e (2 * (o / 3) + (o % 3 - 1)) y,
    );
  }

  pub Paints-none : (m : Frame) → Paints stride yc uc vc (λ x y. false) m m
  Paints-none m = record { bytes = λ y o fit. ground arith }

  pub draw_hrun-Paints :
      (m : Frame) (y x1 x2 : ℕ)
      → x2 / 2 * 3 + 2 < stride
      → x1 ≤ x2
      → Paints stride yc uc vc (rect x1 x2 y y) m (draw_hrun m stride y x1 x2 yc uc vc)
  draw_hrun-Paints m y x1 x2 fits h = record {
    bytes = λ y' o fit. elim (ℕ_discrete y' y) [
      | yes e ↦ rw e (draw_hrun_bytes m stride y x1 x2 yc uc vc o h ∙ ground arith)
      | no ne ↦ draw_hrun-SameAt m stride y x1 x2 yc uc vc y' o fits h fit ne ∙ ground arith
    ];
  }

  pub draw_vrun-Paints :
      (m : Frame) (x y1 y2 : ℕ)
      → x / 2 * 3 + 2 < stride
      → Paints stride yc uc vc (rect x x y1 y2) m (draw_vrun m stride x y1 y2 yc uc vc)
  draw_vrun-Paints m x y1 y2 fits = record {
    bytes = λ y o fit. draw_vrun_bytes m stride x y1 y2 yc uc vc y o fits fit ∙ ground arith;
  }

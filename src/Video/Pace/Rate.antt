-- ===== src/Video/Pace/Rate.antt =====
-- The rate that the pacing lets through.
use esp32_ipc.Base.{
  ℕ, zero, suc, ◌+◌, ◌*◌, ◌≤◌, ◌<◌, ◌≡◌, ◌≢◌, arith, true, false, inl, inr, ◌⊎◌, List, [], ◌∷◌,
  ◌++◌, get_elem?, some, subst,
}
use esp32_ipc.Config.{video_frame_interval_us}
use esp32_ipc.Video.Pace.{on_frame_grid, keep, paced}

-- A frame that passes moves the grid on by an interval at least, to a time after the frame and at
-- most an interval after it; a frame that does not pass came early, and leaves the grid.
pub on_frame_grid_lem :
    (now next_us : ℕ)
    → let (passes, next_us') = on_frame_grid now next_us in
      ((passes ≡ true)
        × (next_us ≤ now)
        × (next_us + video_frame_interval_us ≤ next_us')
        × (now < next_us')
        × (next_us' ≤ now + video_frame_interval_us))
      ⊎ ((passes ≡ false) × (now < next_us) × (next_us' ≡ next_us))
unfolding on_frame_grid
on_frame_grid_lem now next_us = ground arith

-- What holds of the frames after one that passes holds of it and them.
kept_after :
    (now next_us next_us' : ℕ) (rest : List ℕ)
    → next_us ≤ now
    → next_us + video_frame_interval_us ≤ next_us'
    → ((m b : ℕ) → get_elem? rest m ≡ some b → next_us' + m * video_frame_interval_us ≤ b)
    → (m b : ℕ) → get_elem? (now ∷ rest) m ≡ some b
    → next_us + m * video_frame_interval_us ≤ b
kept_after now next_us next_us' rest low up later zero b e = grind arith
kept_after now next_us next_us' rest low up later (suc m) b e = let ih = later m b e in omega arith

-- A frame that passes is at or after the grid, and the one that is `m` later by as many intervals.
paced_after :
    (times : List ℕ) (next_us m b : ℕ)
    → get_elem? (paced next_us times) m ≡ some b
    → next_us + m * video_frame_interval_us ≤ b
unfolding paced keep
paced_after [] next_us m b e = ground arith
paced_after (now ∷ times) next_us m b e = elim (on_frame_grid_lem now next_us) [
  | inl (passes, low, up, soon, near) ↦
      kept_after now next_us _ _ low up (λ m b. paced_after times _ m b) m b (rw passes at e)
  | inr (drops, early, kept) ↦ paced_after times next_us m b (rw (drops, kept) at e)
]

at_index : (xs : List ℕ) (i j b : ℕ) → i ≡ j → get_elem? xs i ≡ some b → get_elem? xs j ≡ some b
at_index xs i j b p e = subst (λ k. get_elem? xs k ≡ some b) p e

-- A frame that passes, and the ones that pass after it.
kept_rate :
    (now next_us : ℕ) (times : List ℕ) (i m a b : ℕ)
    → now < next_us
    → ((i' : ℕ)
        → get_elem? (paced next_us times) i' ≡ some a
        → get_elem? (paced next_us times) (suc (i' + m)) ≡ some b
        → a + m * video_frame_interval_us < b)
    → get_elem? (now ∷ paced next_us times) i ≡ some a
    → get_elem? (now ∷ paced next_us times) (suc (i + m)) ≡ some b
    → a + m * video_frame_interval_us < b
kept_rate now next_us times zero m a b soon later ea eb =
    let far =
      paced_after times next_us m b (at_index (paced next_us times) (0 + m) m b (omega arith) eb) in
    ground arith
kept_rate now next_us times (suc i) m a b soon later ea eb =
    later i ea (at_index (paced next_us times) (suc i + m) (suc (i + m)) b (omega arith) eb)

-- Of the frames that pass, the one that comes `m + 1` after another was captured more than `m`
-- intervals after it, whatever the times of capture: a late start or a long stall lets no burst of
-- frames through.
pub paced_rate :
    (times : List ℕ) (next_us i m a b : ℕ)
    → get_elem? (paced next_us times) i ≡ some a
    → get_elem? (paced next_us times) (suc (i + m)) ≡ some b
    → a + m * video_frame_interval_us < b
unfolding paced keep
paced_rate [] next_us i m a b ea eb = ground arith
paced_rate (now ∷ times) next_us i m a b ea eb = elim (on_frame_grid_lem now next_us) [
  | inl (passes, low, up, soon, near) ↦
      kept_rate now _ times i m a b soon (λ i'. paced_rate times _ i' m a b) (rw passes at ea)
        (rw passes at eb)
  | inr (drops, early, kept) ↦
      paced_rate times next_us i m a b (rw (drops, kept) at ea) (rw (drops, kept) at eb)
]

-- Some frame passes once one is captured at or after the grid.
paced_reaches :
    (times : List ℕ) (next_us last : ℕ) → next_us ≤ last → paced next_us (times ++ last ∷ []) ≢ []
unfolding paced keep
paced_reaches [] next_us last late = elim (on_frame_grid_lem last next_us) [
  | inl (passes, low, up, soon, near) ↦ rw passes (λ e. ground arith)
  | inr (drops, early, kept) ↦ absurd (omega arith)
]
paced_reaches (now ∷ times) next_us last late = elim (on_frame_grid_lem now next_us) [
  | inl (passes, low, up, soon, near) ↦ rw passes (λ e. ground arith)
  | inr (drops, early, kept) ↦ rw (drops, kept) (paced_reaches times next_us last late)
]

-- After a frame that passes, a frame passes of any later ones of which the last was captured an
-- interval or more after it.
pub paced_keeps_up :
    (now next_us : ℕ) (times : List ℕ) (last : ℕ)
    → (on_frame_grid now next_us).0 ≡ true
    → now + video_frame_interval_us ≤ last
    → paced (on_frame_grid now next_us).1 (times ++ last ∷ []) ≢ []
paced_keeps_up now next_us times last passes late = elim (on_frame_grid_lem now next_us) [
  | inl (_, low, up, soon, near) ↦ paced_reaches times _ last (omega arith)
  | inr (drops, early, kept) ↦ absurd (ground arith)
]

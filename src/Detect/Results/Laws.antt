-- ===== src/Detect/Results/Laws.antt =====
-- What the video task reads of the detector's results.
use esp32_ipc.Base.{
  ℕ, zero, suc, ◌+◌, ◌-◌, ◌≤◌, ◌<◌, ◌≡◌, refl, subst, sym, ap, arith, Bool-cases, inl, inr, List,
  [], ◌∷◌, ◌++◌, take, some, none, store, store_ne, store_self, Option-cases, ltb, leb,
  if◌then◌else◌, append-nil, append_assoc, ◌∙◌,
}
use esp32_ipc.Config.{det_max_box}
use esp32_ipc.Detect.Box.{DetBox}
use esp32_ipc.Detect.Results.{Result, Boxes, box_of, store_from, store_results, copy, get_boxes}

module _ {ℓ} {Score : Type ℓ} where
  -- The boxes of the results that have a whole box.
  abbrev pub reported : List (Result Score) → List (DetBox Score)
  reported [] = []
  reported (res ∷ results) = elim (box_of res.box res.score) [
    | none ↦ reported results
    | some b ↦ b ∷ reported results
  ]

  reported-none :
      (res : Result Score) (results : List (Result Score))
      → box_of res.box res.score ≡ none
      → reported (res ∷ results) ≡ reported results
  reported-none res results o = rw (o, reported)

  reported-some :
      (res : Result Score) (results : List (Result Score)) (b : DetBox Score)
      → box_of res.box res.score ≡ some b
      → reported (res ∷ results) ≡ b ∷ reported results
  reported-some res results b o = rw (o, reported)

  copy-take_le :
      (array : ℕ → DetBox Score) (i m n : ℕ) → m ≤ n → copy array i m ≡ take m (copy array i n)
  unfolding copy
  copy-take_le array i zero n h = refl
  copy-take_le array i (suc m) zero h = absurd (omega arith)
  copy-take_le array i (suc m) (suc n) h =
      ap (λ bs. array i ∷ bs) (copy-take_le array (suc i) m n (omega arith))

  copy-take_ge :
      (array : ℕ → DetBox Score) (i m n : ℕ) → n ≤ m → copy array i n ≡ take m (copy array i n)
  unfolding copy
  copy-take_ge array i zero zero h = refl
  copy-take_ge array i (suc m) zero h = refl
  copy-take_ge array i zero (suc n) h = absurd (omega arith)
  copy-take_ge array i (suc m) (suc n) h =
      ap (λ bs. array i ∷ bs) (copy-take_ge array (suc i) m n (omega arith))

  copy-take :
      (array : ℕ → DetBox Score) (i n most : ℕ)
      → copy array i (if ltb n most then n else most) ≡ take most (copy array i n)
  copy-take array i n most = elim (Bool-cases (ltb n most)) [
    | inl e ↦ rw e (copy-take_ge array i most n (ground arith))
    | inr e ↦ rw e (copy-take_le array i most n (ground arith))
  ]

  -- The cell after those that are copied.
  copy_last :
      (array : ℕ → DetBox Score) (i n k : ℕ)
      → i + n ≡ k
      → copy array i (suc n) ≡ copy array i n ++ array k ∷ []
  unfolding copy
  copy_last array i zero k h = ap (λ j. array j ∷ []) (omega arith)
  copy_last array i (suc n) k h =
      ap (λ bs. array i ∷ bs) (copy_last array (suc i) n k (omega arith))

  -- A write after the cells that are copied.
  copy-store :
      (array : ℕ → DetBox Score) (i n j : ℕ) (v : DetBox Score)
      → i + n ≤ j
      → copy (store array j v) i n ≡ copy array i n
  unfolding copy
  copy-store array i zero j v h = refl
  copy-store array i (suc n) j v h =
      rw (store_ne array j i v (omega arith), copy-store array (suc i) n j v (omega arith))

  take_nil : (k : ℕ) → take {A = DetBox Score} k [] ≡ []
  take_nil zero = refl
  take_nil (suc k) = refl

  take_full : (m n : ℕ) (bs : List (DetBox Score)) → m ≤ n → take (m - n) bs ≡ []
  take_full m n bs h = subst (λ k. take k bs ≡ []) {x = 0} (omega arith) refl

  take_room :
      (m n : ℕ) (b : DetBox Score) (bs : List (DetBox Score))
      → n < m
      → take (m - n) (b ∷ bs) ≡ b ∷ take (m - suc n) bs
  take_room m n b bs h =
      subst (λ k. take k (b ∷ bs) ≡ b ∷ take (m - suc n) bs) {x = suc (m - suc n)} (omega arith)
        refl

  -- What the loop leaves to be copied.
  copy-store_from :
      (results : List (Result Score)) (array : ℕ → DetBox Score) (n : ℕ)
      → n ≤ det_max_box
      → copy (store_from results array n).array 0 (store_from results array n).count
        ≡ copy array 0 n ++ take (det_max_box - n) (reported results)
  unfolding store_from
  copy-store_from [] array n h = rw (take_nil (det_max_box - n)) (sym (append-nil _))
  copy-store_from (res ∷ results) array n h = elim (Bool-cases (leb det_max_box n)) [
    | inl e ↦
        rw (e, take_full det_max_box n (reported (res ∷ results)) (ground arith))
          (sym (append-nil _))
    | inr e ↦ elim (Option-cases (box_of res.box res.score)) [
      | inl o ↦ rw (reported-none res results o, e, o) (copy-store_from results array n h)
      | inr (b, o) ↦
          rw (reported-some res results b o, e, o)
            (copy-store_from results (store array n b) (suc n) (ground arith)
              ∙ rw (
                copy_last (store array n b) 0 n n (omega arith),
                copy-store array 0 n n b (omega arith),
                store_self array n b,
                append_assoc (copy array 0 n) (b ∷ [])
                    (take (det_max_box - suc n) (reported results)),
                take_room det_max_box n b (reported results) (ground arith),
              ))
    ]
  ]

  -- The video task gets the boxes of the latest results, in the model's order: the first
  -- `DET_MAX_BOX` of those that have four coordinates, and of these the first `max`. None is left
  -- over from the results before.
  pub get_boxes-store_results :
      (s : Boxes Score) (results : List (Result Score)) (most : ℕ)
      → get_boxes (store_results s results) most ≡ take most (take det_max_box (reported results))
  unfolding get_boxes store_results copy
  get_boxes-store_results s results most =
      copy-take _ 0 _ most ∙ ap (take most) (copy-store_from results s.array 0 (omega arith))

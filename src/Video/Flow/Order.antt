-- ===== src/Video/Flow/Order.antt =====
-- Which of the captured frames come to be encoded, and in what order.
use esp32_ipc.Base.{
  ℕ, ◌≡◌, sym, subst, ap, ap₂, ◌∙◌, inl, inr, Bool-cases, ltb, Option, none, some, List, [], ◌∷◌,
  ◌++◌, append-nil, append_assoc, length,
}
use mathlib.Core.List.{Sublistᴰ}
use mathlib.Core.List.Sublistᴰ
use esp32_ipc.Config.{video_queue_len}
use esp32_ipc.Hal.Device.{Device}
use esp32_ipc.Hal.Device.Outcome.{Outcome, fails, gives}
use esp32_ipc.Hal.Vcap.{VcapFrame, acquire}
use esp32_ipc.Video.Pace.{on_frame_grid}
use esp32_ipc.Video.Flow.{
  Flow, acquired, dispatch, captures, dispatches, receives, releases, Reach, here, next,
}

module _ {ℓ} {A : Type ℓ} where
  same_list : {xs ys : List A} → xs ≡ ys → Sublistᴰ xs ys
  same_list {xs} e = subst (Sublistᴰ xs) e (Sublistᴰ.refl xs)

  -- One more list on the right of both sides.
  longer : (xs ys gs zs : List A) → Sublistᴰ xs ys → Sublistᴰ zs (xs ++ gs) → Sublistᴰ zs (ys ++ gs)
  longer xs ys gs zs s k = Sublistᴰ.trans k (Sublistᴰ.append s (Sublistᴰ.refl gs))

module _ (D : Device) where
  open D use {Dev}

  abbrev pub held : Option VcapFrame → List VcapFrame
  held none = []
  held (some frame) = frame ∷ []

  abbrev pub given : Outcome Dev VcapFrame → List VcapFrame
  given (fails e d) = []
  given (gives frame d) = frame ∷ []

  -- The frames that the driver has given in a run, and those that the encode task has received.
  abbrev pub captured : {m n : Flow D} → Reach D m n → List VcapFrame
  captured here = []
  captured (next {k} r (captures idle)) = captured r ++ given (acquire D k.vcap k.camera)
  captured (next r _) = captured r

  abbrev pub received : {m n : Flow D} → Reach D m n → List VcapFrame
  received here = []
  received (next r (receives frame rest idle e)) = received r ++ frame ∷ []
  received (next r _) = received r

  -- What is on the way to the encoder, oldest first.
  abbrev pub pending : Flow D → List VcapFrame
  pending m = m.cap_queue ++ held m.cap_holds

  acquired-pending :
      (m : Flow D) (o : Outcome Dev VcapFrame)
      → m.cap_holds ≡ none
      → pending (acquired D m o) ≡ pending m ++ given o
  acquired-pending m (fails e d) idle = sym (append-nil (pending m))
  acquired-pending m (gives frame d) idle =
      ap (λ l. l ++ frame ∷ [])
        (sym (append-nil m.cap_queue) ∙ ap (λ o. m.cap_queue ++ held o) (sym idle))

  dispatch-pending :
      (m : Flow D) (frame : VcapFrame) (now : ℕ)
      → m.cap_holds ≡ some frame
      → Sublistᴰ (pending (dispatch D m frame now)) (pending m)
  unfolding dispatch
  dispatch-pending m frame now busy = elim (Bool-cases (on_frame_grid now m.next_us).0) [
    | inl passes ↦ elim (Bool-cases (ltb (length m.cap_queue) video_queue_len)) [
      | inl room ↦ rw (passes, room, busy) (same_list (append-nil _))
      | inr full ↦
          rw (passes, full, busy)
            (Sublistᴰ.append (Sublistᴰ.refl m.cap_queue) (Sublistᴰ.nil-sublist _))
    ]
    | inr late ↦
        rw (late, busy) (Sublistᴰ.append (Sublistᴰ.refl m.cap_queue) (Sublistᴰ.nil-sublist _))
  ]

  -- From an empty queue and an idle capture task: the frames that the encode task has received, with
  -- those on the way to it, are frames that the driver gave, each once at most and in the order of
  -- capture, whatever is dropped on the way.
  pub received-InOrder :
      {m n : Flow D} (r : Reach D m n)
      → m.cap_queue ≡ []
      → m.cap_holds ≡ none
      → Sublistᴰ (received r ++ pending n) (captured r)
  received-InOrder {m} here empty idle = same_list (ap₂ (λ q o. q ++ held o) empty idle)
  received-InOrder (next {k} r (captures free)) empty idle =
      let o = acquire D k.vcap k.camera in
      longer (received r ++ pending k) (captured r) (given o) _ (received-InOrder r empty idle) (
        same_list (
          ap (λ l. received r ++ l) (acquired-pending k o free)
          ∙ sym (append_assoc (received r) (pending k) (given o))))
  received-InOrder (next {k} r (dispatches frame now busy)) empty idle =
      Sublistᴰ.trans
        (Sublistᴰ.append (Sublistᴰ.refl (received r)) (dispatch-pending k frame now busy))
        (received-InOrder r empty idle)
  received-InOrder (next {k} r (receives frame rest free e)) empty idle =
      Sublistᴰ.trans
        (same_list (
          append_assoc (received r) (frame ∷ []) (rest ++ held k.cap_holds)
          ∙ ap (λ q. received r ++ (q ++ held k.cap_holds)) (sym e)))
        (received-InOrder r empty idle)
  received-InOrder (next {k} r (releases frame busy)) empty idle = received-InOrder r empty idle

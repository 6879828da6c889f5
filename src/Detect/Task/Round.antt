-- ===== src/Detect/Task/Round.antt =====
-- main/task/task_detect.cpp: the detector task runs the model on the buffer of the element that it
-- receives, and gives that element back.
use esp32_ipc.Base.{
  ℕ, ◌≡◌, ◌<◌, refl, arith, leb, false, true, Option, none, some, List, [], ◌∷◌, ◌⊎◌, inl, inr, sym,
  subst, ap, ◌∙◌,
}
use esp32_ipc.Base.Int.{pos}
use esp32_ipc.Esp.{Semaphore}
use esp32_ipc.FramePool.{
  Pool, recv, recv_from, release, release_at, free, ready, list_pop, pop_from, list_push,
}
use esp32_ipc.FramePool.Inv.{IsValid, list_pop-IsValid}
use esp32_ipc.FramePool.PutBack.{SameHeld, put_back, pop_from-none, released}
use esp32_ipc.FramePool.Steps.Safe.{with_sem-IsValid}
use esp32_ipc.Detect.Results.{Result, store_results}
use esp32_ipc.Detect.Task.{Detector, infer, received, detect_round}

module _ (S : Semaphore) {Score : Type 0} (run : ℕ → List (Result Score) × ℕ) where
  open S use {Sem, take}

  -- What a round leaves. Nothing came, and lists and boxes are as they were; or the head of the ready
  -- list came, is now the head of the free list, and the boxes are those of the model on its buffer.
  abbrev pub Served : Pool Sem → Detector S Score → Pool Sem → Detector S Score → Type 0
  Served p t p' t' =
      ((p'.free_list ≡ p.free_list) × (p'.ready_list ≡ p.ready_list) × (t'.boxes ≡ t.boxes))
      ⊎ ((i : ℕ) × (p.ready_list ≡ i ∷ p'.ready_list)
          × (p'.free_list ≡ i ∷ p.free_list)
          × (t'.boxes ≡ store_results t.boxes (run (p.element i).buffer).0))

  abbrev pub IsDone : Pool Sem → Detector S Score → Detector S Score → Type 0
  IsDone p t t' = (p' : Pool Sem) × (t'.feed ≡ some p') × SameHeld p p' × Served p t p' t'

  -- The pop and the release, on the lists and the buffers.
  pop_ready :
      (p : Pool Sem) (l : List ℕ) (i : ℕ)
      → p.ready_list ≡ l
      → (pop_from p ready l).0 ≡ some i
      → let q = (pop_from p ready l).1 in
        (p.ready_list ≡ i ∷ q.ready_list)
        × (q.free_list ≡ p.free_list)
        × ((q.element i).buffer ≡ (p.element i).buffer)
        × ((q.element i).checked_out ≡ true)
  unfolding pop_from
  pop_ready p [] i e h = absurd (cc)
  pop_ready p (k ∷ l) i e h = ground (arith, e)

  put_free :
      (q : Pool Sem) (i : ℕ)
      → i < q.elem_num
      → (q.element i).index ≡ i
      → (q.element i).checked_out ≡ true
      → ((release_at q (pos (q.element i).index)).1.free_list ≡ i ∷ q.free_list)
        × ((release_at q (pos (q.element i).index)).1.ready_list ≡ q.ready_list)
  unfolding release_at list_push
  put_free q i small own out =
      let within : leb q.elem_num i ≡ false = ground arith in rw (own, within) (ground arith)

  popped-IsDone :
      (t : Detector S Score) (p : Pool Sem) (s : Sem) (e : Option ℕ)
      → IsValid p
      → (list_pop (record p { ready_sem = s }) ready).0 ≡ e
      → IsDone p t
          (received S Score run t (e, some (list_pop (record p { ready_sem = s }) ready).1)).0
  unfolding received infer release list_pop
  popped-IsDone t p s none v h =
      let w = with_sem-IsValid S p s v in
      rw (pop_from-none (record p { ready_sem = s }) ready p.ready_list h)
        (_, refl, record { valid = w; same = λ j. refl }, inl (refl, refl, refl))
  popped-IsDone t p s (some i) v h =
      let r : Pool Sem = record p { ready_sem = s } in
      let w = with_sem-IsValid S p s v in
      let q = (list_pop r ready).1 in
      let (done, same, small) = put_back r ready free i w h in
      let own = (list_pop-IsValid r ready w).own_index i small in
      let (head, frees, buffer, out) = pop_ready r p.ready_list i refl h in
      let (put, left) = put_free q i small own out in
      let back = released r q i small own same in
      (
        (release_at q (pos (q.element i).index)).1,
        refl,
        record { valid = back.valid; same = back.same },
        inr (
          i,
          head ∙ ap (λ l. i ∷ l) (sym left),
          put ∙ ap (λ l. i ∷ l) frees,
          ap (λ b. store_results t.boxes (run b).0) buffer,
        ),
      )

  taken-IsDone :
      (t : Detector S Score) (p : Pool Sem) (s : Option Sem) (ticks : ℕ)
      → IsValid p
      → take p.ready_sem ticks ≡ s
      → IsDone p t
          (received S Score run t ((recv_from S p ticks).0, some (recv_from S p ticks).1)).0
  unfolding recv_from received
  taken-IsDone t p none ticks v e =
      rw (e, recv_from, received)
        (p, refl, record { valid = v; same = λ j. refl }, inl (refl, refl, refl))
  taken-IsDone t p (some s) ticks v e =
      rw (e, recv_from) (popped-IsDone t p s (list_pop (record p { ready_sem = s }) ready).0 v refl)

  -- A round of `detect_task` on a valid pool leaves a valid pool with the same elements checked out as
  -- before. Either no element came in time, and the two lists and the boxes are as they were; or the
  -- head of the ready list came: it is now the head of the free list, and the boxes are those of the
  -- results that the model gives for the buffer of that element.
  pub detect_round-IsDone :
      (ticks : ℕ) (t : Detector S Score) (p : Pool Sem)
      → t.feed ≡ some p
      → IsValid p
      → IsDone p t (detect_round S Score run ticks t).0
  unfolding detect_round recv
  detect_round-IsDone ticks t p e v =
      subst (λ f. IsDone p t (received S Score run t (recv S f ticks)).0) (sym e)
        (taken-IsDone t p (take p.ready_sem ticks) ticks v refl)

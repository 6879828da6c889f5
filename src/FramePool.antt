-- ===== src/FramePool.antt =====
-- main/core/frame_pool.hpp and main/core/frame_pool.cpp: a fixed set of buffers that one side fills
-- and the other drains. An element is named by its place in the element array, a list by the places
-- of its elements, head first. The spin lock makes each list operation one step.
pub mod Places
pub mod Inv
pub mod PutBack
pub mod Steps
pub mod New
pub mod Tests
use esp32_ipc.Base.{
  ℕ, Bool, true, false, not, leb, if◌then◌else◌, store, Option, none, some, List, [], ◌∷◌,
}
use esp32_ipc.Base.Int.{ℤ, pos, negsuc}
use esp32_ipc.Esp.{EspErr, esp_ok, esp_err_invalid_arg, esp_err_invalid_state, Semaphore}

-- `frame_pool_element_t`; the list node is in the lists.
pub record Element : Type 0 where
  pub checked_out : Bool
  pub owns_buffer : Bool
  pub index : ℕ
  pub buffer : ℕ
  pub size : ℕ

-- `struct frame_pool`
pub record Pool (Sem : Type 0) : Type 0 where
  pub elem_num : ℕ
  pub free_list : List ℕ
  pub ready_list : List ℕ
  pub element : ℕ → Element
  pub ready_sem : Sem

-- Which of the two lists a call is given.
pub data Which : Type 0 where
  free ready : Which

module _ {Sem : Type 0} where
  abbrev pub list_of : Pool Sem → Which → List ℕ
  list_of p free = p.free_list
  list_of p ready = p.ready_list

  abbrev pub with_list : Pool Sem → Which → List ℕ → Pool Sem
  with_list p free l = record p { free_list = l }
  with_list p ready l = record p { ready_list = l }

  abbrev pub mark : Pool Sem → ℕ → Bool → Pool Sem
  mark p i out = record p {
    element = store p.element i (record (p.element i) { checked_out = out });
  }

  -- `list_push`
  unfoldable pub list_push : Pool Sem → Which → ℕ → EspErr × Pool Sem
  list_push p w i =
      if not (p.element i).checked_out
      then (esp_err_invalid_state, p)
      else (esp_ok, mark (with_list p w (i ∷ list_of p w)) i false)

  -- `list_pop`, by the list that the call finds.
  unfoldable pub pop_from : Pool Sem → Which → List ℕ → Option ℕ × Pool Sem
  pop_from p w [] = (none, p)
  pop_from p w (i ∷ rest) = (some i, mark (with_list p w rest) i true)

  unfoldable pub list_pop : Pool Sem → Which → Option ℕ × Pool Sem
  unfolding pop_from
  list_pop p w = pop_from p w (list_of p w)

  -- `frame_pool_acquire`: the handle may be null.
  unfoldable pub acquire : Option (Pool Sem) → Option ℕ × Option (Pool Sem)
  acquire none = (none, none)
  acquire (some p) = let (e, p') = list_pop p free in (e, some p')

  -- `index < 0 || index >= pool->elem_num`, else `list_push` on the free list.
  unfoldable pub release_at : Pool Sem → ℤ → EspErr × Pool Sem
  release_at p (negsuc n) = (esp_err_invalid_arg, p)
  release_at p (pos i) = if leb p.elem_num i then (esp_err_invalid_arg, p) else list_push p free i

  -- `frame_pool_release`
  unfoldable pub release : Option (Pool Sem) → ℤ → EspErr × Option (Pool Sem)
  release none index = (esp_err_invalid_arg, none)
  release (some p) index = let (e, p') = release_at p index in (e, some p')

module _ (S : Semaphore) where
  open S use {Sem, give, take}

  -- The second half of `frame_pool_submit`. In an interrupt handler the code calls another variant
  -- of the same function, which may ask for a context switch.
  unfoldable pub submit_give : EspErr × Pool Sem → EspErr × Pool Sem
  submit_give (esp_ok, p) = (esp_ok, record p { ready_sem = give p.ready_sem })
  submit_give (e, p) = (e, p)

  -- `frame_pool_submit`: both the handle and the element may be null.
  unfoldable pub submit : Option (Pool Sem) → Option ℕ → EspErr × Option (Pool Sem)
  submit none e = (esp_err_invalid_arg, none)
  submit (some p) none = (esp_err_invalid_arg, some p)
  submit (some p) (some i) = let (e, p') = submit_give (list_push p ready i) in (e, some p')

  -- `frame_pool_recv` on a pool.
  unfoldable pub recv_from : Pool Sem → ℕ → Option ℕ × Pool Sem
  recv_from p ticks = elim (take p.ready_sem ticks) [
    | none ↦ (none, p)
    | some s ↦ list_pop (record p { ready_sem = s }) ready
  ]

  -- `frame_pool_recv`
  unfoldable pub recv : Option (Pool Sem) → ℕ → Option ℕ × Option (Pool Sem)
  recv none ticks = (none, none)
  recv (some p) ticks = let (e, p') = recv_from p ticks in (e, some p')

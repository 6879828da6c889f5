-- ===== src/FramePool/New/Tests.antt =====
-- A heap of so many blocks, and the theorems on the making of a pool with it.
use esp32_ipc.Base.{
  ℕ, suc, ◌≡◌, refl, arith, ◌==◌, ◌&&◌, not, ltb, Bool-cases, inl, inr, Bool, true, false, store,
  if◌then◌else◌, Option, none, some,
}
use esp32_ipc.Esp.{EspErr, esp_ok, esp_err_no_mem}
use esp32_ipc.FramePool.{Pool, free, list_push, list_pop}
use esp32_ipc.FramePool.Tests.{Counter, counting}
use esp32_ipc.FramePool.Steps.{acquires, here, next}
use esp32_ipc.FramePool.New.{
  Allocator, empty_pool, with_element, PoolCfg, new_pool, add_elements, delete_pool,
}
use esp32_ipc.FramePool.New.Made.{blocks_from}
use esp32_ipc.FramePool.New.Life.{new_pool-delete_pool}
use esp32_ipc.FramePool.New.Leaks.{new_pool-fails}
use esp32_ipc.FramePool.New.Fresh.{IsFresh, new_pool-IsFresh}

-- The blocks below `next` have been handed out, and some of them given back.
pub record Arena : Type 0 where
  pub next : ℕ
  pub limit : ℕ
  pub freed : ℕ → Bool

abbrev pub calloc : Arena → Option ℕ × Arena
calloc h =
    if ltb h.next h.limit
    then (some h.next, record h { next = suc h.next; freed = store h.freed h.next false })
    else (none, h)

abbrev pub release : ℕ → Arena → Arena
release b h = record h { freed = store h.freed b true }

abbrev pub live : Arena → ℕ → Bool
live h x = ltb x h.next && not (h.freed x)

pub calloc-some :
    (h h' : Arena) (b x : ℕ)
    → calloc h ≡ (some b, h')
    → (live h b ≡ false) × (live h' x ≡ (if x == b then true else live h x))
calloc-some h h' b x e = elim (Bool-cases (ltb h.next h.limit)) [
  | inl room ↦
      let taken = rw room at e in
      let same : h.next ≡ b = cc in
      let heap : record h { next = suc h.next; freed = store h.freed h.next false } ≡ h' = cc in
      rw (← same, ← heap) (ground arith, ground arith)
  | inr full ↦ absurd (let failed = rw full at e in cc)
]

pub calloc-none : (h h' : Arena) (x : ℕ) → calloc h ≡ (none, h') → live h' x ≡ live h x
calloc-none h h' x e = ground arith

pub live-released :
    (h : Arena) (b x : ℕ) → live (release b h) x ≡ (if x == b then false else live h x)
live-released h b x = ground arith

abbrev pub arena : Allocator
arena = record {
  Heap = Arena;
  calloc = calloc;
  release = release;
  live = live;
  calloc_some = calloc-some;
  calloc_none = calloc-none;
  live-release = live-released;
}

abbrev pub room_for : ℕ → Arena
room_for n = record { next = 0; limit = n; freed = λ x. false }

abbrev pub cfg : PoolCfg
cfg = record { elem_num = 2; buffer_size = 64 }

abbrev failed : EspErr × Option (Pool ℕ) × Arena
failed = new_pool arena (λ n. n) cfg (room_for 4)

out_of_room : failed ≡ (esp_err_no_mem, none, failed.2)
unfolding new_pool add_elements list_push
out_of_room = refl

-- The second buffer does not fit: its structure, array, semaphore and first buffer are free again.
new_pool-fails_example : live failed.2 3 ≡ live (room_for 4) 3
new_pool-fails_example =
    new_pool-fails arena (λ n. n) cfg (room_for 4) failed.2 esp_err_no_mem out_of_room 3

abbrev pub create : ℕ → Counter
create n = record { value = 0; limit = n }

abbrev pub made : EspErr × Option (Pool Counter) × Arena
made = new_pool arena create cfg (room_for 9)

abbrev one_added : Pool Counter
one_added = (list_push (with_element arena create (empty_pool arena create 2) 0 3 64) free 0).1

abbrev pub both_added : Pool Counter
both_added = (list_push (with_element arena create one_added 1 4 64) free 1).1

pub both_made : made ≡ (esp_ok, some both_added, made.2)
unfolding new_pool add_elements
both_made = refl

new_pool-IsFresh_example : IsFresh arena create 2 both_added
new_pool-IsFresh_example =
    new_pool-IsFresh arena create cfg (room_for 9) made.2 esp_ok both_added both_made

-- The pool is deleted while an element is checked out.
new_pool-delete_pool_example :
    live
      (delete_pool arena create
        (blocks_from arena create (room_for 9))
        (list_pop both_added free).1
        made.2)
      3
    ≡ live (room_for 9) 3
new_pool-delete_pool_example =
    new_pool-delete_pool counting arena create cfg (room_for 9) made.2 esp_ok both_added both_made
      (next here acquires) 3

-- ===== src/FramePool/Tests.antt =====
-- A pool of two buffers over a counting semaphore that meets the interface.
use esp32_ipc.Base.{
  ℕ, suc, ◌+◌, ◌-◌, ◌≡◌, ◌≢◌, refl, arith, min, Option, none, some, [], ◌∷◌, true, false,
  if◌then◌else◌, ltb,
}
use esp32_ipc.Base.Int.{pos}
use esp32_ipc.Esp.{esp_ok, Semaphore}
use esp32_ipc.FramePool.{
  Element, Pool, free, ready, list_push, pop_from, list_pop, release_at, submit, submit_give, recv,
  recv_from,
}
use esp32_ipc.FramePool.Inv.{IsValid}
use esp32_ipc.FramePool.Steps.{Machine, acquires, pushes, gives, takes, pops, Reach, here, next}
use esp32_ipc.FramePool.Steps.Refine.{Moves, in_ready, lent, view, Step-Allowed}
use esp32_ipc.FramePool.Steps.Safe.{Inv, Reach-Inv, pop_after_take}

pub record Counter : Type 0 where
  pub value : ℕ
  pub limit : ℕ

abbrev pub raise : Counter → Counter
raise s = record s { value = min (s.value + 1) s.limit }

abbrev pub lower : Counter → ℕ → Option Counter
lower s t = if ltb 0 s.value then some (record s { value = s.value - 1 }) else none

pub value-lower : (s s' : Counter) (t : ℕ) → lower s t ≡ some s' → s.value ≡ suc (s'.value)
value-lower s s' t e = ground arith

pub limit-lower : (s s' : Counter) (t : ℕ) → lower s t ≡ some s' → s'.limit ≡ s.limit
limit-lower s s' t e = ground arith

pub lower-none : (s : Counter) (t : ℕ) → lower s t ≡ none → s.value ≡ 0
lower-none s t e = ground arith

abbrev pub counting : Semaphore
counting = record {
  Sem = Counter;
  give = raise;
  take = lower;
  value = λ s. s.value;
  limit = λ s. s.limit;
  value-give = λ s. refl;
  limit-give = λ s. refl;
  value-take = value-lower;
  limit-take = limit-lower;
  take_none = lower-none;
}

abbrev element : ℕ → Element
element i = record {
  checked_out = false;
  owns_buffer = true;
  index = i;
  buffer = 100 + i;
  size = 8;
}

abbrev pub pool : Pool Counter
pool = record {
  elem_num = 2;
  free_list = 1 ∷ 0 ∷ [];
  ready_list = [];
  element = element;
  ready_sem = record { value = 0; limit = 2 };
}

pub pool-IsValid : IsValid pool
pool-IsValid = record {
  one_place = λ i h. ground arith;
  no_other = λ i h. ground arith;
  own_index = λ i h. refl;
}

abbrev taken : Pool Counter
taken = (list_pop pool free).1

-- Element 1 is taken, submitted and received.
cycle : (recv counting (submit counting (some taken) (some 1)).1 5).0 ≡ some 1
unfolding list_pop pop_from submit submit_give list_push recv recv_from
cycle = refl

release_taken : release_at taken (pos 1) ≡ (esp_ok, (release_at taken (pos 1)).1)
unfolding release_at list_push list_pop pop_from
release_taken = refl

abbrev start : Machine counting
start = record { pool = pool; giving = 0; taking = 0 }

start-Inv : Inv counting start
start-Inv = record { valid = pool-IsValid; balance = refl; whole = refl }

abbrev acquired : Machine counting
acquired = record start { pool = taken }

abbrev pushed : Machine counting
pushed = record { pool = (list_push taken ready 1).1; giving = 1; taking = 0 }

abbrev given : Machine counting
given = record pushed {
  pool = record (pushed.pool) { ready_sem = raise pushed.pool.ready_sem };
  giving = 0;
}

abbrev received : Machine counting
received = record given {
  pool = record (given.pool) { ready_sem = record { value = 0; limit = 2 } };
  taking = 1;
}

to_pushed : Reach counting start pushed
unfolding list_push list_pop pop_from
to_pushed = next (next here acquires) (pushes 1 (omega arith) refl)

to_received : Reach counting start received
unfolding list_push list_pop pop_from
to_received = next (next to_pushed (gives 0 refl)) (takes 5 (record { value = 0; limit = 2 }) refl)

Reach-Inv_example : Inv counting received
Reach-Inv_example = Reach-Inv counting to_received start-Inv

pop_after_take_example : (list_pop received.pool ready).0 ≢ none
pop_after_take_example = pop_after_take counting 0 start-Inv to_received refl

Step-Allowed_example :
    Moves in_ready lent (view received.pool) (view (list_pop received.pool ready).1)
Step-Allowed_example = Step-Allowed counting start-Inv to_received (pops 0 refl)

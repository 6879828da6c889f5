-- ===== src/Osd/Dirty.antt =====
-- main/core/osd.h, `osd_dirty_t`, and `dirty_add` of main/core/osd.c. The rows that reach
-- `dirty_add` are clipped to the frame, so they are natural numbers. The array is a function from
-- indices; `count` says how much of it is live.
pub mod Shift
pub mod Search
pub mod Shape
pub mod Cover
pub mod Touch
use esp32_ipc.Base.{ℕ, zero, suc, ◌+◌, ◌-◌, ◌*◌, leb, ltb, if◌then◌else◌, store}
use esp32_ipc.Config.{det_max_box}

-- `OSD_MAX_DIRTY_RANGES`
abbrev pub max_dirty_ranges : ℕ
max_dirty_ranges = 2 * det_max_box

-- `osd_rows_t`
pub record Rows : Type 0 where
  pub first : ℕ
  pub last : ℕ

-- `osd_dirty_t`
pub record Dirty : Type 0 where
  pub count : ℕ
  pub range : ℕ → Rows

abbrev pub rows : ℕ → ℕ → Rows
rows first last = record { first = first; last = last }

-- `while (i < d->count && d->range[i].last + 1 < first) i++`, on `count - i` rounds.
unfoldable pub skip : (ℕ → Rows) → ℕ → ℕ → ℕ → ℕ
skip range first zero i = i
skip range first (suc left) i =
    let rest = skip range first left (suc i) in if ltb ((range i).last + 1) first then rest else i

-- What the second loop carries: `j`, and the range that grows.
pub record Absorbed : Type 0 where
  pub j : ℕ
  pub first : ℕ
  pub last : ℕ

-- `while (j < d->count && d->range[j].first <= last + 1) …`, on `count - j` rounds.
unfoldable pub absorb : (ℕ → Rows) → ℕ → ℕ → ℕ → ℕ → Absorbed
absorb range zero j first last = record { j = j; first = first; last = last }
absorb range (suc left) j first last =
    let first' = if ltb (range j).first first then (range j).first else first in
    let last' = if ltb last (range j).last then (range j).last else last in
    let rest = absorb range left (suc j) first' last' in
    if leb (range j).first (last + 1) then rest else record { j = j; first = first; last = last }

-- `for (k = i + 1, src = j; src < d->count; k++, src++) d->range[k] = d->range[src]`, on
-- `count - src` rounds.
unfoldable pub shift_down : (ℕ → Rows) → ℕ → ℕ → ℕ → ℕ → Rows
shift_down range zero k src = range
shift_down range (suc left) k src = shift_down (store range k (range src)) left (suc k) (suc src)

-- `for (k = d->count; k > i; k--) d->range[k] = d->range[k - 1]`, on `count - i` rounds.
unfoldable pub shift_up : (ℕ → Rows) → ℕ → ℕ → ℕ → Rows
shift_up range zero k = range
shift_up range (suc left) k = shift_up (store range k (range (k - 1))) left (k - 1)

-- The list is full: widen the last range.
unfoldable pub widen : Dirty → ℕ → ℕ → Dirty
widen d first last =
    let top = d.range (d.count - 1) in
    let first' = if ltb first top.first then first else top.first in
    let last' = if ltb top.last last then last else top.last in
    record d { range = store d.range (d.count - 1) (rows first' last') }

-- What `dirty_add` does once the searches have stopped at `i` and `a`: replace the absorbed run by
-- the merged range, widen the last range of a full list, or insert a new range.
unfoldable pub place : Dirty → ℕ → Absorbed → Dirty
place d i a =
    if ltb i a.j
    then record {
      count = d.count - (a.j - i - 1);
      range = store (shift_down d.range (d.count - a.j) (i + 1) a.j) i (rows a.first a.last);
    }
    else if leb max_dirty_ranges d.count
    then widen d a.first a.last
    else record {
      count = d.count + 1;
      range = store (shift_up d.range (d.count - i) d.count) i (rows a.first a.last);
    }

-- `dirty_add`
unfoldable pub add : Dirty → ℕ → ℕ → Dirty
add d first last =
    let i = skip d.range first d.count 0 in place d i (absorb d.range (d.count - i) i first last)

-- `dirty->count = 0`; the array keeps whatever it held.
unfoldable pub reset : Dirty → Dirty
reset d = record d { count = 0 }

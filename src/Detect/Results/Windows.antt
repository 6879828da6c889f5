-- ===== src/Detect/Results/Windows.antt =====
-- main/task/task_detect.cpp: the timing lines of `detect_task`, over its life.
use esp32_ipc.Base.{
  ℕ, suc, ◌+◌, ◌<◌, ◌≡◌, refl, subst, sym, ap, arith, true, false, ◌==◌, Bool-cases, inl, inr, List,
  [], ◌∷◌, ◌++◌, length, none, some, append-nil, ==_iff,
}
use esp32_ipc.Config.{det_timing_window}
use esp32_ipc.Detect.Results.{Window, tick, with_line, tick_all}

abbrev pub sum : List ℕ → ℕ
sum [] = 0
sum (x ∷ xs) = x + sum xs

-- The times fall into whole windows, one line for each, which has the sum of its times, and the times
-- that are left.
pub data Windows : List ℕ → List ℕ → List ℕ → Type 0 where
  left : {rest : List ℕ} → length rest < det_timing_window → Windows rest [] rest
  whole :
      {times lines rest : List ℕ} (window : List ℕ)
      → length window ≡ det_timing_window
      → Windows times lines rest
      → Windows (window ++ times) (sum window ∷ lines) rest

abbrev pub quiet : Window
quiet = record { acc_us = 0; acc_n = 0 }

length-snoc : (xs : List ℕ) (x : ℕ) → length (xs ++ x ∷ []) ≡ suc (length xs)
length-snoc [] x = refl
length-snoc (y ∷ xs) x = ap suc (length-snoc xs x)

sum-snoc : (xs : List ℕ) (x : ℕ) → sum (xs ++ x ∷ []) ≡ sum xs + x
sum-snoc [] x = omega arith
sum-snoc (y ∷ xs) x = omega (arith, sum-snoc xs x)

snoc-append : (xs : List ℕ) (x : ℕ) (ys : List ℕ) → xs ++ x ∷ [] ++ ys ≡ xs ++ (x ∷ ys)
snoc-append [] x ys = refl
snoc-append (y ∷ xs) x ys = ap (λ l. y ∷ l) (snoc-append xs x ys)

-- The lines and the window that a life leaves are those of its times.
pub record IsLogged (w : Window × List ℕ) (times : List ℕ) : Type 0 where
  pub rest : List ℕ
  pub windows : Windows times w.1 rest
  pub acc_us : w.0.acc_us ≡ sum rest
  pub acc_n : w.0.acc_n ≡ length rest

-- The window after these times, which are not a whole one.
abbrev so_far : List ℕ → Window
so_far times = record { acc_us = sum times; acc_n = length times }

line_after :
    (w : Window × List ℕ) (window times : List ℕ)
    → length window ≡ det_timing_window
    → IsLogged w times
    → IsLogged (w.0, sum window ∷ w.1) (window ++ times)
line_after w window times full l = record {
  rest = l.rest;
  windows = whole window full l.windows;
  acc_us = l.acc_us;
  acc_n = l.acc_n;
}

tick-whole :
    (w : Window) (us : ℕ)
    → (suc w.acc_n == det_timing_window) ≡ true
    → tick w us ≡ (quiet, some (w.acc_us + us))
unfolding tick
tick-whole w us h = rw h refl

tick-more :
    (w : Window) (us : ℕ)
    → (suc w.acc_n == det_timing_window) ≡ false
    → tick w us ≡ (record { acc_us = w.acc_us + us; acc_n = suc w.acc_n }, none)
unfolding tick
tick-more w us h = rw h refl

tick_all-whole :
    (w : Window) (us : ℕ) (times : List ℕ)
    → (suc w.acc_n == det_timing_window) ≡ true
    → tick_all w (us ∷ times)
      ≡ ((tick_all quiet times).0, (w.acc_us + us) ∷ (tick_all quiet times).1)
unfolding tick_all
tick_all-whole w us times h = ap (λ r. with_line r.1 (tick_all r.0 times)) (tick-whole w us h)

tick_all-more :
    (w : Window) (us : ℕ) (times : List ℕ)
    → (suc w.acc_n == det_timing_window) ≡ false
    → tick_all w (us ∷ times)
      ≡ tick_all (record { acc_us = w.acc_us + us; acc_n = suc w.acc_n }) times
unfolding tick_all
tick_all-more w us times h = ap (λ r. with_line r.1 (tick_all r.0 times)) (tick-more w us h)

tick_all-from :
    (pre times : List ℕ)
    → length pre < det_timing_window
    → IsLogged (tick_all (so_far pre) times) (pre ++ times)
unfolding tick_all
tick_all-from pre [] small = record {
  rest = pre;
  windows = subst (λ l. Windows l [] pre) (sym (append-nil pre)) (left small);
  acc_us = refl;
  acc_n = refl;
}
tick_all-from pre (us ∷ times) small = elim (Bool-cases (suc (length pre) == det_timing_window)) [
  | inl full ↦
      subst (λ l. IsLogged (tick_all (so_far pre) (us ∷ times)) l) (snoc-append pre us times)
        (rw (tick_all-whole (so_far pre) us times full, ← sum-snoc pre us)
          (line_after (tick_all quiet times) (pre ++ us ∷ []) times
            (omega (arith, length-snoc pre us, (==_iff _ _).0 full))
            (tick_all-from [] times (omega arith))))
  | inr more ↦
      subst (λ l. IsLogged (tick_all (so_far pre) (us ∷ times)) l) (snoc-append pre us times)
        (rw (tick_all-more (so_far pre) us times more, ← sum-snoc pre us, ← length-snoc pre us)
          (tick_all-from (pre ++ us ∷ []) times (ground (arith, length-snoc pre us))))
]

-- Over any life of the detector task, however long each inference takes: the times fall into windows
-- of `DET_TIMING_WINDOW` in the order in which they come, the lines are those of the whole windows,
-- each with the sum of its times, and `acc_us` and `acc_n` are the sum and the number of the times
-- that are left, which are no whole window.
pub tick_all-IsLogged : (times : List ℕ) → IsLogged (tick_all quiet times) times
tick_all-IsLogged times = tick_all-from [] times (omega arith)

-- ===== src/Detect/Handover/Own.antt =====
-- main/task/task_video.cpp and task_detect.cpp: what is checked out is in the hands of a task.
use esp32_ipc.Base.{ℕ, suc, ◌+◌, ◌<◌, ◌≡◌, refl, ap, subst, arith, Bool, true, false, none, some}
use esp32_ipc.Base.Int.{pos}
use esp32_ipc.Esp.{Semaphore}
use esp32_ipc.FramePool.{free, ready, list_push, list_pop, release_at}
use esp32_ipc.FramePool.Inv.{held, list_pop-some}
use esp32_ipc.FramePool.Steps.{Machine}
use esp32_ipc.FramePool.Steps
use esp32_ipc.FramePool.Steps.Safe.{Inv, Step-Inv}
use esp32_ipc.Detect.Handover.{
  Hands, Step, acquires, pushes, gives, discards, takes, pops, releases,
}
use esp32_ipc.Detect.Handover.Held.{is, list_pop-held, list_push-held, list_pop_elem_num, released}

abbrev pub bit : Bool → ℕ
bit true = 1
bit false = 0

module _ (S : Semaphore) where
  open S use {Sem, give}

  -- The calls on the way, as the pool counts them.
  abbrev pub machine : Hands S → Machine S
  machine h = record { pool = h.pool; giving = bit h.giving; taking = bit h.taking }

  -- The elements that are checked out are those that a task holds.
  pub record Own (h : Hands S) : Type 0 where
    pub sound : Inv S (machine h)
    pub owners : (j : ℕ) → j < h.pool.elem_num → held h.pool j ≡ is h.filling j + is h.reading j
    pub filling_in : (i : ℕ) → h.filling ≡ some i → i < h.pool.elem_num
    pub reading_in : (i : ℕ) → h.reading ≡ some i → i < h.pool.elem_num
    pub given_first : (i : ℕ) → h.filling ≡ some i → h.giving ≡ false
    pub read_later : h.taking ≡ true → h.reading ≡ none

  filling-held : (h : Hands S) (i : ℕ) → Own h → h.filling ≡ some i → held h.pool i ≡ 1
  filling-held h i o e = ground (arith, o.owners i (o.filling_in i e), ap (λ f. is f i) e)

  reading-held : (h : Hands S) (i : ℕ) → Own h → h.reading ≡ some i → held h.pool i ≡ 1
  reading-held h i o e = ground (arith, o.owners i (o.reading_in i e), ap (λ f. is f i) e)

  false-true : false ≡ true → ⊥
  false-true e = absurd (cc)

  none-some : {i : ℕ} → none ≡ some i → ⊥
  none-some e = absurd (cc)

  Own-acquires :
      (h : Hands S)
      → Own h
      → h.filling ≡ none
      → h.giving ≡ false
      → Own (record h { pool = (list_pop h.pool free).1; filling = (list_pop h.pool free).0 })
  Own-acquires h o idle quiet =
      let v = o.sound.valid in
      let same = list_pop_elem_num h.pool free in
      record {
        sound = Step-Inv S Steps.acquires o.sound;
        owners = λ j k. omega (
          arith,
          list_pop-held h.pool free v j,
          o.owners j (omega (arith, same)),
          ap (λ f. is f j) idle,
        );
        filling_in = λ i e. omega (arith, same, (list_pop-some h.pool free i v e).0);
        reading_in = λ i e. omega (arith, same, o.reading_in i e);
        given_first = λ i e. quiet;
        read_later = o.read_later;
      }

  Own-pushes :
      (h : Hands S) (i : ℕ)
      → Own h
      → h.filling ≡ some i
      → Own (record h { pool = (list_push h.pool ready i).1; filling = none; giving = true })
  Own-pushes h i o e =
      let (done, moved, same) = list_push-held h.pool ready i (filling-held h i o e) in
      record {
        sound =
            subst
              (λ n.
                Inv S (record {
                  pool = (list_push h.pool ready i).1;
                  giving = n;
                  taking = bit h.taking;
                }))
              (ap (λ g. suc (bit g)) (o.given_first i e))
              (Step-Inv S (Steps.pushes i (o.filling_in i e) done) o.sound);
        owners =
            λ j k. omega (arith, moved j, o.owners j (omega (arith, same)), ap (λ f. is f j) e);
        filling_in = λ j q. absurd (none-some q);
        reading_in = λ j q. omega (arith, same, o.reading_in j q);
        given_first = λ j q. absurd (none-some q);
        read_later = o.read_later;
      }

  Own-discards :
      (h : Hands S) (i : ℕ)
      → Own h
      → h.filling ≡ some i
      → Own
          (record h { pool = (release_at h.pool (pos (h.pool.element i).index)).1; filling = none })
  Own-discards h i o e =
      let (moved, same) =
        released h.pool i o.sound.valid (o.filling_in i e) (filling-held h i o e) in
      record {
        sound = Step-Inv S (Steps.releases (pos (h.pool.element i).index)) o.sound;
        owners =
            λ j k. omega (arith, moved j, o.owners j (omega (arith, same)), ap (λ f. is f j) e);
        filling_in = λ j q. absurd (none-some q);
        reading_in = λ j q. omega (arith, same, o.reading_in j q);
        given_first = λ j q. absurd (none-some q);
        read_later = o.read_later;
      }

  Own-releases :
      (h : Hands S) (i : ℕ)
      → Own h
      → h.reading ≡ some i
      → Own
          (record h { pool = (release_at h.pool (pos (h.pool.element i).index)).1; reading = none })
  Own-releases h i o e =
      let (moved, same) =
        released h.pool i o.sound.valid (o.reading_in i e) (reading-held h i o e) in
      record {
        sound = Step-Inv S (Steps.releases (pos (h.pool.element i).index)) o.sound;
        owners =
            λ j k. omega (arith, moved j, o.owners j (omega (arith, same)), ap (λ f. is f j) e);
        filling_in = λ j q. omega (arith, same, o.filling_in j q);
        reading_in = λ j q. absurd (none-some q);
        given_first = o.given_first;
        read_later = λ q. refl;
      }

  Own-pops :
      (h : Hands S)
      → Own h
      → h.taking ≡ true
      → Own (record h {
        pool = (list_pop h.pool ready).1;
        taking = false;
        reading = (list_pop h.pool ready).0;
      })
  Own-pops h o due =
      let v = o.sound.valid in
      let same = list_pop_elem_num h.pool ready in
      record {
        sound = Step-Inv S (Steps.pops 0 (ap bit due)) o.sound;
        owners = λ j k. omega (
          arith,
          list_pop-held h.pool ready v j,
          o.owners j (omega (arith, same)),
          ap (λ f. is f j) (o.read_later due),
        );
        filling_in = λ i e. omega (arith, same, o.filling_in i e);
        reading_in = λ i e. omega (arith, same, (list_pop-some h.pool ready i v e).0);
        given_first = o.given_first;
        read_later = λ q. absurd (false-true q);
      }

  pub Step-Own : {h n : Hands S} → Step S h n → Own h → Own n
  Step-Own {h} (acquires idle quiet) o = Own-acquires h o idle quiet
  Step-Own {h} (pushes i e) o = Own-pushes h i o e
  Step-Own {h} (gives due) o = record {
    sound = Step-Inv S (Steps.gives 0 (ap bit due)) o.sound;
    owners = o.owners;
    filling_in = o.filling_in;
    reading_in = o.reading_in;
    given_first = λ i e. refl;
    read_later = o.read_later;
  }
  Step-Own {h} (discards i e) o = Own-discards h i o e
  Step-Own {h} (takes ticks s idle quiet e) o = record {
    sound =
        subst
          (λ n. Inv S (record {
            pool = record (h.pool) { ready_sem = s };
            giving = bit h.giving;
            taking = n;
          }))
          (ap (λ g. suc (bit g)) quiet) (Step-Inv S (Steps.takes ticks s e) o.sound);
    owners = o.owners;
    filling_in = o.filling_in;
    reading_in = o.reading_in;
    given_first = o.given_first;
    read_later = λ q. idle;
  }
  Step-Own {h} (pops due) o = Own-pops h o due
  Step-Own {h} (releases i e) o = Own-releases h i o e

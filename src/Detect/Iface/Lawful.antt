-- ===== src/Detect/Iface/Lawful.antt =====
-- main/core/detector.h: what the comments of `detector_iface_t` promise of the buffers that it lends,
-- and that both detectors of main/task/task_detect.cpp keep it.
use esp32_ipc.Base.{ℕ, ◌≡◌, refl, Option, none, some, sym, subst, ap, ◌∙◌}
use esp32_ipc.Esp.{EspErr, Semaphore, esp_ok}
use esp32_ipc.FramePool.{
  Pool, free, ready, list_push, list_pop, acquire, submit, submit_give, release,
}
use esp32_ipc.FramePool.Inv.{IsValid, list_pop-IsValid}
use esp32_ipc.FramePool.PutBack.{SameHeld, put_back, pop_from-none, released}
use esp32_ipc.Detect.Pedestrian.{DetInput, Started, acquire_input, submit_input, discard_input}
use esp32_ipc.Detect.Iface.{DetectorIface, pedestrian, disabled}

-- A buffer that is lent is back after `submit` and after `discard`, and a detector that lends none
-- keeps all: `Kept s s'` says that `s'` has the same buffers out as `s`.
pub record DetectorLaws {Score : Type 0} (D : DetectorIface Score) : Type 1 where
  pub Valid : D.Feed → Type 0
  pub Kept : D.Feed → D.Feed → Type 0
  pub still : (s : D.Feed) → Valid s → Kept s s
  pub busy : (s : D.Feed) → Valid s → (D.acquire_input s).0 ≡ none → Kept s (D.acquire_input s).1
  pub submitted :
      (s : D.Feed) (input : DetInput)
      → Valid s
      → (D.acquire_input s).0 ≡ some input
      → Kept s (D.submit (D.acquire_input s).1 input)
  pub discarded :
      (s : D.Feed) (input : DetInput)
      → Valid s
      → (D.acquire_input s).0 ≡ some input
      → Kept s (D.discard (D.acquire_input s).1 input)

pub none-some : {A : Type 0} {a : A} → none ≡ some a → ⊥
none-some e = absurd (cc)

pub some-injective : {A : Type 0} {a b : A} → some a ≡ some b → a ≡ b
some-injective e = cc

unfoldable pub disabled_laws : {Score : Type 0} → DetectorLaws {Score = Score} disabled
disabled_laws = record {
  Valid = λ s. Unit {0};
  Kept = λ s s'. s' ≡ s;
  still = λ s v. refl;
  busy = λ s v e. refl;
  submitted = λ s input v e. absurd (none-some e);
  discarded = λ s input v e. absurd (none-some e);
}

module _ (S : Semaphore) where
  open S use {Sem, give}

  given :
      (q : EspErr × Pool Sem) (p : Pool Sem)
      → q.0 ≡ esp_ok
      → SameHeld p q.1
      → SameHeld p (submit_give S q).1
  unfolding submit_give
  given (esp_ok, q) p e k = record {
    valid = record {
      one_place = k.valid.one_place;
      no_other = k.valid.no_other;
      own_index = k.valid.own_index;
    };
    same = k.same;
  }
  given (_, q) p e k = absurd (cc)

  pub acquire_input-none :
      (p : Pool Sem)
      → (list_pop p free).0 ≡ none
      → acquire_input S (some p) ≡ (none, some (list_pop p free).1)
  unfolding acquire_input acquire
  acquire_input-none p e = rw (e, acquire_input, acquire)

  pub acquire_input-some :
      (p : Pool Sem) (i : ℕ)
      → (list_pop p free).0 ≡ some i
      → acquire_input S (some p) ≡ (
        some (record { token = i; buffer_at = ((list_pop p free).1.element i).buffer }),
        some (list_pop p free).1,
      )
  unfolding acquire_input acquire
  acquire_input-some p i e = rw (e, acquire_input, acquire)

  the_input :
      (p : Pool Sem) (input : DetInput) (i : ℕ)
      → (list_pop p free).0 ≡ some i
      → (acquire_input S (some p)).0 ≡ some input
      → input ≡ record { token = i; buffer_at = ((list_pop p free).1.element i).buffer }
  the_input p input i e h = some-injective (sym h ∙ ap (λ q. q.0) (acquire_input-some p i e))

  -- `p` is still the pool, and its buffers are where they were.
  abbrev pub KeepsPool : Pool Sem → Option (Pool Sem) → Type 0
  KeepsPool p s = (p' : Pool Sem) × (s ≡ some p') × SameHeld p p'

  pub ped_busy :
      (p : Pool Sem) (o : Option ℕ)
      → IsValid p
      → (list_pop p free).0 ≡ o
      → (acquire_input S (some p)).0 ≡ none
      → KeepsPool p (acquire_input S (some p)).1
  unfolding list_pop
  ped_busy p none v e h = rw (acquire_input-none p e) (
    _,
    refl,
    subst (SameHeld p) (sym (pop_from-none p free p.free_list e))
        (record { valid = v; same = λ j. refl }),
  )
  ped_busy p (some i) v e h = absurd (none-some (sym h ∙ ap (λ q. q.0) (acquire_input-some p i e)))

  pub ped_submitted :
      (p : Pool Sem) (input : DetInput) (o : Option ℕ)
      → IsValid p
      → (list_pop p free).0 ≡ o
      → (acquire_input S (some p)).0 ≡ some input
      → KeepsPool p (submit_input S (acquire_input S (some p)).1 input)
  unfolding submit_input submit
  ped_submitted p input none v e h =
      absurd (none-some (sym (ap (λ q. q.0) (acquire_input-none p e)) ∙ h))
  ped_submitted p input (some i) v e h =
      let (done, same, small) = put_back p free ready i v e in
      rw (the_input p input i e h, acquire_input-some p i e)
        (_, refl, given (list_push (list_pop p free).1 ready i) p done same)

  pub ped_discarded :
      (p : Pool Sem) (input : DetInput) (o : Option ℕ)
      → IsValid p
      → (list_pop p free).0 ≡ o
      → (acquire_input S (some p)).0 ≡ some input
      → KeepsPool p (discard_input S (acquire_input S (some p)).1 input)
  unfolding discard_input release
  ped_discarded p input none v e h =
      absurd (none-some (sym (ap (λ q. q.0) (acquire_input-none p e)) ∙ h))
  ped_discarded p input (some i) v e h =
      let (done, same, small) = put_back p free free i v e in
      let w = list_pop-IsValid p free v in
      rw (the_input p input i e h, acquire_input-some p i e)
        (_, refl, released p (list_pop p free).1 i small (w.own_index i small) same)

  unfoldable pub pedestrian_laws :
      {Score : Type 0} (started : EspErr × Started S)
      → DetectorLaws {Score = Score} (pedestrian S started)
  pedestrian_laws started = record {
    Valid = λ s. (p : Pool Sem) → s ≡ some p → IsValid p;
    Kept = λ s s'. (p : Pool Sem) → s ≡ some p → KeepsPool p s';
    still = λ s v p e. (p, e, record { valid = v p e; same = λ j. refl });
    busy = λ s v h p e.
        subst (λ q. KeepsPool p (acquire_input S q).1) (sym e)
          (ped_busy p _ (v p e) refl (ap (λ q. (acquire_input S q).0) (sym e) ∙ h));
    submitted = λ s input v h p e.
        subst (λ q. KeepsPool p (submit_input S (acquire_input S q).1 input)) (sym e)
          (ped_submitted p input _ (v p e) refl (ap (λ q. (acquire_input S q).0) (sym e) ∙ h));
    discarded = λ s input v h p e.
        subst (λ q. KeepsPool p (discard_input S (acquire_input S q).1 input)) (sym e)
          (ped_discarded p input _ (v p e) refl (ap (λ q. (acquire_input S q).0) (sym e) ∙ h));
  }

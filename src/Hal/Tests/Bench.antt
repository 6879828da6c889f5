-- ===== src/Hal/Tests/Bench.antt =====
-- A device that keeps the indices of the buffers of its two queues, and takes and answers every call
-- that V4L2 lets it.
use esp32_ipc.Base.{
  ℕ, ◌<◌, ◌≡◌, ◌≢◌, ◌==◌, ◌&&◌, ltb, if◌then◌else◌, arith, refl, true, false, Option, none, some,
  List, [], ◌∷◌,
}
use esp32_ipc.FramePool.Places.{occ}
use esp32_ipc.Hal.Device.{
  Device, Reply, Queue, Request, capture, output, reqbufs, qbuf, qbuf_userptr, dqbuf, after,
  s_dqbuf_timeout, s_ext_ctrl, s_fmt, querybuf, streamon,
}

pub record Slots : Type 0 where
  pub caps : List ℕ
  pub outs : List ℕ

abbrev pub buffers_of : Slots → Queue → List ℕ
buffers_of d capture = d.caps
buffers_of d output = d.outs

abbrev pub queued : Slots → Queue → ℕ → ℕ
queued d q i = occ i (buffers_of d q)

abbrev pub reply : ℕ → Reply
reply i = record { index = i; bytesused = 700; flag_error = false; length = 4096; offset = 64 }

abbrev pub put : Slots → Queue → List ℕ → Slots
put d capture l = record d { caps = l }
put d output l = record d { outs = l }

abbrev pub took : Slots → Queue → List ℕ → Option Reply × Slots
took d q [] = (none, d)
took d q (i ∷ rest) = (some (reply i), put d q rest)

-- Three buffers of a queue.
abbrev pub takes_in : Slots → Queue → ℕ → Option Reply × Slots
takes_in d q i =
    if ltb i 3 && (queued d q i == 0)
    then (some (reply i), put d q (i ∷ buffers_of d q))
    else (none, d)

abbrev pub ioctl : Request → Slots → Option Reply × Slots
ioctl (reqbufs q n) d = (some (reply 0), put d q [])
ioctl (qbuf q i) d = takes_in d q i
ioctl (qbuf_userptr i a n) d = takes_in d output i
ioctl (dqbuf q) d = took d q (buffers_of d q)
ioctl _ d = (some (reply 0), d)

took_ok :
    (p q : Queue) (d d' : Slots) (x : Reply) (i : ℕ) (l : List ℕ)
    → buffers_of d p ≡ l
    → took d p l ≡ (some x, d')
    → queued d' q i ≡ after (dqbuf p) x q i (queued d q i)
took_ok p q d d' x i [] e h = absurd (cc)
took_ok capture q d d' x i (k ∷ l) e h = ground arith
took_ok output q d d' x i (k ∷ l) e h = ground arith

pub ioctl_ok :
    (r : Request) (q : Queue) (d d' : Slots) (x : Reply)
    → ioctl r d ≡ (some x, d')
    → (i : ℕ) → queued d' q i ≡ after r x q i (queued d q i)
ioctl_ok (dqbuf p) q d d' x h i = took_ok p q d d' x i (buffers_of d p) refl h
ioctl_ok (reqbufs capture n) q d d' x h i = ground arith
ioctl_ok (reqbufs output n) q d d' x h i = ground arith
ioctl_ok (qbuf capture k) q d d' x h i = ground arith
ioctl_ok (qbuf output k) q d d' x h i = ground arith
ioctl_ok (qbuf_userptr k a n) q d d' x h i = ground arith
ioctl_ok (s_dqbuf_timeout s u) q d d' x h i = ground arith
ioctl_ok (s_ext_ctrl c v) q d d' x h i = ground arith
ioctl_ok (s_fmt p w t f n) q d d' x h i = ground arith
ioctl_ok (querybuf p k) q d d' x h i = ground arith
ioctl_ok (streamon p) q d d' x h i = ground arith

took_fail :
    (p q : Queue) (d d' : Slots) (i : ℕ) (l : List ℕ)
    → took d p l ≡ (none, d')
    → queued d' q i ≡ queued d q i
took_fail p q d d' i [] h = ground arith
took_fail p q d d' i (k ∷ l) h = absurd (cc)

pub ioctl_fail :
    (r : Request) (q : Queue) (d d' : Slots)
    → ioctl r d ≡ (none, d')
    → (i : ℕ) → queued d' q i ≡ queued d q i
ioctl_fail (dqbuf p) q d d' h i = took_fail p q d d' i (buffers_of d p) h
ioctl_fail (qbuf p k) q d d' h i = ground arith
ioctl_fail (qbuf_userptr k a n) q d d' h i = ground arith
ioctl_fail _ q d d' h i = ground arith

took-some :
    (q : Queue) (d d' : Slots) (x : Reply) (l : List ℕ)
    → took d q l ≡ (some x, d')
    → 0 < occ x.index l
took-some q d d' x [] h = absurd (cc)
took-some q d d' x (k ∷ l) h = ground arith

pub dqbuf_some :
    (q : Queue) (d d' : Slots) (x : Reply)
    → ioctl (dqbuf q) d ≡ (some x, d')
    → 0 < queued d q x.index
dqbuf_some q d d' x h = took-some q d d' x (buffers_of d q) h

pub userptr_once :
    (index address length : ℕ) (d d' : Slots) (x : Reply)
    → ioctl (qbuf_userptr index address length) d ≡ (some x, d')
    → queued d output index ≡ 0
userptr_once index address length d d' x h = ground arith

abbrev pub bench : Device
bench = record {
  Dev = Slots;
  opens = λ d. true;
  ioctl = ioctl;
  mmap = λ d length offset. offset;
  queued = queued;
  queued_ok = ioctl_ok;
  queued_fail = ioctl_fail;
  dqbuf_some = dqbuf_some;
  userptr_once = userptr_once;
}

pub accepts :
    (i : ℕ) (d : Slots) → i < 3 → queued d capture i ≡ 0 → (ioctl (qbuf capture i) d).0 ≢ none
accepts i d small lent e = ground arith

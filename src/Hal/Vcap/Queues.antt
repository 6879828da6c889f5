-- ===== src/Hal/Vcap/Queues.antt =====
-- Which buffers the capture driver has after each call.
use esp32_ipc.Base.{
  ℕ, zero, suc, ◌+◌, ◌/◌, ◌%◌, ◌^◌, ◌<◌, ◌≡◌, ◌≢◌, refl, ap, arith, not, ◌==◌, true, false, Bool,
  store, none, inl, inr, leb, ltb, ◌&&◌, if◌then◌else◌,
}
use esp32_ipc.Config.{cap_buf_count}
use esp32_ipc.Esp.{EspErr, esp_fail, esp_err_no_mem}
use esp32_ipc.Hal.Device.{Device, capture, yuv420, s_fmt, reqbufs, querybuf, qbuf}
use esp32_ipc.Hal.Device.Outcome.{
  Outcome, gives, needs_that, needs-gives, needs_that-gives, Answer-cases,
}
use esp32_ipc.Hal.Vcap.{Vcap, VcapFrame, map_buffers, open_vcap, release}

-- What the loop has done: the first `n` buffers are mapped, and the geometry is that of `cap`.
pub record IsMapped (cap : Vcap) (n : ℕ) (cap' : Vcap) : Type 0 where
  pub mapped : (j : ℕ) → j < n → cap'.mmap j ≢ 0
  pub width : cap'.width ≡ cap.width
  pub height : cap'.height ≡ cap.height
  pub stride : cap'.stride ≡ cap.stride

mapped_next :
    (cap : Vcap) (i at : ℕ)
    → ((j : ℕ) → j < i → cap.mmap j ≢ 0)
    → at ≢ 0
    → (j : ℕ) → j < suc i
    → store cap.mmap i at j ≢ 0
mapped_next cap i at m set j k = ground (arith, m j)

module _ (D : Device) where
  open D use {Dev, ioctl, queued, queued_ok, dqbuf_some}

  tested-gives :
      {A : Type 0} (b : Bool) (e : EspErr) (d : Dev) (rest : Outcome Dev A) (a : A) (d' : Dev)
      → needs_that b e d rest ≡ gives a d'
      → b ≡ true
  tested-gives true e d rest a d' h = refl
  tested-gives false e d rest a d' h = absurd (cc)

  map_buffers-gives :
      (cap : Vcap) (i left : ℕ) (d d' : Dev) (cap' : Vcap)
      → ((j : ℕ) → j < i → cap.mmap j ≢ 0)
      → map_buffers D cap i left d ≡ gives cap' d'
      → ((j : ℕ)
          → queued d' capture j
            ≡ queued d capture j + (if leb i j && ltb j (i + left) then 1 else 0))
        × IsMapped cap (i + left) cap'
  unfolding map_buffers
  map_buffers-gives cap i zero d d' cap' m h =
      let same : cap ≡ cap' = cc in
      let back : d ≡ d' = cc in
      rw (← same, ← back)
        (
          λ j. ground arith,
          record { mapped = λ j k. m j (omega arith); width = refl; height = refl; stride = refl },
        )
  map_buffers-gives cap i (suc left) d d' cap' m h =
      let (buf, d1, asked, h1) = needs-gives (ioctl (querybuf capture i) d) esp_fail _ cap' d' h in
      let at = D.mmap d1 buf.length buf.offset in
      let set = tested-gives (not (at == 0)) esp_err_no_mem d1 _ cap' d' h1 in
      let (x, d2, put, h2) =
        needs-gives (ioctl (qbuf capture i) d1) esp_fail _ cap' d'
          (needs_that-gives (not (at == 0)) esp_err_no_mem d1 _ cap' d' h1) in
      let cap1 : Vcap = record cap {
        mmap = store cap.mmap i at;
        length = store cap.length i buf.length;
      } in
      let (n, mapped) =
        map_buffers-gives cap1 (suc i) left d2 d' cap'
          (λ j k. mapped_next cap i at m (ground arith) j k) h2 in
      (
        λ j. ground (
          arith,
          n j,
          queued_ok (querybuf capture i) capture d d1 buf asked j,
          queued_ok (qbuf capture i) capture d1 d2 x put j,
        ),
        record {
          mapped = λ j k. mapped.mapped j (omega arith);
          width = mapped.width;
          height = mapped.height;
          stride = mapped.stride;
        },
      )

  -- `hal_vcap_open` succeeds with each of the `CAP_BUF_COUNT` buffers mapped and in the hands of the
  -- driver, once, and no other, and with the row size of packed YUV420.
  pub open_vcap-gives :
      (cap cap' : Vcap) (width height : ℕ) (d d' : Dev)
      → open_vcap D cap width height d ≡ gives cap' d'
      → ((j : ℕ) → queued d' capture j ≡ (if ltb j cap_buf_count then 1 else 0))
        × ((j : ℕ) → j < cap_buf_count → cap'.mmap j ≢ 0)
        × (cap'.height ≡ height)
        × (cap'.stride ≡ (width + width / 2) % 2 ^ 32)
  unfolding open_vcap
  open_vcap-gives cap cap' width height d d' h =
      let h1 = needs_that-gives (D.opens d) esp_fail d _ cap' d' h in
      let (x2, d2, e2, h2) =
        needs-gives (ioctl (s_fmt capture width height yuv420 0) _) esp_fail _ cap' d' h1 in
      let (x3, d3, e3, h3) =
        needs-gives (ioctl (reqbufs capture cap_buf_count) d2) esp_fail _ cap' d' h2 in
      let cap2 : Vcap = record cap {
        width = width;
        height = height;
        stride = (width + width / 2) % 2 ^ 32;
      } in
      let (n, m) =
        map_buffers-gives cap2 0 cap_buf_count d3 d' cap' (λ j k. absurd (omega arith)) h3 in
      (
        λ j. ground (arith, n j, queued_ok (reqbufs capture cap_buf_count) capture d2 d3 x3 e3 j),
        m.mapped,
        m.height,
        m.stride,
      )

  -- The driver takes any of its first `n` buffers that it does not have. V4L2 refuses an index that is
  -- out of range, and a buffer that is queued.
  abbrev pub Accepts : ℕ → Type 0
  Accepts n =
      (i : ℕ) (d : Dev) → i < n → queued d capture i ≡ 0 → (ioctl (qbuf capture i) d).0 ≢ none

  pub qbuf_lem :
      {n : ℕ}
      → Accepts n
      → (i : ℕ) (d : Dev) → i < n
      → queued d capture i ≡ 0
      → (j : ℕ)
      → queued (ioctl (qbuf capture i) d).1 capture j
        ≡ (if j == i then suc (queued d capture j) else queued d capture j)
  qbuf_lem accepts i d small lent j = elim (Answer-cases (ioctl (qbuf capture i) d)) [
    | inl (d', e) ↦ absurd (accepts i d small lent (ap (λ c. c.0) e))
    | inr (x, d', e) ↦ rw e (queued_ok (qbuf capture i) capture d d' x e j)
  ]

  pub release_lem :
      {n : ℕ}
      → Accepts n
      → (frame : VcapFrame) (d : Dev) → frame.buf.index < n
      → queued d capture frame.buf.index ≡ 0
      → (j : ℕ)
      → queued (release D frame d).1 capture j
        ≡ (if j == frame.buf.index then suc (queued d capture j) else queued d capture j)
  unfolding release
  release_lem accepts frame d small lent j = qbuf_lem accepts frame.buf.index d small lent j

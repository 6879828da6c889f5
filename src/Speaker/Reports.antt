-- ===== src/Speaker/Reports.antt =====
-- main/task/task_speaker.cpp: what the overflow reports of `task_speaker` add up to.
use esp32_ipc.Base.{ℕ, ◌+◌, ◌-◌, ◌%◌, ◌^◌, ◌<◌, ◌≡◌, arith, Option, none, some, List}
use esp32_ipc.Esp.{StreamBuffer}
use esp32_ipc.Speaker.{Speaker, Report, submit, play, report}
use esp32_ipc.Speaker.Stream.{lost, submit-dropped}

-- The number of a line, if one is logged.
abbrev pub shown : Option ℕ → ℕ
shown none = 0
shown (some n) = n

module _ (B : StreamBuffer) where
  open B use {Buf}

  -- The speaker, what its task keeps of the reports, the bytes that were lost so far, and those that
  -- the lines show.
  pub record Life : Type 0 where
    pub speaker : Speaker B
    pub kept : Report B
    pub lost_bytes : ℕ
    pub shown_bytes : ℕ

  -- The peer task submits a payload; the speaker task plays, or comes to the end of a round and reads
  -- the tick count twice, of which `second` are a second.
  pub data Step (l : Life) : Life → Type 0 where
    submits :
        (payload : List ℕ)
        → Step l (record l {
          speaker = (submit B l.speaker payload).1;
          lost_bytes = l.lost_bytes + lost B l.speaker.jitter payload;
        })
    plays :
        (buf : Buf)
        → l.speaker.jitter ≡ some buf
        → Step l (record l { speaker = record (l.speaker) { jitter = some (play B buf).1 } })
    reports :
        (now later second : ℕ)
        → Step l (record l {
          kept = (report B l.kept l.speaker.dropped now later second).1;
          shown_bytes =
              l.shown_bytes + shown (report B l.kept l.speaker.dropped now later second).0;
        })

  pub data Reach (l : Life) : Life → Type 0 where
    here : Reach l l
    next : {k n : Life} → Reach l k → Step k n → Reach l n

  -- The two counters fit 32 bits and are what was lost and what was shown, modulo 2^32.
  pub record Accounts (l : Life) : Type 0 where
    pub dropped_fits : l.speaker.dropped < 2 ^ 32
    pub reported_fits : l.kept.reported < 2 ^ 32
    pub all_lost : l.speaker.dropped ≡ l.lost_bytes % 2 ^ 32
    pub all_shown : l.kept.reported ≡ l.shown_bytes % 2 ^ 32

  report-reported :
      (r : Report B) (dropped now later second total : ℕ)
      → r.reported < 2 ^ 32
      → dropped < 2 ^ 32
      → r.reported ≡ total % 2 ^ 32
      → let (line, r') = report B r dropped now later second in
        (r'.reported < 2 ^ 32) × (r'.reported ≡ (total + shown line) % 2 ^ 32)
  unfolding report
  report-reported r dropped now later second total small fits e = (ground arith, ground arith)

  Step-Accounts : {l n : Life} → Step l n → Accounts l → Accounts n
  Step-Accounts {l} (submits payload) a =
      let (e, whole) = submit-dropped B l.speaker payload a.dropped_fits in
      record {
        dropped_fits = omega (arith, e);
        reported_fits = a.reported_fits;
        all_lost = omega (arith, e, a.all_lost);
        all_shown = a.all_shown;
      }
  Step-Accounts {l} (plays buf e) a = record {
    dropped_fits = a.dropped_fits;
    reported_fits = a.reported_fits;
    all_lost = a.all_lost;
    all_shown = a.all_shown;
  }
  Step-Accounts {l} (reports now later second) a =
      let (small, e) =
        report-reported l.kept l.speaker.dropped now later second l.shown_bytes a.reported_fits
          a.dropped_fits a.all_shown in
      record {
        dropped_fits = a.dropped_fits;
        reported_fits = small;
        all_lost = a.all_lost;
        all_shown = e;
      }

  Reach-Accounts : {l n : Life} → Reach l n → Accounts l → Accounts n
  Reach-Accounts here a = a
  Reach-Accounts (next r s) a = Step-Accounts s (Reach-Accounts r a)

  -- From counters that account for what was lost and what was shown, however the peer task and the
  -- speaker task take turns: the bytes that the lines show and the difference of the two counters,
  -- which the next line will show, make up the bytes that the jitter buffer did not take, modulo 2^32.
  pub Reach-reported :
      {l n : Life}
      → Reach l n
      → Accounts l
      → (n.shown_bytes + (n.speaker.dropped + 2 ^ 32 - n.kept.reported) % 2 ^ 32) % 2 ^ 32
        ≡ n.lost_bytes % 2 ^ 32
  Reach-reported {l} {n} r a =
      let b = Reach-Accounts r a in
      omega (arith, b.dropped_fits, b.reported_fits, b.all_lost, b.all_shown)

-- ===== src/Speaker/Tests.antt =====
-- A stream buffer as a list of bytes, and the theorems on main/task/task_speaker.cpp with it.
use esp32_ipc.Base.{
  ℕ, ◌+◌, ◌%◌, ◌^◌, ◌≡◌, ◌-◌, refl, sym, arith, min, some, List, [], ◌∷◌, ◌++◌, length, take, drop,
  take-append-drop, length-take,
}
use esp32_ipc.Base.Int.{pos, negsuc}
use esp32_ipc.G711.{decode, expand, negate}
use esp32_ipc.Esp.{StreamBuffer}
use esp32_ipc.Speaker.{submit, submit_to, play, report}
use esp32_ipc.Speaker.Reports
use esp32_ipc.Speaker.Reports.{Life, Reach-reported}
use esp32_ipc.Speaker.Stream.{Run, Reach, here, next, submits, plays, IsFaithful, Reach-IsFaithful}

pub record Bytes : Type 0 where
  pub bytes : List ℕ
  pub limit : ℕ

abbrev pub send : Bytes → List ℕ → ℕ × Bytes
send b more =
    let n = min (length more) (b.limit - length b.bytes) in
    (n, record b { bytes = b.bytes ++ take n more })

abbrev pub receive : Bytes → ℕ → List ℕ × Bytes
receive b most = (take most b.bytes, record b { bytes = drop most b.bytes })

abbrev pub listed : StreamBuffer
listed = record {
  Buf = Bytes;
  send = send;
  receive = receive;
  contents = λ b. b.bytes;
  room = λ b. b.limit - length b.bytes;
  send_lem = λ b more. (refl, refl);
  receive_lem =
      λ b most. (omega (arith, length-take most b.bytes), sym (take-append-drop most b.bytes));
}

abbrev start : Run listed
start = record {
  speaker = record { jitter = some (record { bytes = []; limit = 3 }); dropped = 0 };
  accepted = [];
  played = [];
}

-- The second payload does not fit.
abbrev finish : Run listed
finish = record {
  speaker = record { jitter = some (record { bytes = []; limit = 3 }); dropped = 1 };
  accepted = 213 ∷ 85 ∷ 42 ∷ [];
  played = pos 8 ∷ negsuc 7 ∷ negsuc 32255 ∷ [];
}

to_finish : Reach listed start finish
unfolding submit submit_to play decode expand negate
to_finish =
    next (next (next here (submits (213 ∷ 85 ∷ []))) (submits (42 ∷ 170 ∷ [])))
      (plays (record { bytes = 213 ∷ 85 ∷ 42 ∷ []; limit = 3 }) refl)

Reach-IsFaithful_example : IsFaithful listed finish
Reach-IsFaithful_example = Reach-IsFaithful listed to_finish refl

-- Nothing is lost or shown yet.
abbrev quiet : Life listed
quiet = record {
  speaker = record { jitter = some (record { bytes = []; limit = 3 }); dropped = 0 };
  kept = record { reported = 0; next_report = 0 };
  lost_bytes = 0;
  shown_bytes = 0;
}

-- Two bytes of a payload of five do not fit and are shown; of the next payload none fits.
abbrev reported : Life listed
reported = record {
  speaker = record { jitter = some (record { bytes = 1 ∷ 2 ∷ 3 ∷ []; limit = 3 }); dropped = 3 };
  kept = record { reported = 2; next_report = 1010 };
  lost_bytes = 3;
  shown_bytes = 2;
}

to_reported : Reports.Reach listed quiet reported
unfolding submit submit_to report
to_reported =
    Reports.next
      (Reports.next (Reports.next Reports.here (Reports.submits (1 ∷ 2 ∷ 3 ∷ 4 ∷ 5 ∷ [])))
        (Reports.reports 10 10 1000))
      (Reports.submits (6 ∷ []))

Reach-reported_example : (2 + (3 + 2 ^ 32 - 2) % 2 ^ 32) % 2 ^ 32 ≡ 3 % 2 ^ 32
Reach-reported_example = Reach-reported listed to_reported (record {
  dropped_fits = omega arith;
  reported_fits = omega arith;
  all_lost = refl;
  all_shown = refl;
})

-- ===== src/Webrtc/Keyframe.antt =====
-- The requests for a key frame, under any interleaving of the peer task, which raises the flag, and the
-- encode task, which reads it and then clears it.
use esp32_ipc.Base.{◌≡◌, refl, Bool, true, false, Option, none, some, if◌then◌else◌}
use esp32_ipc.Webrtc.{Webrtc, on_request_keyframe, read_request, clear_request}

-- The file's statics, what the encode task has read when it is between its two statements, and whether
-- a request has come that no read has seen.
pub record Tasks : Type 0 where
  pub webrtc : Webrtc
  pub read : Option Bool
  pub unseen : Bool

pub data Step (m : Tasks) : Tasks → Type 0 where
  requests : Step m (record m { webrtc = on_request_keyframe m.webrtc; unseen = true })
  reads :
      m.read ≡ none
      → Step m (record m {
        read = some (read_request m.webrtc);
        unseen = if read_request m.webrtc then false else m.unseen;
      })
  clears :
      (answer : Bool)
      → m.read ≡ some answer
      → Step m (record m { webrtc = clear_request m.webrtc; read = none })

pub data Reach (m : Tasks) : Tasks → Type 0 where
  here : Reach m m
  next : {k n : Tasks} → Reach m k → Step k n → Reach m n

-- A request that comes between the read and the clear is lost: from every state outside the two
-- statements, the two tasks reach one in which a request is unseen and the flag is clear.
pub request_lost :
    (m : Tasks)
    → m.read ≡ none
    → (n : Tasks) × Reach m n
      × (n.read ≡ none)
      × (n.unseen ≡ true)
      × (read_request n.webrtc ≡ false)
unfolding read_request clear_request on_request_keyframe
request_lost m idle = (
  _,
  next (next (next here (reads idle)) requests) (clears (read_request m.webrtc) refl),
  refl,
  refl,
  refl,
)

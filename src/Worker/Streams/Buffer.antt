-- ===== src/Worker/Streams/Buffer.antt =====
-- streamSession of internal/worker/instant_logs.go, from the connected stream on: the buffer of lines
-- and its uploads.
--
-- Each turn of the `select` loop is an event, with the time at which an upload in that turn is
-- made and whether PutLogs accepts it. The uploads that were accepted are what is stored.
pub mod Complete
use rainlogs.Prelude.{ℕ, Bool, List, [], ◌∷◌, ◌++◌, length, leb, if◌then◌else◌, Bytes, codes}
use rainlogs.Models.{Zone}
use rainlogs.Storage.{Upload}

pub data Event : Type 0 where
  context_done : Event
  tick : Event
  closed : Event
  message : Bytes → Event

pub record Turn : Type 0 where
  pub event : Event
  pub now : ℕ
  pub accepted : Bool

-- The variables of the session, and the uploads that were accepted, oldest first.
pub record Session : Type 0 where
  pub buffer : List Bytes
  pub last_upload : ℕ
  pub stored : List Upload

-- How the loop was left: cleanly, because the remote side closed, or not yet.
pub data Exit : Type 0 where
  clean closed_by_remote running : Exit

-- Every line and a newline after it.
unfoldable pub raw_of : List Bytes → Bytes
raw_of [] = []
raw_of (line ∷ lines) = line ++ (b'\n' ∷ raw_of lines)

abbrev pub batch_size : ℕ
batch_size = 2000

module _ (customer_id zone_id : ℕ) where
  abbrev pub batch : ℕ → Session → Upload
  batch now s = record {
    customer_id = customer_id;
    zone_id = zone_id;
    from = s.last_upload;
    to = now;
    raw = raw_of s.buffer;
    log_type = codes "instant";
  }

  abbrev pub flushed : ℕ → Session → List Upload → Session
  flushed now s stored = record { buffer = []; last_upload = now; stored = stored }

  -- A failed upload is only logged, and the buffer is emptied all the same.
  unfoldable pub upload_some : ℕ → Bool → Session → Session
  upload_some now accepted s =
      if accepted then flushed now s (s.stored ++ batch now s ∷ []) else flushed now s s.stored

  unfoldable pub upload_lines : ℕ → Bool → Session → List Bytes → Session
  upload_lines now accepted s [] = s
  upload_lines now accepted s (line ∷ lines) = upload_some now accepted s

  -- The closure `upload`.
  unfoldable pub upload : ℕ → Bool → Session → Session
  upload now accepted s = upload_lines now accepted s s.buffer

  abbrev pub added : Bytes → Session → Session
  added line s = record s { buffer = s.buffer ++ line ∷ [] }

  -- The case of a message that came.
  unfoldable pub receive : ℕ → Bool → Bytes → Session → Session
  receive now accepted line s =
      if leb batch_size (length (added line s).buffer)
      then upload now accepted (added line s)
      else added line s

  -- One turn, with what the loop goes on with.
  unfoldable pub run_turn : Event → ℕ → Bool → (Session → Session × Exit) → Session → Session × Exit
  run_turn context_done now accepted rest s = (upload now accepted s, clean)
  run_turn closed now accepted rest s = (upload now accepted s, closed_by_remote)
  run_turn tick now accepted rest s = rest (upload now accepted s)
  run_turn (message line) now accepted rest s = rest (receive now accepted line s)

  -- The loop.
  unfoldable pub run : List Turn → Session → Session × Exit
  run [] s = (s, running)
  run (t ∷ ts) s = run_turn t.event t.now t.accepted (run ts) s

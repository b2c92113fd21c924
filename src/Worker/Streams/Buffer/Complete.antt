-- ===== src/Worker/Streams/Buffer/Complete.antt =====
-- Which lines of a stream are stored.
use rainlogs.Prelude.{
  ℕ, ◌<◌, ◌≡◌, refl, ap, sym, ◌∙◌, ◌≢◌, inl, inr, arith, Bool, true, false, List, [], ◌∷◌, ◌++◌,
  append_assoc, append-nil, length, leb, Bytes, All, Bool-cases,
}
use rainlogs.Storage.{Upload}
use rainlogs.Worker.Streams.Buffer.{
  Event, context_done, tick, closed, message, Turn, Session, Exit, running, raw_of, batch_size,
  batch, upload_some, upload_lines, upload, added, receive, run_turn, run,
}

-- The bytes of the uploads, in order.
abbrev pub all_raw : List Upload → Bytes
all_raw [] = []
all_raw (u ∷ us) = u.raw ++ all_raw us

abbrev received_turn : Event → List Bytes → List Bytes
received_turn context_done rest = []
received_turn closed rest = []
received_turn tick rest = rest
received_turn (message line) rest = line ∷ rest

-- The lines that come before the stream ends.
abbrev pub received : List Turn → List Bytes
received [] = []
received (t ∷ ts) = received_turn t.event (received ts)

-- What is stored, and what is still to be stored.
abbrev pub content : Session → Bytes
content s = all_raw s.stored ++ raw_of s.buffer

raw_of-append : (a b : List Bytes) → raw_of (a ++ b) ≡ raw_of a ++ raw_of b
unfolding raw_of
raw_of-append [] b = refl
raw_of-append (x ∷ a) b =
    rw (raw_of-append a b) (sym (append_assoc x (b'\n' ∷ raw_of a) (raw_of b)))

all_raw-append : (us vs : List Upload) → all_raw (us ++ vs) ≡ all_raw us ++ all_raw vs
all_raw-append [] vs = refl
all_raw-append (u ∷ us) vs =
    rw (all_raw-append us vs) (sym (append_assoc u.raw (all_raw us) (all_raw vs)))

module _ (customer_id zone_id : ℕ) where
  content-upload_some :
      (now : ℕ) (s : Session) → content (upload_some customer_id zone_id now true s) ≡ content s
  unfolding upload_some raw_of
  content-upload_some now s =
      append-nil _
      ∙ all_raw-append s.stored (batch customer_id zone_id now s ∷ [])
      ∙ ap (λ r. all_raw s.stored ++ r) (append-nil (raw_of s.buffer))

  content-upload_lines :
      (now : ℕ) (s : Session) (lines : List Bytes)
      → content (upload_lines customer_id zone_id now true s lines) ≡ content s
  unfolding upload_lines
  content-upload_lines now s [] = refl
  content-upload_lines now s (line ∷ lines) = content-upload_some now s

  content-upload :
      (now : ℕ) (s : Session) → content (upload customer_id zone_id now true s) ≡ content s
  unfolding upload
  content-upload now s = content-upload_lines now s s.buffer

  content-added :
      (line : Bytes) (s : Session)
      → content (added customer_id zone_id line s) ≡ content s ++ raw_of (line ∷ [])
  content-added line s =
      ap (λ r. all_raw s.stored ++ r) (raw_of-append s.buffer (line ∷ []))
      ∙ sym (append_assoc (all_raw s.stored) (raw_of s.buffer) (raw_of (line ∷ [])))

  content-receive :
      (now : ℕ) (line : Bytes) (s : Session)
      → content (receive customer_id zone_id now true line s) ≡ content s ++ raw_of (line ∷ [])
  unfolding receive
  content-receive now line s =
      elim (Bool-cases (leb batch_size (length (added customer_id zone_id line s).buffer))) [
        | inl full ↦ rw full (content-upload now _ ∙ content-added line s)
        | inr below ↦ rw below (content-added line s)
      ]

  upload_lines-empty :
      (now : ℕ) (accepted : Bool) (s : Session) (lines : List Bytes)
      → s.buffer ≡ lines
      → (upload_lines customer_id zone_id now accepted s lines).buffer ≡ []
  unfolding upload_lines upload_some
  upload_lines-empty now accepted s [] e = e
  upload_lines-empty now true s (line ∷ lines) e = refl
  upload_lines-empty now false s (line ∷ lines) e = refl

  upload-empty :
      (now : ℕ) (accepted : Bool) (s : Session)
      → (upload customer_id zone_id now accepted s).buffer ≡ []
  unfolding upload
  upload-empty now accepted s = upload_lines-empty now accepted s s.buffer refl

  content-run_turn :
      (e : Event) (now : ℕ) (rest : Session → Session × Exit) (lines : List Bytes) (s : Session)
      → ((s : Session) → content (rest s).0 ≡ content s ++ raw_of lines)
      → content (run_turn customer_id zone_id e now true rest s).0
        ≡ content s ++ raw_of (received_turn e lines)
  unfolding run_turn raw_of
  content-run_turn context_done now rest lines s ih =
      content-upload now s ∙ sym (append-nil (content s))
  content-run_turn closed now rest lines s ih = content-upload now s ∙ sym (append-nil (content s))
  content-run_turn tick now rest lines s ih =
      ih (upload customer_id zone_id now true s)
      ∙ ap (λ r. r ++ raw_of lines) (content-upload now s)
  content-run_turn (message line) now rest lines s ih =
      ih (receive customer_id zone_id now true line s)
      ∙ ap (λ r. r ++ raw_of lines) (content-receive now line s)
      ∙ append_assoc (content s) (raw_of (line ∷ [])) (raw_of lines)
      ∙ ap (λ r. content s ++ r) (sym (raw_of-append (line ∷ []) lines))

  -- After any turns of a session whose uploads are all accepted, what is stored, together with what is
  -- still in the buffer, is what was there at the start followed by every line that came, in order.
  pub content-run :
      (ts : List Turn) (s : Session)
      → All (λ t. t.accepted ≡ true) ts
      → content (run customer_id zone_id ts s).0 ≡ content s ++ raw_of (received ts)
  unfolding run raw_of
  content-run [] s h = sym (append-nil (content s))
  content-run (t ∷ ts) s h =
      ap
        (λ a.
          content (run_turn customer_id zone_id t.event t.now a (run customer_id zone_id ts) s).0)
        (h.0)
      ∙ content-run_turn t.event t.now (run customer_id zone_id ts) (received ts) s
          (λ s'. content-run ts s' h.1)

  run_turn-Exit :
      (e : Event) (now : ℕ) (accepted : Bool) (rest : Session → Session × Exit) (s : Session)
      → ((s : Session) → (rest s).1 ≢ running → (rest s).0.buffer ≡ [])
      → (run_turn customer_id zone_id e now accepted rest s).1 ≢ running
      → (run_turn customer_id zone_id e now accepted rest s).0.buffer ≡ []
  unfolding run_turn
  run_turn-Exit context_done now accepted rest s ih over = upload-empty now accepted s
  run_turn-Exit closed now accepted rest s ih over = upload-empty now accepted s
  run_turn-Exit tick now accepted rest s ih over = ih _ over
  run_turn-Exit (message line) now accepted rest s ih over = ih _ over

  -- When a session is over, by the end of its context or by the remote side, nothing is left in its
  -- buffer, whether or not the uploads were accepted.
  run-empty :
      (ts : List Turn) (s : Session)
      → (run customer_id zone_id ts s).1 ≢ running
      → (run customer_id zone_id ts s).0.buffer ≡ []
  unfolding run
  run-empty [] s over = absurd (over refl)
  run-empty (t ∷ ts) s over =
      run_turn-Exit t.event t.now t.accepted (run customer_id zone_id ts) s (run-empty ts) over

  receive-length :
      (now : ℕ) (accepted : Bool) (line : Bytes) (s : Session)
      → length s.buffer < batch_size
      → length (receive customer_id zone_id now accepted line s).buffer < batch_size
  unfolding receive
  receive-length now accepted line s h =
      elim (Bool-cases (leb batch_size (length (added customer_id zone_id line s).buffer))) [
        | inl full ↦ rw full (
            let e = ap length (upload-empty now accepted (added customer_id zone_id line s)) in
            omega (arith, e))
        | inr below ↦ rw below (ground (arith, below))
      ]

  run_turn-length :
      (e : Event) (now : ℕ) (accepted : Bool) (rest : Session → Session × Exit) (s : Session)
      → length s.buffer < batch_size
      → ((s : Session) → length s.buffer < batch_size → length (rest s).0.buffer < batch_size)
      → length (run_turn customer_id zone_id e now accepted rest s).0.buffer < batch_size
  unfolding run_turn
  run_turn-length context_done now accepted rest s h ih =
      let e = ap length (upload-empty now accepted s) in omega (arith, e)
  run_turn-length closed now accepted rest s h ih =
      let e = ap length (upload-empty now accepted s) in omega (arith, e)
  run_turn-length tick now accepted rest s h ih =
      let e = ap length (upload-empty now accepted s) in ih _ (omega (arith, e))
  run_turn-length (message line) now accepted rest s h ih =
      ih _ (receive-length now accepted line s h)

  -- The buffer never reaches the size of a batch between two turns.
  length-run :
      (ts : List Turn) (s : Session)
      → length s.buffer < batch_size
      → length (run customer_id zone_id ts s).0.buffer < batch_size
  unfolding run
  length-run [] s h = h
  length-run (t ∷ ts) s h =
      run_turn-length t.event t.now t.accepted (run customer_id zone_id ts) s h (length-run ts)

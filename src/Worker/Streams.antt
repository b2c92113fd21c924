-- ===== src/Worker/Streams.antt =====
-- InstantLogsManager of internal/worker/instant_logs.go: the waits of runZoneStream, and the mutex and
-- the wait group that Start, syncStreams, stopAll and the goroutines of the streams share.
pub mod Sync
pub mod Backoff
pub mod Shutdown
pub mod Buffer
use rainlogs.Prelude.{
  ℕ, ◌*◌, ◌≡◌, Bool, true, false, not, ◌&&◌, List, [], ◌∷◌, ltb, if◌then◌else◌, All,
}
use rainlogs.Calendar.{second, minute}
use rainlogs.GoError.{GoError}

abbrev pub min_backoff : ℕ
min_backoff = 5 * second

abbrev pub max_backoff : ℕ
max_backoff = 5 * minute

-- What a session of the loop meets: the context may be done before it, the session ends cleanly or by
-- an error, and the context may end during the wait.
pub data Session : Type 0 where
  context_done : Session
  clean_exit : Session
  disconnected : GoError → Session
  stopped_waiting : GoError → Session

-- What the loop does for a session that ends by an error.
pub data Act : Type 0 where
  alert : GoError → Act
  wait : ℕ → Act

unfoldable pub next_backoff : ℕ → ℕ
next_backoff backoff = if ltb max_backoff (backoff * 2) then max_backoff else backoff * 2

-- An alert only when the waits have grown beyond a minute.
unfoldable pub report : ℕ → GoError → List Act → List Act
report backoff e acts = if ltb (1 * minute) backoff then alert e ∷ acts else acts

-- The loop of runZoneStream over the sessions that it meets.
unfoldable pub run_sessions : ℕ → List Session → List Act
run_sessions backoff [] = []
run_sessions backoff (context_done ∷ ss) = []
run_sessions backoff (clean_exit ∷ ss) = []
run_sessions backoff (stopped_waiting e ∷ ss) = report backoff e (wait backoff ∷ [])
run_sessions backoff (disconnected e ∷ ss) =
    report backoff e (wait backoff ∷ run_sessions (next_backoff backoff) ss)

unfoldable pub run_zone_stream : List Session → List Act
run_zone_stream = run_sessions min_backoff

-- Where the goroutine of a stream stands: in runZoneStream, before `m.mu.Lock()`, between Lock and
-- Unlock, and after the deferred `m.wg.Done()`.
pub data Status : Type 0 where
  streaming leaving cleaning finished : Status

-- Start: before stopAll, in stopAll after it took the mutex, and after it.
pub data Phase : Type 0 where
  serving stopping stopped : Phase

pub record System : Type 0 where
  pub phase : Phase
  pub streams : List Status

abbrev pub is_cleaning : Status → Bool
is_cleaning cleaning = true
is_cleaning _ = false

abbrev pub none_cleaning : List Status → Bool
none_cleaning [] = true
none_cleaning (s ∷ ss) = not (is_cleaning s) && none_cleaning ss

-- stopAll holds the mutex until it returns.
abbrev pub phase_holds : Phase → Bool
phase_holds stopping = true
phase_holds _ = false

abbrev pub is_free : System → Bool
is_free sys = not (phase_holds sys.phase) && none_cleaning sys.streams

-- A step of one goroutine, where the first index says whether the mutex is free.
pub data Move : Bool → Status → Status → Type 0 where
  leave : {free : Bool} → Move free streaming leaving
  lock : Move true leaving cleaning
  unlock : {free : Bool} → Move free cleaning finished

pub data MoveOne (free : Bool) : List Status → List Status → Type 0 where
  here : {s t : Status} {ss : List Status} → Move free s t → MoveOne free (s ∷ ss) (t ∷ ss)
  there : {s : Status} {ss ts : List Status} → MoveOne free ss ts → MoveOne free (s ∷ ss) (s ∷ ts)

pub data Step : System → System → Type 0 where
  move :
      {sys : System} {ts : List Status}
      → MoveOne (is_free sys) sys.streams ts
      → Step sys (record sys { streams = ts })
  -- syncStreams adds a stream while it holds the mutex, which it releases on return.
  start :
      {sys : System}
      → sys.phase ≡ serving
      → is_free sys ≡ true
      → Step sys (record sys { streams = streaming ∷ sys.streams })
  stop_all :
      {sys : System}
      → sys.phase ≡ serving
      → is_free sys ≡ true
      → Step sys (record sys { phase = stopping })
  -- `m.wg.Wait()` returns once every goroutine has called Done.
  wait_returns :
      {sys : System}
      → sys.phase ≡ stopping
      → All (λ s. s ≡ finished) sys.streams
      → Step sys (record sys { phase = stopped })

pub data Steps : System → System → Type 0 where
  at_rest : {sys : System} → Steps sys sys
  after : {a b c : System} → Step a b → Steps b c → Steps a c

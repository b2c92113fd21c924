-- ===== src/Worker/Streams/Backoff.antt =====
-- How long a stream waits between two sessions.
use rainlogs.Prelude.{ℕ, ◌*◌, ◌≤◌, ◌<◌, List, [], ◌∷◌, ltb, arith, Bool-cases, inl, inr, ltb→lt}
use rainlogs.Calendar.{minute}
use rainlogs.GoError.{GoError}
use rainlogs.Worker.Streams.{
  Session, context_done, clean_exit, disconnected, stopped_waiting, Act, alert, wait, min_backoff,
  max_backoff, next_backoff, report, run_sessions, run_zone_stream,
}

-- Every wait lies between the bounds, and none is shorter than the one before; an alert is sent only
-- right before a wait of more than a minute.
abbrev pub IsPaced : ℕ → List Act → Type 0
IsPaced least [] = Unit
IsPaced least (wait d ∷ acts) = (least ≤ d) × (d ≤ max_backoff) × IsPaced d acts
IsPaced least (alert e ∷ []) = ⊥
IsPaced least (alert e ∷ alert e' ∷ acts) = ⊥
IsPaced least (alert e ∷ wait d ∷ acts) =
    (1 * minute < d) × (least ≤ d) × (d ≤ max_backoff) × IsPaced d acts

report-IsPaced :
    (least backoff : ℕ) (e : GoError) (acts : List Act)
    → IsPaced least (wait backoff ∷ acts)
    → IsPaced least (report backoff e (wait backoff ∷ acts))
unfolding report
report-IsPaced least backoff e acts h = elim (Bool-cases (ltb (1 * minute) backoff)) [
  | inl long ↦ let (a, b, c) = h in rw long (ltb→lt _ _ long, a, b, c)
  | inr short ↦ rw short h
]

weaken : (a b : ℕ) (acts : List Act) → a ≤ b → IsPaced b acts → IsPaced a acts
weaken a b [] le h = tt
weaken a b (wait d ∷ acts) le h = let (p, q, r) = h in (omega (arith, p), q, r)
weaken a b (alert e ∷ []) le h = h
weaken a b (alert e ∷ alert e' ∷ acts) le h = h
weaken a b (alert e ∷ wait d ∷ acts) le h = let (l, p, q, r) = h in (l, omega (arith, p), q, r)

next_backoff-bounds :
    (b : ℕ) → b ≤ max_backoff → (b ≤ next_backoff b) × (next_backoff b ≤ max_backoff)
unfolding next_backoff
next_backoff-bounds b h = (ground arith, ground arith)

run_sessions-IsPaced :
    (backoff : ℕ) (ss : List Session)
    → backoff ≤ max_backoff
    → IsPaced backoff (run_sessions backoff ss)
unfolding run_sessions
run_sessions-IsPaced backoff [] h = tt
run_sessions-IsPaced backoff (context_done ∷ ss) h = tt
run_sessions-IsPaced backoff (clean_exit ∷ ss) h = tt
run_sessions-IsPaced backoff (stopped_waiting e ∷ ss) h =
    report-IsPaced backoff backoff e [] (omega arith, h, tt)
run_sessions-IsPaced backoff (disconnected e ∷ ss) h =
    let (grows, bounded) = next_backoff-bounds backoff h in
    report-IsPaced backoff backoff e _
      (omega arith, h, weaken _ _ _ grows (run_sessions-IsPaced (next_backoff backoff) ss bounded))

-- Whatever the sessions of a stream meet, each wait is of 5 seconds at least and 5 minutes at most,
-- none is shorter than the one before, and an alert is sent only right before a wait of more than a
-- minute.
pub run_zone_stream-IsPaced : (ss : List Session) → IsPaced min_backoff (run_zone_stream ss)
unfolding run_zone_stream
run_zone_stream-IsPaced ss = run_sessions-IsPaced min_backoff ss (omega arith)

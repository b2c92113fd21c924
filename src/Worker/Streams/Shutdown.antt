-- ===== src/Worker/Streams/Shutdown.antt =====
-- Whether stopAll returns.
use rainlogs.Prelude.{
  ◌≡◌, refl, subst, ◌∙◌, inl, inr, Bool, true, false, ◌&&◌, if◌then◌else◌, List, [], ◌∷◌, arith,
  All, Bool-cases,
}
use rainlogs.Worker.Streams.{
  Status, streaming, leaving, finished, serving, stopping, System, is_cleaning, none_cleaning,
  is_free, leave, unlock, MoveOne, here, there, Step, move, start, stop_all, wait_returns, Steps,
  at_rest, after,
}

-- A goroutine that has yet to take the mutex.
abbrev pub needs_lock : Status → Bool
needs_lock streaming = true
needs_lock leaving = true
needs_lock _ = false

abbrev pub some_needs_lock : List Status → Bool
some_needs_lock [] = false
some_needs_lock (s ∷ ss) = if needs_lock s then true else some_needs_lock ss

and_right : (a b : Bool) → (a && b) ≡ true → b ≡ true
and_right true b h = h
and_right false b h = cc

move-needs_lock :
    (ss ts : List Status)
    → MoveOne false ss ts
    → none_cleaning ss ≡ true
    → (some_needs_lock ts ≡ some_needs_lock ss) × (none_cleaning ts ≡ true)
move-needs_lock _ _ (here leave) h = (refl, h)
move-needs_lock _ _ (here unlock) h = cc
move-needs_lock (s ∷ ss) (_ ∷ ts) (there m) h = elim (Bool-cases (is_cleaning s)) [
  | inl busy ↦ absurd (ground (arith, busy))
  | inr idle ↦
      let (same, none) = move-needs_lock ss ts m (ground (arith, idle)) in
      (rw same refl, rw (idle, none) refl)
]

-- stopAll waits for a goroutine that waits for the mutex.
abbrev pub IsStuck : System → Type 0
IsStuck sys =
    (sys.phase ≡ stopping)
    × (none_cleaning sys.streams ≡ true)
    × (some_needs_lock sys.streams ≡ true)

finished-needs_lock : (ss : List Status) → All (λ s. s ≡ finished) ss → some_needs_lock ss ≡ false
finished-needs_lock [] h = refl
finished-needs_lock (s ∷ ss) h = rw (h.0) (finished-needs_lock ss h.1)

Step-IsStuck : (a b : System) → Step a b → IsStuck a → IsStuck b
Step-IsStuck a b (move m) (stops, none, needs) =
    let locked : is_free a ≡ false = rw stops refl in
    let (same, still) =
      move-needs_lock a.streams b.streams (subst (λ f. MoveOne f a.streams b.streams) locked m)
        none in
    (stops, still, same ∙ needs)
Step-IsStuck a b (start serves free) h = absurd (cc (serves, h.0))
Step-IsStuck a b (stop_all serves free) h = absurd (cc (serves, h.0))
Step-IsStuck a b (wait_returns stops done) h = absurd (cc (finished-needs_lock a.streams done, h.2))

Steps-IsStuck : (a b : System) → Steps a b → IsStuck a → IsStuck b
Steps-IsStuck a b at_rest h = h
Steps-IsStuck a b (after s rest) h = Steps-IsStuck _ b rest (Step-IsStuck a _ s h)

-- When stopAll takes the mutex while the goroutine of some stream has yet to reach its clean-up, that
-- goroutine can never take it, so `m.wg.Wait()` never returns: in whatever order the goroutines go on,
-- the manager stays in stopAll.
pub stop_all-stopping :
    (sys later : System)
    → sys.phase ≡ serving
    → is_free sys ≡ true
    → some_needs_lock sys.streams ≡ true
    → Steps (record sys { phase = stopping }) later
    → later.phase ≡ stopping
stop_all-stopping sys later serves free needs steps =
    (Steps-IsStuck _ later steps (refl, and_right _ _ free, needs)).0

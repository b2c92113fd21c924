-- ===== src/Examples/Limits.antt =====
-- A bucket of two tokens, one a second.
use rainlogs.Prelude.{
  ℕ, ◌+◌, ◌-◌, ◌*◌, ◌/◌, ◌≤◌, ◌≡◌, ap, arith, Bool, true, false, List, [], ◌∷◌, ltb, if◌then◌else◌,
  codes,
}
use rainlogs.Calendar.{second, minute}
use rainlogs.Api.RateLimit.{Bucket, Event, request, tick, run, new_limiter}
use rainlogs.Api.RateLimit.Forget.{promised, run-new_limiter}

-- What is in the bucket at a moment, from what was in it at an earlier one.
abbrev tokens_at : ℕ → ℕ × ℕ → ℕ
tokens_at now s = let n = s.0 + (now - s.1) / second in if ltb n 2 then n else 2

abbrev spend : ℕ → ℕ → Bool × (ℕ × ℕ)
spend now n = if ltb 0 n then (true, (n - 1, now)) else (false, (0, now))

tokens_at-spend :
    (last now n : ℕ)
    → last + 2 * second ≤ now
    → tokens_at now (spend last n).1 ≡ tokens_at now (2, 0)
tokens_at-spend last now n h = ground arith

abbrev two_tokens : Bucket
two_tokens = record {
  State = ℕ × ℕ;
  fresh = (2, 0);
  allow = λ now s. spend now (tokens_at now s);
  fill = 2 * second;
  refilled = λ s last now h. ap (spend now) (tokens_at-spend last now (tokens_at last s) h);
}

-- Three requests at once, another client, and a clean-up after an hour.
abbrev events : List Event
events =
    request (codes "a") 0
    ∷ request (codes "a") 0
    ∷ request (codes "a") 0
    ∷ request (codes "b") second
    ∷ tick (60 * minute)
    ∷ request (codes "a") (61 * minute)
    ∷ []

run-new_limiter_example :
    run two_tokens 2 events (new_limiter two_tokens) ≡ promised two_tokens 2 events (λ key. (2, 0))
run-new_limiter_example =
    run-new_limiter two_tokens 2 0 events (omega arith)
      (omega arith, (omega arith, (omega arith, (omega arith, (omega arith, (omega arith, tt))))))

-- ===== src/Api/RateLimit.antt =====
-- internal/api/middleware/ratelimit.go: a limiter for each client, kept in a map from which the idle ones
-- are evicted.
--
-- rate.Limiter of golang.org/x/time is the record `Bucket`; of it the code relies on this: a bucket left
-- alone for as long as it takes to fill behaves as a new one. A request and a tick of the clean-up are
-- events with their times; the mutex makes get and evict single steps, and the clock does not move
-- between get and Allow. A key is the client's address or the customer's identifier as text.
pub mod Forget
use rainlogs.Prelude.{
  ℕ, ◌+◌, ◌*◌, ◌≤◌, ◌≡◌, Bool, true, false, Option, none, some, List, [], ◌∷◌, ltb, if◌then◌else◌,
  Bytes, bytes_eq, codes,
}
use rainlogs.Calendar.{minute, decimal}

pub record Bucket : Type 1 where
  pub State : Type 0
  pub fresh : State
  pub allow : (now : ℕ) → State → Bool × State
  pub fill : ℕ
  pub refilled :
      (s : State) (last now : ℕ) → last + fill ≤ now → allow now (allow last s).1 ≡ allow now fresh

abbrev pub ttl : ℕ
ttl = 10 * minute

pub record IpEntry (State : Type 0) : Type 0 where
  pub lim : State
  pub last_seen : ℕ

-- The reply: on to the next handler with X-RateLimit-Limit, or 429 with Retry-After, X-RateLimit-Limit
-- and X-RateLimit-Remaining.
pub data Reply : Type 0 where
  on : (limit : Bytes) → Reply
  too_many_requests : (retry_after limit remaining : Bytes) → Reply

abbrev pub reply : (burst : ℕ) → Bool → Reply
reply burst true = on (decimal burst)
reply burst false = too_many_requests (codes "1") (decimal burst) (codes "0")

pub data Event : Type 0 where
  request : (key : Bytes) (now : ℕ) → Event
  tick : (now : ℕ) → Event

module _ (bucket : Bucket) where
  open bucket use {State, fresh, allow}

  abbrev pub Entries : Type 0
  Entries = Bytes → Option (IpEntry State)

  abbrev pub set : Bytes → IpEntry State → Entries → Entries
  set key e entries k = if bytes_eq key k then some e else entries k

  abbrev pub keep_recent : (now : ℕ) → Option (IpEntry State) → Option (IpEntry State)
  keep_recent now none = none
  keep_recent now (some e) = if ltb (e.last_seen + ttl) now then none else some e

  -- evict
  unfoldable pub evict : ℕ → Entries → Entries
  evict now entries k = keep_recent now (entries k)

  -- The entry of get, with its limiter as it was or new.
  abbrev pub entry_of : (now : ℕ) → Option (IpEntry State) → IpEntry State
  entry_of now none = record { lim = fresh; last_seen = now }
  entry_of now (some e) = record e { last_seen = now }

  -- get, and Allow on the limiter that it returns.
  unfoldable pub get_and_allow : Bytes → ℕ → Entries → Bool × Entries
  get_and_allow key now entries =
      let e = entry_of now (entries key) in
      let (allowed, lim) = allow now e.lim in (allowed, set key (record e { lim = lim }) entries)

  -- The replies to a sequence of requests, with ticks of the clean-up among them.
  unfoldable pub run : (burst : ℕ) → List Event → Entries → List Reply
  run burst [] entries = []
  run burst (request key now ∷ events) entries =
      let (allowed, entries') = get_and_allow key now entries in
      reply burst allowed ∷ run burst events entries'
  run burst (tick now ∷ events) entries = run burst events (evict now entries)

abbrev pub new_limiter : (bucket : Bucket) → Entries bucket
new_limiter bucket k = none

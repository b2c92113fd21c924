-- ===== src/Api/RateLimit/Forget.antt =====
-- Forgetting idle clients changes no reply.
use rainlogs.Prelude.{
  ℕ, ◌+◌, ◌≤◌, ◌≡◌, refl, sym, ap, ◌∙◌, inl, inr, arith, Option, none, some, List, [], ◌∷◌, ltb,
  ltb→lt, if◌then◌else◌, Bytes, bytes_eq, Bool-cases,
}
use native.Mathlib.Nat.{le_trans, le_refl}
use rainlogs.Api.RateLimit.{
  Bucket, ttl, IpEntry, Reply, reply, Event, request, tick, Entries, keep_recent, evict, entry_of,
  get_and_allow, run, new_limiter,
}

-- The times do not go back.
abbrev pub InOrder : ℕ → List Event → Type 0
InOrder t [] = Unit
InOrder t (request key now ∷ events) = (t ≤ now) × InOrder now events
InOrder t (tick now ∷ events) = (t ≤ now) × InOrder now events

module _ (bucket : Bucket) where
  open bucket use {State, fresh, allow, fill, refilled}

  -- What is promised: every client has a bucket of its own, full at first, for ever.
  abbrev pub Buckets : Type 0
  Buckets = Bytes → State

  abbrev pub take_from : Bytes → ℕ → Buckets → Buckets
  take_from key now buckets k = if bytes_eq key k then (allow now (buckets key)).1 else buckets k

  abbrev pub promised : (burst : ℕ) → List Event → Buckets → List Reply
  promised burst [] buckets = []
  promised burst (request key now ∷ events) buckets =
      reply burst (allow now (buckets key)).0 ∷ promised burst events (take_from key now buckets)
  promised burst (tick now ∷ events) buckets = promised burst events buckets

  -- From t on a bucket cannot be told from a full one.
  abbrev IsFull : ℕ → State → Type 0
  IsFull t s = (now : ℕ) → t ≤ now → allow now s ≡ allow now fresh

  -- An entry stands for a bucket: it is that bucket, as it was left when the client was last seen.
  pub record Stands (t : ℕ) (e : IpEntry State) (s : State) : Type 0 where
    pub same : e.lim ≡ s
    pub before : State
    pub left : s ≡ (allow e.last_seen before).1
    pub past : e.last_seen ≤ t

  data Matches (t : ℕ) (s : State) : Option (IpEntry State) → Type 0 where
    kept : (e : IpEntry State) → Stands t e s → Matches t s (some e)
    forgotten : IsFull t s → Matches t s none

  later : {t u : ℕ} {s : State} {o : Option (IpEntry State)} → t ≤ u → Matches t s o → Matches u s o
  later h (kept e st) =
      kept e
        (record { same = st.same; before = st.before; left = st.left; past = le_trans st.past h })
  later h (forgotten full) = forgotten (λ now k. full now (le_trans h k))

  -- An entry of a client that has been idle for ten minutes may go.
  keep_recent-Matches :
      (now : ℕ) {s : State} {o : Option (IpEntry State)}
      → fill ≤ ttl
      → Matches now s o
      → Matches now s (keep_recent bucket now o)
  keep_recent-Matches now h (forgotten full) = forgotten full
  keep_recent-Matches now {s} h (kept e st) = elim (Bool-cases (ltb (e.last_seen + ttl) now)) [
    | inr recent ↦ rw recent (kept e st)
    | inl idle ↦ rw idle (
        forgotten λ u k.
          ap (allow u) st.left
          ∙ refilled st.before e.last_seen u (omega (arith, ltb→lt (e.last_seen + ttl) now idle)))
  ]

  -- The bucket that get returns answers as the promised one, and is left as the promised one.
  entry_of-allow :
      (now : ℕ) {s : State} {o : Option (IpEntry State)}
      → Matches now s o
      → allow now (entry_of bucket now o).lim ≡ allow now s
  entry_of-allow now (kept e st) = ap (allow now) st.same
  entry_of-allow now (forgotten full) = sym (full now (le_refl now))

  entry_of-last_seen :
      (now : ℕ) (o : Option (IpEntry State)) → (entry_of bucket now o).last_seen ≡ now
  entry_of-last_seen now none = refl
  entry_of-last_seen now (some e) = refl

  AllMatch : ℕ → Buckets → Entries bucket → Type 0
  AllMatch t buckets entries = (key : Bytes) → Matches t (buckets key) (entries key)

  get_and_allow-AllMatch :
      (key : Bytes) (now : ℕ) (buckets : Buckets) (entries : Entries bucket)
      → AllMatch now buckets entries
      → ((get_and_allow bucket key now entries).0 ≡ (allow now (buckets key)).0)
        × AllMatch now (take_from key now buckets) (get_and_allow bucket key now entries).1
  unfolding get_and_allow AllMatch
  get_and_allow-AllMatch key now buckets entries m =
      let e = entry_of-allow now (m key) in
      (
        ap (λ r. r.0) e,
        λ k. elim (Bool-cases (bytes_eq key k)) [
          | inl hit ↦ rw hit (
              kept _ (record {
                same = ap (λ r. r.1) e;
                before = buckets key;
                left =
                    ap (λ t. (allow t (buckets key)).1)
                      (sym (entry_of-last_seen now (entries key)));
                past = rw (entry_of-last_seen now (entries key)) (le_refl now);
              }))
          | inr miss ↦ rw miss (m k)
        ],
      )

  run-promised :
      (burst : ℕ) (events : List Event) (t : ℕ) (buckets : Buckets) (entries : Entries bucket)
      → fill ≤ ttl
      → InOrder t events
      → AllMatch t buckets entries
      → run bucket burst events entries ≡ promised burst events buckets
  unfolding run AllMatch evict
  run-promised burst [] t buckets entries h o m = refl
  run-promised burst (request key now ∷ events) t buckets entries h o m =
      let (answered, m') = get_and_allow-AllMatch key now buckets entries (λ k. later o.0 (m k)) in
      ap (λ b. reply burst b ∷ run bucket burst events (get_and_allow bucket key now entries).1)
        answered
      ∙ ap (λ r. reply burst (allow now (buckets key)).0 ∷ r)
          (run-promised burst events now (take_from key now buckets) _ h o.1 m')
  run-promised burst (tick now ∷ events) t buckets entries h o m =
      run-promised burst events now buckets _ h o.1
        (λ k. keep_recent-Matches now h (later o.0 (m k)))

  -- Where a bucket fills within ten minutes, every sequence of requests and ticks of the clean-up gets
  -- the replies that it would get if every client had a bucket of its own for ever, so that the eviction
  -- of idle clients is never seen.
  pub run-new_limiter :
      (burst t : ℕ) (events : List Event)
      → fill ≤ ttl
      → InOrder t events
      → run bucket burst events (new_limiter bucket) ≡ promised burst events (λ key. fresh)
  unfolding AllMatch
  run-new_limiter burst t events h o =
      run-promised burst events t (λ key. fresh) (new_limiter bucket) h o
        (λ key. forgotten (λ now k. refl))

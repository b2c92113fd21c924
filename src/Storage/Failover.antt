-- ===== src/Storage/Failover.antt =====
-- Which provider takes an upload, and when none does.
use rainlogs.Prelude.{
  ◌≡◌, refl, ◌⊎◌, inl, inr, true, false, none, some, List, [], ◌∷◌, ◌++◌, Bool-cases, Bytes, All,
}
use rainlogs.Storage.{Codec, Upload, Backend, object, compressed, prepare_blob, put_one, put_logs}
use rainlogs.Storage.RoundTrip.{object-store_object, put_logs_taken, put_logs_passed, after_put}

module _ (codec : Codec) (u : Upload) where
  abbrev pub Refuses : Backend → Type 0
  Refuses b = b.accepts_put ≡ false

  put_logs-eq-none : (bs : List Backend) → All Refuses bs → put_logs codec u bs ≡ none
  unfolding put_logs put_one
  put_logs-eq-none [] _ = refl
  put_logs-eq-none (b ∷ bs) (h, hs) = rw (h, put_logs-eq-none bs hs)

  -- The providers are those of before, but that one of them holds the blob under its key.
  pub record TakenBy (bs cs : List Backend) (label : Bytes) : Type 0 where
    pub refusing : List Backend
    pub winner : Backend
    pub rest : List Backend
    pub winner_after : Backend
    pub before : bs ≡ refusing ++ winner ∷ rest
    pub after : cs ≡ refusing ++ winner_after ∷ rest
    pub refused : All Refuses refusing
    pub accepted : winner.accepts_put ≡ true
    pub labelled : label ≡ winner.provider
    pub holds : object (prepare_blob codec u).key winner_after.objects ≡ some (compressed codec u)

  TakenBy-cons :
      (b : Backend) {bs cs : List Backend} {label : Bytes}
      → b.accepts_put ≡ false
      → TakenBy bs cs label
      → TakenBy (b ∷ bs) (b ∷ cs) label
  TakenBy-cons b h t = record {
    refusing = b ∷ t.refusing;
    winner = t.winner;
    rest = t.rest;
    winner_after = t.winner_after;
    before = rw t.before;
    after = rw t.after;
    refused = (h, t.refused);
    accepted = t.accepted;
    labelled = t.labelled;
    holds = t.holds;
  }

  -- PutLogs fails only where every provider refuses; otherwise the first provider that accepts
  -- takes the blob, its label is returned, and the other providers are as they were.
  pub put_logs_outcome :
      (bs : List Backend)
      → ((put_logs codec u bs ≡ none) × All Refuses bs)
        ⊎ ((label : Bytes) × (cs : List Backend) × (put_logs codec u bs ≡ some (label, cs))
            × TakenBy bs cs label)
  put_logs_outcome [] = inl (put_logs-eq-none [] tt, tt)
  put_logs_outcome (b ∷ bs) = elim (Bool-cases b.accepts_put) [
    | inl takes ↦ inr (
      b.provider,
      after_put codec u b ∷ bs,
      put_logs_taken codec u b bs takes,
      record {
        refusing = [];
        winner = b;
        rest = bs;
        winner_after = after_put codec u b;
        before = refl;
        after = refl;
        refused = tt;
        accepted = takes;
        labelled = refl;
        holds = object-store_object (prepare_blob codec u).key (compressed codec u) b.objects;
      },
    )
    | inr refuses ↦ elim (put_logs_outcome bs) [
      | inl (failed, all) ↦ inl (put_logs-eq-none (b ∷ bs) (refuses, all), (refuses, all))
      | inr (label, cs, put, taken) ↦ inr (
        label,
        b ∷ cs,
        put_logs_passed codec u b bs cs label refuses put,
        TakenBy-cons b refuses taken,
      )
    ]
  ]

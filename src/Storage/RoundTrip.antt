-- ===== src/Storage/RoundTrip.antt =====
-- What was uploaded is downloaded, and a repeated upload changes nothing.
use rainlogs.Prelude.{
  ◌≡◌, ◌∙◌, ◌≢◌, ◌⊎◌, inl, inr, true, false, none, some, List, [], ◌∷◌, arith, Bool-cases,
  Option-cases, Bytes, bytes_eq, bytes_eq_iff, bytes_eq_refl, All,
}
use rainlogs.Storage.{
  Codec, Upload, Backend, object, store_object, compressed, prepare_blob, put_one, get_one,
  put_logs, get_logs,
}

pub object-store_object :
    (k v : Bytes) (m : List (Bytes × Bytes)) → object k (store_object k v m) ≡ some v
unfolding object store_object
object-store_object k v [] = rw (bytes_eq_refl k)
object-store_object k v ((j, w) ∷ m) = elim (Bool-cases (bytes_eq j k)) [
  | inl hit ↦ rw hit (rw (bytes_eq_refl k))
  | inr miss ↦ rw miss (rw miss (object-store_object k v m))
]

-- No other key is touched.
pub object-store_object_ne :
    (k j v : Bytes) (m : List (Bytes × Bytes)) → k ≢ j → object j (store_object k v m) ≡ object j m
unfolding object store_object
object-store_object_ne k j v [] h = ground (arith, bytes_eq_iff k j)
object-store_object_ne k j v ((i, w) ∷ m) h =
    ground
      (arith, bytes_eq_iff k j, bytes_eq_iff i k, bytes_eq_iff i j, object-store_object_ne k j v m)

store_object_again :
    (k v : Bytes) (m : List (Bytes × Bytes))
    → store_object k v (store_object k v m) ≡ store_object k v m
unfolding store_object
store_object_again k v [] = rw (bytes_eq_refl k)
store_object_again k v ((j, w) ∷ m) = elim (Bool-cases (bytes_eq j k)) [
  | inl hit ↦ rw hit (rw (bytes_eq_refl k))
  | inr miss ↦ rw miss (rw miss (rw (store_object_again k v m)))
]

module _ (codec : Codec) (key : Bytes) where
  pub get_logs_found :
      (b : Backend) (bs : List Backend) (raw : Bytes)
      → get_one codec key b ≡ some raw
      → get_logs codec key (b ∷ bs) ≡ some raw
  unfolding get_logs
  get_logs_found b bs raw h = rw (h, get_logs)

  pub get_logs_missed :
      (b : Backend) (bs : List Backend)
      → get_one codec key b ≡ none
      → get_logs codec key (b ∷ bs) ≡ get_logs codec key bs
  unfolding get_logs
  get_logs_missed b bs h = rw (h, get_logs)

module _ (codec : Codec) (u : Upload) where
  -- Whatever stands under the key of the upload is that upload's blob.
  abbrev pub IsConsistent : Backend → Type 0
  IsConsistent b =
      (object (prepare_blob codec u).key b.objects ≡ none)
      ⊎ (object (prepare_blob codec u).key b.objects ≡ some (compressed codec u))

  -- A provider that accepts the upload also answers a later download.
  abbrev pub AnswersReads : Backend → Type 0
  AnswersReads b = b.accepts_put ≡ true → b.accepts_get ≡ true

  -- The provider after it took the upload.
  abbrev pub after_put : Backend → Backend
  after_put b = record b {
    objects = store_object (prepare_blob codec u).key (compressed codec u) b.objects;
  }

  get_one-after_put :
      (b : Backend)
      → b.accepts_get ≡ true
      → get_one codec (prepare_blob codec u).key (after_put b) ≡ some u.raw
  unfolding get_one
  get_one-after_put b h =
      rw (h, object-store_object (prepare_blob codec u).key (compressed codec u) b.objects)
        (codec.gunzip-gzip u.raw)

  get_one-consistent :
      (b : Backend)
      → IsConsistent b
      → (get_one codec (prepare_blob codec u).key b ≡ none)
        ⊎ (get_one codec (prepare_blob codec u).key b ≡ some u.raw)
  unfolding get_one
  get_one-consistent b c = ground (arith, codec.gunzip-gzip u.raw)

  put_logs_nil : (label : Bytes) (cs : List Backend) → put_logs codec u [] ≢ some (label, cs)
  unfolding put_logs
  put_logs_nil label cs e = cc

  pub put_logs_taken :
      (b : Backend) (bs : List Backend)
      → b.accepts_put ≡ true
      → put_logs codec u (b ∷ bs) ≡ some (b.provider, after_put b ∷ bs)
  unfolding put_logs put_one
  put_logs_taken b bs h = rw h

  -- A provider that refuses passes the upload on to the others.
  pub put_logs_refused :
      (b : Backend) (bs cs : List Backend) (label : Bytes)
      → b.accepts_put ≡ false
      → put_logs codec u (b ∷ bs) ≡ some (label, cs)
      → (ds : List Backend) × (put_logs codec u bs ≡ some (label, ds)) × (cs ≡ b ∷ ds)
  unfolding put_logs put_one
  put_logs_refused b bs cs label h e = elim (Option-cases (put_logs codec u bs)) [
    | inl failed ↦ ground arith
    | inr (found, same) ↦ (found.1, ground arith, ground arith)
  ]

  pub put_logs_passed :
      (b : Backend) (bs cs : List Backend) (label : Bytes)
      → b.accepts_put ≡ false
      → put_logs codec u bs ≡ some (label, cs)
      → put_logs codec u (b ∷ bs) ≡ some (label, b ∷ cs)
  unfolding put_logs put_one
  put_logs_passed b bs cs label h e = rw (h, e)

  -- After an upload that succeeds, a download by its key gives the raw logs back, where no provider
  -- holds another blob under that key and the one that took the upload answers.
  pub get_logs-put_logs :
      (bs cs : List Backend) (label : Bytes)
      → All IsConsistent bs
      → All AnswersReads bs
      → put_logs codec u bs ≡ some (label, cs)
      → get_logs codec (prepare_blob codec u).key cs ≡ some u.raw
  get_logs-put_logs [] cs label c r e = absurd (put_logs_nil label cs e)
  get_logs-put_logs (b ∷ bs) cs label c r e = elim (Bool-cases b.accepts_put) [
    | inl takes ↦
        let same : after_put b ∷ bs ≡ cs = cc (e, put_logs_taken b bs takes) in
        rw (← same)
          (get_logs_found codec _ (after_put b) bs u.raw (get_one-after_put b (r.0 takes)))
    | inr refuses ↦
        let (ds, put, same) = put_logs_refused b bs cs label refuses e in
        let ih = get_logs-put_logs bs ds label c.1 r.1 put in
        elim (get_one-consistent b c.0) [
          | inl missing ↦ rw same (get_logs_missed codec _ b ds missing ∙ ih)
          | inr there ↦ rw same (get_logs_found codec _ b ds u.raw there)
        ]
  ]

  -- The same upload once more has the same result and leaves the providers as they were.
  put_logs_again :
      (bs cs : List Backend) (label : Bytes)
      → put_logs codec u bs ≡ some (label, cs)
      → put_logs codec u cs ≡ some (label, cs)
  put_logs_again [] cs label e = absurd (put_logs_nil label cs e)
  put_logs_again (b ∷ bs) cs label e = elim (Bool-cases b.accepts_put) [
    | inl takes ↦
        let winner : b.provider ≡ label = cc (e, put_logs_taken b bs takes) in
        let same : after_put b ∷ bs ≡ cs = cc (e, put_logs_taken b bs takes) in
        let again : after_put (after_put b) ≡ after_put b =
          rw (store_object_again (prepare_blob codec u).key (compressed codec u) b.objects) in
        rw (← same, put_logs_taken (after_put b) bs takes, again, winner)
    | inr refuses ↦
        let (ds, put, same) = put_logs_refused b bs cs label refuses e in
        rw same (put_logs_passed b ds ds label refuses (put_logs_again bs ds label put))
  ]

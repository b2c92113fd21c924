-- ===== src/Storage/Files/Refine.antt =====
-- FSStore is a provider: its files are the objects of a Backend, call by call.
use mathlib.Core.Bool.{true≢false}
use rainlogs.Prelude.{
  ℕ, ◌≡◌, ◌≢◌, ◌≤◌, refl, sym, ap, ◌∙◌, inl, inr, arith, Bool, true, false, Option, none, some,
  List, [], ◌∷◌, ◌++◌, ◌||◌, length, length-append, take, Bytes, bytes_eq, bytes_eq_iff, codes,
  Bool-cases,
}
use rainlogs.Calendar.{format_day, format_stamp}
use rainlogs.Storage.{
  decompress_blob, default_type, Codec, Backend, Upload, object, blob_key, prepare_blob, compressed,
  put_one, get_one, delete_one,
}
use rainlogs.Storage.Files.{Files, Stage, Reach, join, get_file, delete_file}
use rainlogs.Storage.Files.Atomic.{
  IsAtomic, Reach-IsAtomic, store_ne, store_self, remove_ne, remove_self,
}

-- The name ends in ".tmp", as those of CreateTemp do.
abbrev pub is_temp : Bytes → Bool
is_temp [] = false
is_temp (c ∷ k) = bytes_eq (c ∷ k) (codes ".tmp") || is_temp k

longer : (c : ℕ) (k : Bytes) → 4 ≤ length k → bytes_eq (c ∷ k) (codes ".tmp") ≡ false
longer c k h = elim (Bool-cases (bytes_eq (c ∷ k) (codes ".tmp"))) [
  | inr other ↦ other
  | inl same ↦ absurd (omega (arith, ap length ((bytes_eq_iff (c ∷ k) (codes ".tmp")).0 same)))
]

is_temp-append : (a b : Bytes) → 4 ≤ length b → is_temp b ≡ false → is_temp (a ++ b) ≡ false
is_temp-append [] b h e = e
is_temp-append (c ∷ a) b h e =
    rw (longer c (a ++ b) (omega (arith, length-append a b)), is_temp-append a b h e) refl

join_injective : (root k j : Bytes) → join root k ≡ join root j → k ≡ j
join_injective [] k j e = cc
join_injective (c ∷ root) k j e = join_injective root k j cc

-- Long enough, and no temporary name.
abbrev IsPlain : Bytes → Type 0
IsPlain b = (4 ≤ length b) × (is_temp b ≡ false)

append-IsPlain : (a b : Bytes) → IsPlain b → IsPlain (a ++ b)
append-IsPlain a b (long, plain) = (omega (arith, length-append a b), is_temp-append a b long plain)

parted-IsPlain : (a : Bytes) (c : ℕ) (b : Bytes) → IsPlain b → IsPlain (a ++ (c ∷ b))
parted-IsPlain a c b (long, plain) =
    append-IsPlain a (c ∷ b) (omega arith, rw (longer c b long, plain) refl)

-- The keys of PrepareBlob end in ".ndjson.gz".
blob_key-is_temp :
    (uuid_text : ℕ → Bytes) (u : Upload) (sha256hex : Bytes)
    → is_temp (blob_key uuid_text u sha256hex) ≡ false
unfolding blob_key
blob_key-is_temp uuid_text u sha256hex =
    let last = append-IsPlain (take 8 sha256hex) (codes ".ndjson.gz") (omega arith, refl) in
    let to = parted-IsPlain (format_stamp u.to) b'_' _ last in
    let from = parted-IsPlain (format_stamp u.from) b'_' _ to in
    let day = parted-IsPlain (format_day u.from) b'/' _ from in
    let zone = parted-IsPlain (uuid_text u.zone_id) b'/' _ day in
    let customer = parted-IsPlain (uuid_text u.customer_id) b'/' _ zone in
    (parted-IsPlain (default_type u.log_type) b'/' _ customer).1

-- The files under the root are these objects; temporary files are none of them.
abbrev pub Holds : Bytes → Files → List (Bytes × Bytes) → Type 0
Holds root f objects = (k : Bytes) → is_temp k ≡ false → object k objects ≡ object (join root k) f

abbrev pub objects_or : List (Bytes × Bytes) → Option Backend → List (Bytes × Bytes)
objects_or old none = old
objects_or old (some b) = b.objects

abbrev pub files_or : Files → Option Files → Files
files_or old none = old
files_or old (some f) = f

module _ (codec : Codec) (root t : Bytes) (temporary : is_temp t ≡ true) where
  apart : (k : Bytes) → is_temp k ≡ false → join root k ≢ join root t
  apart k plain e =
      true≢false (sym temporary ∙ ap is_temp (sym (join_injective root k t e)) ∙ plain)

  key-is_temp : (u : Upload) → is_temp (prepare_blob codec u).key ≡ false
  unfolding prepare_blob
  key-is_temp u = blob_key-is_temp codec.uuid_text u _

  put-IsAtomic :
      (u : Upload) {f0 f : Files} {s : Stage}
      → Reach (join root (prepare_blob codec u).key) (join root t) (compressed codec u) f0 f s
      → IsAtomic (join root (prepare_blob codec u).key) (join root t) (compressed codec u) f0 f s
  put-IsAtomic u r =
      Reach-IsAtomic _ _ _ _ (λ e. apart (prepare_blob codec u).key (key-is_temp u) (sym e)) r

  other_file :
      (u : Upload) (k : Bytes) {f0 f : Files} {s : Stage}
      → is_temp k ≡ false
      → (prepare_blob codec u).key ≢ k
      → Reach (join root (prepare_blob codec u).key) (join root t) (compressed codec u) f0 f s
      → object (join root k) f ≡ object (join root k) f0
  other_file u k plain other r =
      (put-IsAtomic u r).others (join root k)
        (λ e. other (sym (join_injective root k (prepare_blob codec u).key e))) (apart k plain)

  put-Holds :
      (u : Upload) (b : Backend) (accepted : Bool) {f0 f : Files}
      → Holds root f0 b.objects
      → Reach
          (join root (prepare_blob codec u).key)
          (join root t)
          (compressed codec u)
          f0
          f
          (Stage.returned accepted)
      → Holds root f (objects_or b.objects (put_one codec u (record b { accepts_put = accepted })))
  unfolding put_one
  put-Holds u b true h r k plain = elim (Bool-cases (bytes_eq (prepare_blob codec u).key k)) [
    | inl hit ↦
        let same = (bytes_eq_iff (prepare_blob codec u).key k).0 hit in
        rw (sym same) (
          store_self (prepare_blob codec u).key (compressed codec u) b.objects
          ∙ sym (put-IsAtomic u r).holds)
    | inr miss ↦
        let other = λ (e : (prepare_blob codec u).key ≡ k).
          true≢false (sym ((bytes_eq_iff (prepare_blob codec u).key k).1 e) ∙ miss) in
        store_ne (prepare_blob codec u).key k b.objects (compressed codec u) other
        ∙ h k plain
        ∙ sym (other_file u k plain other r)
  ]
  put-Holds u b false h r k plain = elim (Bool-cases (bytes_eq (prepare_blob codec u).key k)) [
    | inl hit ↦
        let same = (bytes_eq_iff (prepare_blob codec u).key k).0 hit in
        h k plain ∙ rw (sym same) (sym (put-IsAtomic u r).holds)
    | inr miss ↦
        let other = λ (e : (prepare_blob codec u).key ≡ k).
          true≢false (sym ((bytes_eq_iff (prepare_blob codec u).key k).1 e) ∙ miss) in
        h k plain ∙ sym (other_file u k plain other r)
  ]

  get_file-get_one :
      (key : Bytes) (b : Backend) (f : Files)
      → is_temp key ≡ false
      → Holds root f b.objects
      → get_file codec root key f ≡ get_one codec key (record b { accepts_get = true })
  unfolding get_file get_one
  get_file-get_one key b f plain h = ap (decompress_blob codec) (sym (h key plain))

  delete-Holds :
      (key : Bytes) (b : Backend) (accepted : Bool) (f : Files)
      → is_temp key ≡ false
      → Holds root f b.objects
      → Holds root
          (files_or f (delete_file accepted root key f))
          (objects_or b.objects (delete_one codec key (record b { accepts_delete = accepted })))
  unfolding delete_file delete_one
  delete-Holds key b false f plain h k other = h k other
  delete-Holds key b true f plain h k other = elim (Bool-cases (bytes_eq key k)) [
    | inl hit ↦
        rw (sym ((bytes_eq_iff key k).0 hit))
          (remove_self key b.objects ∙ sym (remove_self (join root key) f))
    | inr miss ↦
        let apart' = λ (e : key ≡ k). true≢false (sym ((bytes_eq_iff key k).1 e) ∙ miss) in
        remove_ne key k b.objects apart'
        ∙ h k other
        ∙ sym
            (remove_ne (join root key) (join root k) f (λ e. apart' (join_injective root key k e)))
  ]

  -- FSStore does what Backend says. Where the files under the root are a provider's objects, an upload
  -- that has returned leaves the files that PutLogs of the provider leaves as objects, accepted where it
  -- returned no error and refused otherwise; GetLogs gives what the provider's gives; and DeleteObject
  -- leaves the provider's objects again. The names of temporary files are no keys.
  pub put_one-get_one-delete_one :
      (u : Upload) (key : Bytes) (b : Backend) (put_ok delete_ok : Bool) {f0 f : Files}
      → is_temp key ≡ false
      → Holds root f0 b.objects
      → Reach
          (join root (prepare_blob codec u).key)
          (join root t)
          (compressed codec u)
          f0
          f
          (Stage.returned put_ok)
      → Holds root f (objects_or b.objects (put_one codec u (record b { accepts_put = put_ok })))
        × (get_file codec root key f0 ≡ get_one codec key (record b { accepts_get = true }))
        × Holds root
            (files_or f0 (delete_file delete_ok root key f0))
            (objects_or b.objects (delete_one codec key (record b { accepts_delete = delete_ok })))
  put_one-get_one-delete_one u key b put_ok delete_ok {f0} plain h r = (
    put-Holds u b put_ok h r,
    get_file-get_one key b f0 plain h,
    delete-Holds key b delete_ok f0 plain h,
  )

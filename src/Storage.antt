-- ===== src/Storage.antt =====
-- internal/storage: the blobs (common.go), one provider (s3.go, fs.go) and the failover over
-- several providers (the MultiStore of s3.go).
--
-- Gzip, SHA-256 and the text of a UUID are the record `Codec`. A provider is the map of its objects
-- and what its service answers to each kind of call while the operation runs.
pub mod RoundTrip
pub mod Failover
pub mod Deletion
pub mod Files
use rainlogs.Prelude.{
  ℕ, suc, ◌+◌, ◌≡◌, Bool, true, false, Option, none, some, List, [], ◌∷◌, ◌++◌, length, take, ◌==◌,
  ltb, if◌then◌else◌, ◌&&◌, not, Bytes, codes, bytes_eq, is_empty, All,
}
use rainlogs.Calendar.{format_day, format_stamp}
use rainlogs.Hex.{encode}
use rainlogs.Hex.RoundTrip.{IsByte}

pub record Codec : Type 0 where
  pub sha256 : Bytes → Bytes
  pub gzip : Bytes → Bytes
  pub gunzip : Bytes → Option Bytes
  pub uuid_text : ℕ → Bytes
  pub gunzip-gzip : (raw : Bytes) → gunzip (gzip raw) ≡ some raw

pub record BlobMetadata : Type 0 where
  pub key : Bytes
  pub sha256 : Bytes
  pub size : ℕ
  pub lines : ℕ

-- Which blob an upload is of.
pub record Upload : Type 0 where
  pub customer_id : ℕ
  pub zone_id : ℕ
  pub from : ℕ
  pub to : ℕ
  pub raw : Bytes
  pub log_type : Bytes

unfoldable pub count_lines : Bytes → ℕ
count_lines [] = 0
count_lines (x ∷ b) = if x == b'\n' then suc (count_lines b) else count_lines b

slash : Bytes → Bytes → Bytes
slash a b = a ++ (b'/' ∷ b)

under : Bytes → Bytes → Bytes
under a b = a ++ (b'_' ∷ b)

default_type : Bytes → Bytes
default_type log_type = if is_empty log_type then codes "logs" else log_type

-- The key: <type>/<customer>/<zone>/<YYYY/MM/DD>/<from>_<to>_<sha[:8]>.ndjson.gz
unfoldable pub blob_key : (ℕ → Bytes) → Upload → Bytes → Bytes
unfolding slash under default_type
blob_key uuid_text u sha256hex = slash (default_type u.log_type) (
    slash (uuid_text u.customer_id) (
      slash (uuid_text u.zone_id) (
        slash (format_day u.from) (
          under (format_stamp u.from)
            (under (format_stamp u.to) (take 8 sha256hex ++ codes ".ndjson.gz"))))))

-- One provider, S3 or file system. What stands under a key is the compressed blob.
pub record Backend : Type 0 where
  pub provider : Bytes
  pub objects : List (Bytes × Bytes)
  pub accepts_put : Bool
  pub accepts_get : Bool
  pub accepts_delete : Bool

unfoldable pub object : Bytes → List (Bytes × Bytes) → Option Bytes
object k [] = none
object k ((j, v) ∷ m) = if bytes_eq j k then some v else object k m

unfoldable pub store_object : Bytes → Bytes → List (Bytes × Bytes) → List (Bytes × Bytes)
store_object k v [] = (k, v) ∷ []
store_object k v ((j, w) ∷ m) = if bytes_eq j k then (k, v) ∷ m else (j, w) ∷ store_object k v m

unfoldable pub remove_object : Bytes → List (Bytes × Bytes) → List (Bytes × Bytes)
remove_object k [] = []
remove_object k ((j, w) ∷ m) =
    let rest = remove_object k m in if bytes_eq j k then rest else (j, w) ∷ rest

module _ (codec : Codec) where
  abbrev pub compressed : Upload → Bytes
  compressed u = codec.gzip u.raw

  -- PrepareBlob; writing to a buffer in memory does not fail.
  unfoldable pub prepare_blob : Upload → BlobMetadata
  unfolding count_lines
  prepare_blob u =
      let sha256hex = encode (codec.sha256 (compressed u)) in
      record {
        key = blob_key codec.uuid_text u sha256hex;
        sha256 = sha256hex;
        size = length (compressed u);
        lines = count_lines u.raw;
      }

  -- PutLogs of one provider: the new state of the provider, or `none`.
  unfoldable pub put_one : Upload → Backend → Option Backend
  put_one u b =
      if b.accepts_put
      then some (record b { objects = store_object (prepare_blob u).key (compressed u) b.objects })
      else none

  decompress_blob : Option Bytes → Option Bytes
  decompress_blob none = none
  decompress_blob (some blob) = codec.gunzip blob

  -- GetLogs of one provider: a missing key and a blob that is no gzip fail alike.
  unfoldable pub get_one : Bytes → Backend → Option Bytes
  unfolding decompress_blob
  get_one key b = if b.accepts_get then decompress_blob (object key b.objects) else none

  -- DeleteObject of one provider: to delete a missing key is a success.
  unfoldable pub delete_one : Bytes → Backend → Option Backend
  delete_one key b =
      if b.accepts_delete then some (record b { objects = remove_object key b.objects }) else none

  -- PutLogs of MultiStore: the first provider that accepts wins; its label and the new states.
  unfoldable pub put_logs : Upload → List Backend → Option (Bytes × List Backend)
  put_logs u [] = none
  put_logs u (b ∷ bs) = elim (put_one u b) [
    | some c ↦ some (b.provider, c ∷ bs)
    | none ↦ elim (put_logs u bs) [ none ↦ none | some (label, cs) ↦ some (label, b ∷ cs) ]
  ]

  -- GetLogs of MultiStore: the first provider that has the object.
  unfoldable pub get_logs : Bytes → List Backend → Option Bytes
  get_logs key [] = none
  get_logs key (b ∷ bs) = elim (get_one key b) [ some raw ↦ some raw | none ↦ get_logs key bs ]

  -- The loop of DeleteObject: the new states, and how many providers deleted.
  delete_loop : Bytes → List Backend → ℕ → List Backend × ℕ
  delete_loop key [] successes = ([], successes)
  delete_loop key (b ∷ bs) successes = elim (delete_one key b) [
    | some c ↦ let (cs, n) = delete_loop key bs (suc successes) in (c ∷ cs, n)
    | none ↦ let (cs, n) = delete_loop key bs successes in (b ∷ cs, n)
  ]

  -- DeleteObject of MultiStore: tried everywhere, an error if no provider deleted.
  unfoldable pub delete_object : Bytes → List Backend → Bool × List Backend
  unfolding delete_loop
  delete_object key bs =
      let (cs, successes) = delete_loop key bs 0 in (not (successes == 0 && ltb 0 (length bs)), cs)

-- ===== src/Worm.antt =====
-- pkg/worm/worm.go and the loop of cmd/rainlogs-verify/main.go: the SHA-256 hash chain.
--
-- The hash function is a parameter, so what is proved holds of every function.
pub mod Binding
pub mod Audit
use rainlogs.Prelude.{
  ℕ, ◌+◌, Bool, true, false, not, ◌&&◌, Option, none, some, List, [], ◌∷◌, ◌++◌, ltb, if◌then◌else◌,
  String, Bytes, codes, bytes_eq,
}
use rainlogs.Hex.{encode}

abbrev pub genesis_hash : Bytes
genesis_hash = codes "0000000000000000000000000000000000000000000000000000000000000000"

-- A row of the query of rainlogs-verify, in its order.
pub record Row : Type 0 where
  pub id : ℕ
  pub previous_hash : Bytes
  pub payload : Bytes

-- What `main` prints: where the chain broke, or the number of rows, the last one and its hash.
pub data Verdict : Type 0 where
  broken : (id : ℕ) (expected actual : Bytes) → Verdict
  intact : (count last_id : ℕ) (final_hash : Bytes) → Verdict

module _ (sha256 : Bytes → Bytes) where
  abbrev hex_sum : Bytes → Bytes
  hex_sum bytes = encode (sha256 bytes)

  -- Go's hash.Write appends, so the three writes hash the concatenation.
  unfoldable pub chain_hash : Bytes → Bytes → Bytes → Bytes
  chain_hash prev_chain_hash object_sha256 job_id =
      hex_sum (prev_chain_hash ++ (object_sha256 ++ job_id))

  -- `none` is success; a mismatch reports what was computed.
  unfoldable pub verify_object : Bytes → Bytes → Option Bytes
  verify_object bytes expected =
      let got = hex_sum bytes in if not (bytes_eq got expected) then some got else none

  abbrev row_hash : Row → Bytes
  row_hash r = hex_sum (r.previous_hash ++ r.payload)

  verify_rows : Bytes → ℕ → ℕ → List Row → Verdict
  verify_rows last_hash count last_id [] = intact count last_id last_hash
  verify_rows last_hash count last_id (r ∷ rows) =
      let rest = verify_rows (row_hash r) (count + 1) r.id rows in
      if ltb 0 count && not (bytes_eq r.previous_hash last_hash)
      then broken r.id last_hash r.previous_hash
      else rest

  unfoldable pub verify_chain : List Row → Verdict
  unfolding verify_rows
  verify_chain rows = verify_rows [] 0 0 rows

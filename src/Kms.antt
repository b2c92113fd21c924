-- ===== src/Kms.antt =====
-- internal/kms/kms.go: the key ring that encrypts secrets at rest.
--
-- Go's map of keys is an association list without order of insertion mattering: a later entry of
-- one id would hide nothing, since `insert` replaces. AES-256-GCM and the random nonce are the
-- record `Aead`: `seal` and `unseal` under a key, with what the code relies on as its laws.
pub mod RoundTrip
use rainlogs.Prelude.{
  ℕ, ◌+◌, ◌≡◌, refl, ◌≤◌, Bool, true, false, not, ◌||◌, Option, none, some, List, [], ◌∷◌, ◌++◌,
  ltb, ◌==◌, if◌then◌else◌, length, take, drop, Bytes, codes, bytes_eq, All,
}
use rainlogs.Hex.{encode, decode}
use rainlogs.Hex.RoundTrip.{IsByte}

pub data KmsError : Type 0 where
  bad_hex bad_length key_not_found bad_cipher no_nonce too_short bad_tag : KmsError

pub data Result {ℓ} (A : Type ℓ) : Type ℓ where
  err : KmsError → Result A
  ok : A → Result A

module _ {ℓ κ} {A : Type ℓ} {B : Type κ} (next : A → Result B) where
  -- `if err != nil { return err }`, and on with the value.
  abbrev pub on_success : Result A → Result B
  on_success (err why) = err why
  on_success (ok value) = next value

  pub on_success-parts :
      (m : Result A) {final : B}
      → on_success m ≡ ok final
      → (value : A) × (next value ≡ ok final) × (m ≡ ok value)
  on_success-parts (err why) h = cc
  on_success-parts (ok value) h = (value, h, refl)

-- Go's map[string]T.
module _ {ℓ} {A : Type ℓ} where
  unfoldable pub lookup : Bytes → List (Bytes × A) → Option A
  lookup k [] = none
  lookup k ((j, v) ∷ m) = if bytes_eq j k then some v else lookup k m

  unfoldable pub insert : Bytes → A → List (Bytes × A) → List (Bytes × A)
  insert k v [] = (k, v) ∷ []
  insert k v ((j, w) ∷ m) = if bytes_eq j k then (k, v) ∷ m else (j, w) ∷ insert k v m

pub record Encryptor : Type 0 where
  pub keys : List (Bytes × Bytes)
  pub active_key_id : Bytes

abbrev pub v1 : Bytes
v1 = codes "v1"

decode_key : Bytes → Result Bytes
decode_key hex_key = elim (decode hex_key) [
  | none ↦ err bad_hex
  | some key ↦ if length key == 32 then ok key else err bad_length
]

-- New
unfoldable pub new : Bytes → Result Encryptor
unfolding decode_key
new hex_key =
    on_success (λ key. ok (record { keys = insert v1 key []; active_key_id = v1 }))
      (decode_key hex_key)

-- The loop of NewKeyRing over the entries, in the order in which the map yields them.
decode_keys : List (Bytes × Bytes) → List (Bytes × Bytes) → Result (List (Bytes × Bytes))
decode_keys decoded [] = ok decoded
decode_keys decoded ((id, hex_key) ∷ rest) =
    on_success (λ key. decode_keys (insert id key decoded) rest) (decode_key hex_key)

has_active : Bytes → List (Bytes × Bytes) → Result Encryptor
has_active active decoded = elim (lookup active decoded) [
  | none ↦ err key_not_found
  | some _ ↦ ok (record { keys = decoded; active_key_id = active })
]

-- NewKeyRing
unfoldable pub new_key_ring : List (Bytes × Bytes) → Bytes → Result Encryptor
unfolding decode_key decode_keys has_active
new_key_ring keys active = on_success (has_active active) (decode_keys [] keys)

-- The cipher: AES-GCM under a 16, 24 or 32 byte key, with the nonce size of `cipher.NewGCM`.
pub record Aead : Type 0 where
  pub seal : Bytes → Bytes → Bytes → Bytes
  pub unseal : Bytes → Bytes → Bytes → Option Bytes
  pub unseal-seal :
      (key nonce plaintext : Bytes) → unseal key nonce (seal key nonce plaintext) ≡ some plaintext
  pub seal_bytes :
      (key nonce plaintext : Bytes)
      → All IsByte nonce
      → All IsByte plaintext
      → All IsByte (seal key nonce plaintext)

abbrev pub nonce_size : ℕ
nonce_size = 12

aes_key_ok : Bytes → Bool
aes_key_ok key = (length key == 16) || (length key == 24) || (length key == 32)

-- A missing key reads as the empty slice.
key_or_nil : Option Bytes → Bytes
key_or_nil none = []
key_or_nil (some key) = key

abbrev colon : Bytes
colon = b':' ∷ []

-- The loop that looks for the first colon: what stands before it and behind it.
split_colon : Bytes → Bytes → Option (Bytes × Bytes)
split_colon before [] = none
split_colon before (c ∷ rest) =
    if c == b':' then some (before, rest) else split_colon (before ++ c ∷ []) rest

-- Without a colon the input is the legacy format, under the id "v1".
key_and_hex : Bytes → Option (Bytes × Bytes) → Bytes × Bytes
key_and_hex input none = (v1, input)
key_and_hex input (some parts) = parts

module _ (aead : Aead) where
  seal_with : Bytes → Bytes → Option Bytes → Bytes → Result Bytes
  seal_with id key none plaintext = err no_nonce
  seal_with id key (some nonce) plaintext =
      ok (id ++ (colon ++ encode (nonce ++ aead.seal key nonce plaintext)))

  -- Encrypt, with what reading a nonce from crypto/rand yields.
  unfoldable pub encrypt : Encryptor → Option Bytes → Bytes → Result Bytes
  unfolding key_or_nil aes_key_ok seal_with
  encrypt e nonce plaintext =
      let key = key_or_nil (lookup e.active_key_id e.keys) in
      if not (aes_key_ok key) then err bad_cipher else seal_with e.active_key_id key nonce plaintext

  open_sealed : Bytes → Bytes → Result Bytes
  unfolding aes_key_ok
  open_sealed key sealed =
      if not (aes_key_ok key)
      then err bad_cipher
      else if ltb (length sealed) nonce_size
      then err too_short
      else elim (aead.unseal key (take nonce_size sealed) (drop nonce_size sealed)) [
        | none ↦ err bad_tag
        | some plaintext ↦ ok plaintext
      ]

  decrypt_with : Option Bytes → Bytes → Result Bytes
  unfolding open_sealed
  decrypt_with none hex_ciphertext = err key_not_found
  decrypt_with (some key) hex_ciphertext = elim (decode hex_ciphertext) [
    | none ↦ err bad_hex
    | some sealed ↦ open_sealed key sealed
  ]

  -- Decrypt
  unfoldable pub decrypt : Encryptor → Bytes → Result Bytes
  unfolding split_colon key_and_hex decrypt_with
  decrypt e input =
      let (key_id, hex_ciphertext) = key_and_hex input (split_colon [] input) in
      decrypt_with (lookup key_id e.keys) hex_ciphertext

-- ===== src/Auth.antt =====
-- internal/auth/auth.go: API keys. JWTs are in Sessions.
--
-- crypto/rand and bcrypt are arguments: the bytes that `rand.Read` yields, or `none`, and a record
-- `Bcrypt` with the law that a password matches its own hash.
pub mod Keys
pub mod Sessions
use rainlogs.Prelude.{
  ℕ, ◌+◌, ◌-◌, ◌*◌, ◌/◌, ◌%◌, ◌≡◌, Bool, true, false, not, Option, none, some, List, [], ◌∷◌, ◌++◌,
  ltb, ◌==◌, if◌then◌else◌, length, take, drop, Bytes, codes, has_prefix,
}

-- base64.RawURLEncoding of the standard library: no padding, "-" and "_" for 62 and 63.
base64_char : ℕ → ℕ
base64_char n =
    if ltb n 26
    then b'A' + n
    else if ltb n 52
    then b'a' + (n - 26)
    else if ltb n 62
    then b'0' + (n - 52)
    else if n == 62
    then b'-'
    else b'_'

unfoldable pub base64_url : Bytes → Bytes
unfolding base64_char
base64_url [] = []
base64_url (a ∷ []) = base64_char (a / 4) ∷ base64_char (a % 4 * 16) ∷ []
base64_url (a ∷ b ∷ []) =
    base64_char (a / 4) ∷ base64_char (a % 4 * 16 + b / 16) ∷ base64_char (b % 16 * 4) ∷ []
base64_url (a ∷ b ∷ c ∷ rest) =
    base64_char (a / 4)
    ∷ base64_char (a % 4 * 16 + b / 16)
    ∷ base64_char (b % 16 * 4 + c / 64)
    ∷ base64_char (c % 64)
    ∷ base64_url rest

abbrev pub token_bytes : ℕ
token_bytes = 32

abbrev pub token_prefix : Bytes
token_prefix = codes "rl_"

abbrev pub prefix_len : ℕ
prefix_len = 8

-- bcrypt with cost 12 and a random salt. It refuses a password of more than 72 bytes.
pub record Bcrypt : Type 0 where
  pub generate : Bytes → Option Bytes
  pub matches : Bytes → Bytes → Bool
  pub generate_short :
      (password : Bytes) → length password ≡ 46 → (h : Bytes) × (generate password ≡ some h)
  pub matches-generate :
      (password hash : Bytes) → generate password ≡ some hash → matches hash password ≡ true

pub data AuthError : Type 0 where
  no_rand too_short_encoded no_hash invalid_format too_short : AuthError

pub data Result {ℓ} (A : Type ℓ) : Type ℓ where
  ok : A → Result A
  err : AuthError → Result A

pub record GeneratedKey : Type 0 where
  pub plaintext : Bytes
  pub hash : Bytes
  pub prefix : Bytes

module _ (bcrypt : Bcrypt) where
  hashed : Bytes → Bytes → Option Bytes → Result GeneratedKey
  hashed plaintext prefix none = err no_hash
  hashed plaintext prefix (some hash) =
      ok (record { plaintext = plaintext; hash = hash; prefix = prefix })

  -- GenerateAPIKey, from the bytes of crypto/rand.
  unfoldable pub generate_api_key : Option Bytes → Result GeneratedKey
  unfolding hashed
  generate_api_key none = err no_rand
  generate_api_key (some b) =
      let encoded = base64_url b in
      if ltb (length encoded) prefix_len
      then err too_short_encoded
      else hashed (token_prefix ++ encoded) (take prefix_len encoded)
          (bcrypt.generate (token_prefix ++ encoded))

  -- ValidateAPIKey
  unfoldable pub validate_api_key : Bytes → Bytes → Bool
  validate_api_key plaintext hash = bcrypt.matches hash plaintext

-- PrefixOf
unfoldable pub prefix_of : Bytes → Result Bytes
prefix_of plaintext =
    if not (has_prefix token_prefix plaintext)
    then err invalid_format
    else let body = drop (length token_prefix) plaintext in
      if ltb (length body) prefix_len then err too_short else ok (take prefix_len body)

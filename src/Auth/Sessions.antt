-- ===== src/Auth/Sessions.antt =====
-- IssueJWT and VerifyJWT of internal/auth/auth.go.
--
-- golang-jwt is the record `Jwt`. Of it the code relies on this: a token that was signed is read again
-- while it has not expired, and what is read was signed in a way that the key function names a key for,
-- with that key, and has not expired. A NumericDate counts whole seconds.
use rainlogs.Prelude.{
  ℕ, ◌+◌, ◌*◌, ◌/◌, ◌<◌, ◌≡◌, Bool, true, false, Option, none, some, if◌then◌else◌, Bytes,
}
use rainlogs.Calendar.{second}
use rainlogs.Models.{Customer}

pub record Claims : Type 0 where
  pub customer_id : Bytes
  pub expires_at : Option ℕ
  pub issued_at : Option ℕ
  pub subject : Bytes

pub data SigningMethod : Type 0 where
  hs256 hs384 hs512 : SigningMethod
  other : Bytes → SigningMethod

abbrev pub InTime : ℕ → Option ℕ → Type 0
InTime now none = Unit
InTime now (some t) = now < t * second

pub record Jwt : Type 1 where
  pub Signed : SigningMethod → Bytes → Claims → Bytes → Type 0
  pub signed_string : SigningMethod → Bytes → Claims → Option Bytes
  pub parse_with_claims : (SigningMethod → Option Bytes) → ℕ → Bytes → Option Claims
  pub parse-signed :
      (keys : SigningMethod → Option Bytes) (m : SigningMethod) (key : Bytes) (c : Claims)
      (token : Bytes) (now : ℕ)
      → signed_string m key c ≡ some token
      → keys m ≡ some key
      → InTime now c.expires_at
      → parse_with_claims keys now token ≡ some c
  pub parse-Signed :
      (keys : SigningMethod → Option Bytes) (c : Claims) (token : Bytes) (now : ℕ)
      → parse_with_claims keys now token ≡ some c
      → (m : SigningMethod) × (key : Bytes) × (keys m ≡ some key)
        × Signed m key c token
        × InTime now c.expires_at

-- *jwt.SigningMethodHMAC
abbrev pub is_hmac : SigningMethod → Bool
is_hmac hs256 = true
is_hmac hs384 = true
is_hmac hs512 = true
is_hmac (other _) = false

-- The key function of VerifyJWT.
abbrev pub keys_of : Bytes → SigningMethod → Option Bytes
keys_of secret m = if is_hmac m then some secret else none

module _ (jwt : Jwt) (uuid_text : ℕ → Bytes) where
  abbrev pub claims_of : Customer → (ttl now : ℕ) → Claims
  claims_of c ttl now = record {
    customer_id = uuid_text c.id;
    expires_at = some ((now + ttl) / second);
    issued_at = some (now / second);
    subject = uuid_text c.id;
  }

  unfoldable pub issue_jwt : (secret : Bytes) → Customer → (ttl now : ℕ) → Option Bytes
  issue_jwt secret c ttl now = jwt.signed_string hs256 secret (claims_of c ttl now)

unfoldable pub verify_jwt : Jwt → (secret : Bytes) → (now : ℕ) → Bytes → Option Claims
verify_jwt jwt secret now token = jwt.parse_with_claims (keys_of secret) now token

-- ===== src/Api/Sessions.antt =====
-- JWTAuth of internal/api/middleware/middleware.go: the decision about a request of the dashboard.
-- uuid.Parse is an argument.
pub mod Tokens
use rainlogs.Prelude.{
  ℕ, Bool, true, false, not, Option, none, some, if◌then◌else◌, is_empty, [], Bytes, codes,
}
use rainlogs.Auth.Sessions.{Jwt, Claims, verify_jwt}
use rainlogs.Api.Access.{cut_at_space, equal_fold}

-- The rejection with its HTTP status, or the customer of the request.
pub data Decision : Type 0 where
  reject : (status : ℕ) (message : Bytes) → Decision
  pass : (customer_id : ℕ) → Decision

abbrev pub admit : Option ℕ → Decision
admit none = reject 401 (codes "invalid customer id in token")
admit (some id) = pass id

module _ (jwt : Jwt) (parse_uuid : Bytes → Option ℕ) (secret : Bytes) (now : ℕ) where
  unfoldable pub check_claims : Option Claims → Decision
  check_claims none = reject 401 (codes "invalid token")
  check_claims (some c) = admit (parse_uuid c.customer_id)

  unfoldable pub check_parts : Option (Bytes × Bytes) → Decision
  check_parts none = reject 401 (codes "invalid authorization format")
  check_parts (some (scheme, token)) =
      if not (equal_fold scheme (codes "bearer"))
      then reject 401 (codes "invalid authorization format")
      else check_claims (verify_jwt jwt secret now token)

  -- JWTAuth
  unfoldable pub jwt_auth : Bytes → Decision
  jwt_auth auth_header =
      if is_empty auth_header
      then reject 401 (codes "missing authorization header")
      else check_parts (cut_at_space [] auth_header)

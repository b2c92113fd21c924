-- ===== src/GoError.antt =====
-- The error values of the program: errors made by fmt.Errorf, with or without a wrapped error, and
-- the typed errors that a caller tells apart, RateLimitError of internal/cloudflare/errors.go and
-- the unique violation of PostgreSQL.
use rainlogs.Prelude.{Bool, true, false, Option, none, some, ◌++◌, Bytes, codes, ℤ}

pub data GoError : Type 0 where
  text : Bytes → GoError
  wrap : Bytes → GoError → GoError
  rate_limit_error : (retry_after : ℤ) → GoError
  unique_violation : GoError
  database_error : GoError

-- Error(): a wrapped error is written after its context. The text of a RateLimitError ends in its
-- duration, which no caller looks at.
unfoldable pub error_text : GoError → Bytes
error_text (text t) = t
error_text (wrap context e) = context ++ (codes ": " ++ error_text e)
error_text (rate_limit_error retry_after) = codes "rate limited: Cloudflare 429"
error_text unique_violation = codes "unique violation (SQLSTATE 23505)"
error_text database_error = codes "database error"

-- errors.As(err, *RateLimitError): the first of the chain.
unfoldable pub as_rate_limit : GoError → Option ℤ
as_rate_limit (wrap context e) = as_rate_limit e
as_rate_limit (rate_limit_error retry_after) = some retry_after
as_rate_limit _ = none

-- isUniqueViolation
unfoldable pub is_unique_violation : GoError → Bool
is_unique_violation (wrap context e) = is_unique_violation e
is_unique_violation unique_violation = true
is_unique_violation _ = false

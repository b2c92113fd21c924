-- ===== src/Api/Access.antt =====
-- APIKeyAuth and RequireAdmin of internal/api/middleware/middleware.go.
--
-- The decision about a request, from its Authorization header (an empty text where there is none), the
-- rows of api_keys, whether the database answers, and the time.
pub mod Keys
use rainlogs.Prelude.{
  ℕ, ◌+◌, ◌≡◌, Bool, true, false, not, ◌||◌, ◌&&◌, Option, none, some, List, [], ◌∷◌, ◌++◌, map,
  ltb, leb, ◌==◌, length, if◌then◌else◌, find_first, is_empty, Bytes, codes, bytes_eq,
}
use rainlogs.Models.{ApiKey, UserRole}
use rainlogs.Auth
use rainlogs.Auth.{Bcrypt, validate_api_key, prefix_of}
use rainlogs.Db.ApiKeys

-- The rejection with its HTTP status, or the key whose customer and role the request gets, and whose
-- last_used_at is then updated.
pub data Decision : Type 0 where
  reject : (status : ℕ) (message : Bytes) → Decision
  pass : ApiKey → Decision

-- strings.SplitN(header, " ", 2), where there are two parts.
unfoldable pub cut_at_space : Bytes → Bytes → Option (Bytes × Bytes)
cut_at_space before [] = none
cut_at_space before (c ∷ rest) =
    if c == b' ' then some (before, rest) else cut_at_space (before ++ c ∷ []) rest

abbrev pub lower : ℕ → ℕ
lower c = if leb b'A' c && leb c b'Z' then c + 32 else c

abbrev pub equal_fold : Bytes → Bytes → Bool
equal_fold a b = bytes_eq (map lower a) (map lower b)

abbrev pub has_expired : ℕ → ApiKey → Bool
has_expired now k = elim k.expires_at [ none ↦ false | some t ↦ ltb t now ]

unfoldable pub admit : ℕ → Option ApiKey → Decision
admit now none = reject 401 (codes "invalid api key")
admit now (some k) = if has_expired now k then reject 401 (codes "api key expired") else pass k

module _ (bcrypt : Bcrypt) (answers : Bool) (now : ℕ) (t : ApiKeys.Table) where
  unfoldable pub valid_key : Bytes → Bytes → Option ApiKey
  valid_key api_key prefix =
      find_first (λ k. validate_api_key bcrypt api_key k.key_hash) (ApiKeys.get_by_prefix prefix t)

  unfoldable pub look_up : Bytes → Auth.Result Bytes → Decision
  look_up api_key (Auth.err e) = reject 401 (codes "invalid api key format")
  look_up api_key (Auth.ok prefix) =
      if answers then admit now (valid_key api_key prefix) else reject 500 (codes "database error")

  unfoldable pub check_parts : Option (Bytes × Bytes) → Decision
  check_parts none = reject 401 (codes "invalid authorization format")
  check_parts (some (scheme, api_key)) =
      if not (equal_fold scheme (codes "bearer"))
      then reject 401 (codes "invalid authorization format")
      else if ltb 256 (length api_key)
      then reject 401 (codes "invalid api key format")
      else look_up api_key (prefix_of api_key)

  -- APIKeyAuth
  unfoldable pub api_key_auth : Bytes → Decision
  api_key_auth auth_header =
      if is_empty auth_header
      then reject 401 (codes "missing authorization header")
      else check_parts (cut_at_space [] auth_header)

abbrev pub is_admin : UserRole → Bool
is_admin UserRole.admin = true
is_admin _ = false

-- RequireAdmin, on the role in the context; the dashboard's JWTAuth sets none.
unfoldable pub require_admin : Option UserRole → Option ℕ
require_admin none = some 403
require_admin (some role) = if is_admin role then none else some 403

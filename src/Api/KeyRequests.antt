-- ===== src/Api/KeyRequests.antt =====
-- The API key handlers of internal/api/handlers/handlers.go, after the customer of the request and the
-- path's identifier are known; a body that Bind refuses is `none`.
--
-- The identifier of a new key, the random bytes and bcrypt are arguments. A day of AddDate is 24 hours,
-- since the times are in UTC.
pub mod Revocation
pub mod Issue
use rainlogs.Prelude.{
  ℕ, ◌+◌, ◌*◌, Bool, true, false, not, Option, none, some, List, if◌then◌else◌, is_empty, Bytes, ℤ,
  pos, pos_part, ltb_ℤ,
}
use rainlogs.Models.{ApiKey, UserRole}
use rainlogs.Calendar.{day}
use rainlogs.Auth
use rainlogs.Auth.{Bcrypt, GeneratedKey, generate_api_key}
use rainlogs.Db.ApiKeys
use rainlogs.Exec.{Env, Db, Exec, pure, on_error, db_query, db_query_row, db_exec, time_now}

pub data Reply : Type 0 where
  status : ℕ → Reply
  new_key : ApiKey → Bytes → Reply
  all_keys : List ApiKey → Reply

pub record CreateApiKeyRequest : Type 0 where
  pub label : Bytes
  pub expires_in_days : ℤ
  pub role : UserRole

abbrev pub is_known_role : UserRole → Bool
is_known_role UserRole.unset = true
is_known_role UserRole.admin = true
is_known_role UserRole.viewer = true
is_known_role (UserRole.other _) = false

abbrev pub role_or_default : UserRole → UserRole
role_or_default UserRole.unset = UserRole.admin
role_or_default r = r

abbrev pub expiry : ℤ → ℕ → Option ℕ
expiry days now = if ltb_ℤ (pos 0) days then some (now + pos_part days * day) else none

module _ (env : Env) (customer : ℕ) where
  abbrev pub key_of : ℕ → CreateApiKeyRequest → GeneratedKey → ℕ → ApiKey
  key_of new_id req made now = record {
    id = new_id;
    customer_id = customer;
    prefix = made.prefix;
    key_hash = made.hash;
    label = req.label;
    role = role_or_default req.role;
    created_at = now;
    last_used_at = none;
    revoked_at = none;
    expires_at = expiry req.expires_in_days now;
  }

  abbrev pub insert_key : ApiKey → Db → ℕ → Db
  insert_key k d now = record d { api_keys = ApiKeys.create now k d.api_keys }

  -- From the generated key on. The insert returns the time of the row.
  unfoldable pub save_key : ℕ → CreateApiKeyRequest → Auth.Result GeneratedKey → Exec Reply
  save_key new_id req (Auth.err e) = pure (status 500)
  save_key new_id req (Auth.ok made) =
      on_error time_now (λ e. pure (status 500))
        λ now.
          on_error (db_exec env (insert_key (key_of new_id req made now))) (λ e. pure (status 500))
            (λ _. pure (new_key (key_of new_id req made now) made.plaintext))

  -- CreateAPIKey
  unfoldable pub create_api_key :
      Bcrypt → Option Bytes → ℕ → Option CreateApiKeyRequest → Exec Reply
  create_api_key bcrypt rand new_id none = pure (status 400)
  create_api_key bcrypt rand new_id (some req) =
      if is_empty req.label
      then pure (status 400)
      else if not (is_known_role req.role)
      then pure (status 400)
      else save_key new_id req (generate_api_key bcrypt rand)

  -- ListAPIKeys
  unfoldable pub list_api_keys : Exec Reply
  list_api_keys =
      on_error (db_query env (λ d _. ApiKeys.list_by_customer customer d.api_keys))
        (λ e. pure (status 500)) (λ keys. pure (all_keys keys))

  abbrev pub shut_key : ℕ → Db → ℕ → Db
  shut_key key_id d now = record d { api_keys = ApiKeys.revoke now key_id d.api_keys }

  -- RevokeAPIKey
  unfoldable pub revoke_api_key : ℕ → Exec Reply
  revoke_api_key key_id =
      on_error (db_query_row env (λ d _. ApiKeys.get_by_customer_and_id customer key_id d.api_keys))
        (λ e. pure (status 404))
        λ _.
          on_error (db_exec env (shut_key key_id)) (λ e. pure (status 500)) (λ _. pure (status 204))

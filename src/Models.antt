-- ===== src/Models.antt =====
-- internal/models/models.go and internal/models/export.go: the rows of the database and the
-- constants of their columns.
--
-- A UUID is a number below 2 ^ 128 and `uuid.Nil` is 0. A time is a number of nanoseconds since
-- the Unix epoch. A column that Go keeps as a string and compares with constants is a data type
-- with a constructor for the empty string and one for every other string. An int64 count is a
-- number; the quota, which may be -1, is an integer.
use rainlogs.Prelude.{ℕ, ℤ, Bool, true, false, Option, Bytes}

pub data JobStatus : Type 0 where
  pending running done failed expired : JobStatus

abbrev pub is_done : JobStatus → Bool
is_done JobStatus.done = true
is_done _ = false

pub data UserRole : Type 0 where
  unset admin viewer : UserRole
  other : Bytes → UserRole

pub data PlanType : Type 0 where
  unset enterprise business free_pro : PlanType
  other : Bytes → PlanType

pub record Customer : Type 0 where
  pub id : ℕ
  pub name : Bytes
  pub email : Bytes
  pub cf_account_id : Bytes
  pub cf_api_key_enc : Bytes
  pub retention_days : ℕ
  pub created_at : ℕ
  pub updated_at : ℕ
  pub deleted_at : Option ℕ
  pub quota_bytes : ℤ

pub record ApiKey : Type 0 where
  pub id : ℕ
  pub customer_id : ℕ
  pub prefix : Bytes
  pub key_hash : Bytes
  pub label : Bytes
  pub role : UserRole
  pub created_at : ℕ
  pub last_used_at : Option ℕ
  pub revoked_at : Option ℕ
  pub expires_at : Option ℕ

pub record Zone : Type 0 where
  pub id : ℕ
  pub customer_id : ℕ
  pub zone_id : Bytes
  pub name : Bytes
  pub plan : PlanType
  pub pull_interval_secs : ℕ
  pub last_pulled_at : Option ℕ
  pub active : Bool
  pub created_at : ℕ
  pub deleted_at : Option ℕ

pub record LogJob : Type 0 where
  pub id : ℕ
  pub zone_id : ℕ
  pub customer_id : ℕ
  pub period_start : ℕ
  pub period_end : ℕ
  pub status : JobStatus
  pub s3_key : Bytes
  pub s3_provider : Bytes
  pub sha256 : Bytes
  pub chain_hash : Bytes
  pub byte_count : ℕ
  pub log_count : ℕ
  pub attempts : ℕ
  pub err_msg : Bytes
  pub verified_at : Option ℕ
  pub created_at : ℕ
  pub updated_at : ℕ

pub data ExportStatus : Type 0 where
  pending processing completed failed : ExportStatus

pub record LogExport : Type 0 where
  pub id : ℕ
  pub customer_id : ℕ
  pub s3_config_enc : Bytes
  pub filter_start : ℕ
  pub filter_end : ℕ
  pub status : ExportStatus
  pub log_count : ℕ
  pub byte_count : ℕ
  pub error_msg : Option Bytes
  pub created_at : ℕ
  pub updated_at : ℕ

pub record ExportS3Config : Type 0 where
  pub endpoint : Bytes
  pub region : Bytes
  pub bucket : Bytes
  pub access_key_id : Bytes
  pub secret_access_key : Bytes
  pub path_prefix : Bytes

pub record AuditEvent : Type 0 where
  pub id : ℕ
  pub customer_id : Option ℕ
  pub request_id : Bytes
  pub action : Bytes
  pub resource_id : Bytes
  pub ip_address : Bytes
  pub status_code : ℕ
  pub error_detail : Bytes
  pub created_at : ℕ

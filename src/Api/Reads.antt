-- ===== src/Api/Reads.antt =====
-- The handlers that only read, of internal/api/handlers/handlers.go and export.go, after the customer of
-- the request and the path's identifier are known.
--
-- A query parameter that is not given is empty. A reply is its status or what a success returns; which
-- fields of a row JSON leaves out is not here.
pub mod Rows
pub mod Own
use rainlogs.Prelude.{
  ℕ, ◌+◌, Bool, not, ◌&&◌, ◌==◌, Option, none, some, List, [], ◌∷◌, ◌++◌, if◌then◌else◌, is_empty,
  length, Bytes, codes, ℤ, pos, pos_part, ltb_ℤ, leb_ℤ,
}
use rainlogs.Calendar.{format_stamp}
use rainlogs.Strconv.{atoi}
use rainlogs.Models.{Customer, ApiKey, Zone, LogJob, AuditEvent, LogExport}
use rainlogs.Db.Customers
use rainlogs.Db.Zones
use rainlogs.Db.ApiKeys
use rainlogs.Db.LogJobs
use rainlogs.Db.Exports
use rainlogs.Db.Audit
use rainlogs.Exec.{Env, Db, Exec, pure, on_error, db_query, db_query_row, get_logs, time_now}

-- What a download is: its name, its two headers and its body.
pub record Archive : Type 0 where
  pub filename : Bytes
  pub sha256 : Bytes
  pub chain_hash : Bytes
  pub body : Bytes

pub record CustomerExport : Type 0 where
  pub id : ℕ
  pub name : Bytes
  pub email : Bytes
  pub cf_account_id : Bytes
  pub retention_days : ℕ
  pub created_at : ℕ

pub record CustomerData : Type 0 where
  pub exported_at : ℕ
  pub customer : CustomerExport
  pub zones : List Zone
  pub api_keys : List ApiKey
  pub log_jobs_total : ℕ
  pub log_jobs : List LogJob

pub data Reply : Type 0 where
  status : ℕ → Reply
  one_customer : Customer → Reply
  jobs : List LogJob → Reply
  one_job : LogJob → Reply
  archive : Archive → Reply
  customer_data : CustomerData → Reply
  events : List AuditEvent → Reply
  one_export : LogExport → Reply

abbrev pub or_default : ℕ → (ℤ → Bool) → Option ℤ → ℕ
or_default default ok none = default
or_default default ok (some v) = if ok v then pos_part v else default

-- The query parameters limit and offset.
abbrev pub limit_of : (default most : ℕ) → Bytes → ℕ
limit_of default most l =
    if is_empty l
    then default
    else or_default default (λ v. ltb_ℤ (pos 0) v && leb_ℤ v (pos most)) (atoi l)

abbrev pub offset_of : Bytes → ℕ
offset_of o = if is_empty o then 0 else or_default 0 (λ v. leb_ℤ (pos 0) v) (atoi o)

module _ (env : Env) (customer : ℕ) where
  -- GetCustomer
  unfoldable pub get_customer : ℕ → Exec Reply
  get_customer id =
      if not (id == customer)
      then pure (status 403)
      else on_error (db_query_row env (λ d _. Customers.get_by_id id d.customers))
          (λ e. pure (status 404)) (λ c. pure (one_customer c))

  -- ListLogJobs
  unfoldable pub list_log_jobs : (limit offset : Bytes) → Exec Reply
  list_log_jobs limit offset =
      on_error
        (db_query env λ d _.
          LogJobs.list_by_customer customer (limit_of 50 500 limit) (offset_of offset) d.log_jobs)
        (λ e. pure (status 500)) (λ js. pure (jobs js))

  -- GetByID and the test of the owner, which two handlers begin with.
  unfoldable pub with_own_job : ℕ → (LogJob → Exec Reply) → Exec Reply
  with_own_job job_id next =
      on_error (db_query_row env (λ d _. LogJobs.get_by_id job_id d.log_jobs))
        (λ e. pure (status 404))
        (λ job. if not (job.customer_id == customer) then pure (status 403) else next job)

  -- GetLogJob
  unfoldable pub get_log_job : ℕ → Exec Reply
  get_log_job job_id = with_own_job job_id (λ job. pure (one_job job))

  abbrev pub filename : LogJob → Bytes
  filename job =
      codes "rainlogs_"
      ++ (format_stamp job.period_start
          ++ (codes "_" ++ (format_stamp job.period_end ++ codes ".ndjson")))

  unfoldable pub send_archive : LogJob → Exec Reply
  send_archive job =
      if is_empty job.s3_key
      then pure (status 404)
      else on_error (get_logs env job.s3_key) (λ e. pure (status 500))
          λ body. pure (
            archive (record {
              filename = filename job;
              sha256 = job.sha256;
              chain_hash = job.chain_hash;
              body = body;
            }))

  -- DownloadLogs
  unfoldable pub download_logs : ℕ → Exec Reply
  download_logs job_id = with_own_job job_id send_archive

  -- GetZoneLogs
  unfoldable pub get_zone_logs : ℕ → (limit offset : Bytes) → Exec Reply
  get_zone_logs zone_id limit offset =
      on_error (db_query_row env (λ d _. Zones.get_by_id zone_id d.zones)) (λ e. pure (status 404))
        λ zone.
          if not (zone.customer_id == customer)
          then pure (status 403)
          else on_error
              (db_query env λ d _.
                LogJobs.list_by_zone customer zone_id (limit_of 50 500 limit) (offset_of offset)
                  d.log_jobs)
              (λ e. pure (status 500)) (λ js. pure (jobs js))

  abbrev pub exported : Customer → CustomerExport
  exported c = record {
    id = c.id;
    name = c.name;
    email = c.email;
    cf_account_id = c.cf_account_id;
    retention_days = c.retention_days;
    created_at = c.created_at;
  }

  -- ExportCustomerData
  unfoldable pub export_customer_data : Exec Reply
  export_customer_data =
      on_error (db_query_row env (λ d _. Customers.get_by_id customer d.customers))
        (λ e. pure (status 404))
        λ c.
          on_error (db_query env (λ d _. Zones.list_by_customer customer d.zones))
            (λ e. pure (status 500))
            λ zones.
              on_error (db_query env (λ d _. ApiKeys.list_by_customer customer d.api_keys))
                (λ e. pure (status 500))
                λ keys.
                  on_error
                    (db_query env (λ d _. LogJobs.list_by_customer customer 500 0 d.log_jobs))
                    (λ e. pure (status 500))
                    λ js.
                      on_error time_now (λ e. pure (status 500))
                        λ now. pure (
                          customer_data (record {
                            exported_at = now;
                            customer = exported c;
                            zones = zones;
                            api_keys = keys;
                            log_jobs_total = length js;
                            log_jobs = js;
                          }))

  -- ListAuditLog
  unfoldable pub list_audit_log : (limit offset : Bytes) → Exec Reply
  list_audit_log limit offset =
      on_error
        (db_query env λ d _.
          Audit.list_by_customer customer (limit_of 100 1000 limit) (offset_of offset)
            d.audit_events)
        (λ e. pure (status 500)) (λ es. pure (events es))

  -- Get of the export handlers.
  unfoldable pub get_export : ℕ → Exec Reply
  get_export id =
      on_error (db_query_row env (λ d _. Exports.get_by_id id d.log_exports))
        (λ e. pure (status 404))
        λ e. if not (e.customer_id == customer) then pure (status 403) else pure (one_export e)

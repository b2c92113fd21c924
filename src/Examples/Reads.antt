-- ===== src/Examples/Reads.antt =====
-- Requests of customer 1, in a database where customer 8 has a zone and a job too.
use rainlogs.Prelude.{◌+◌, ◌≡◌, refl, none, [], ◌∷◌, codes}
use rainlogs.Models.{LogJob, JobStatus}
use rainlogs.Calendar.{hour, format_stamp}
use rainlogs.Db.LogJobs
use rainlogs.Exec.{World, ok, pure, on_error, db_query_row}
use rainlogs.Exec.Gives.{IfOk}
use rainlogs.Examples.Setup.{codec, env, db, world, zone, noon}
use rainlogs.Api.Zones.{list_zones}
use rainlogs.Api.KeyRequests.{list_api_keys}
use rainlogs.Api.Reads.{
  status, one_job, get_customer, list_log_jobs, get_log_job, download_logs, get_zone_logs,
  with_own_job, list_audit_log, get_export, export_customer_data, filename,
}
use rainlogs.Api.Reads.Rows.{IsOwn}
use rainlogs.Api.Reads.Own.{ZonesOwn, KeysOwn, reads-IsOwn}

abbrev job : LogJob
job = record {
  id = 5;
  zone_id = 2;
  customer_id = 1;
  period_start = noon;
  period_end = noon + hour;
  status = JobStatus.done;
  s3_key = codes "logs/5";
  s3_provider = codes "garage";
  sha256 = codes "ab";
  chain_hash = codes "cd";
  byte_count = 2;
  log_count = 1;
  attempts = 1;
  err_msg = [];
  verified_at = none;
  created_at = noon;
  updated_at = noon;
}

abbrev shared : World
shared = record world {
  db = record db {
    zones = zone ∷ record zone { id = 3; customer_id = 8 } ∷ [];
    log_jobs = job ∷ record job { id = 6; zone_id = 3; customer_id = 8 } ∷ [];
  };
}

own_job : (get_log_job env 1 5 shared).0 ≡ ok (one_job job)
unfolding get_log_job with_own_job pure on_error db_query_row LogJobs.get_by_id
own_job = refl

foreign_job : (download_logs env 1 6 shared).0 ≡ ok (status 403)
unfolding download_logs with_own_job pure on_error db_query_row LogJobs.get_by_id
foreign_job = refl

archive_name : filename env 1 job ≡ codes "rainlogs_20260101T000000Z_20260101T010000Z.ndjson"
unfolding format_stamp
archive_name = refl

reads-IsOwn_example :
    IfOk (IsOwn codec 1 shared) (get_customer env 1 8 shared).0
    × IfOk (IsOwn codec 1 shared) (list_log_jobs env 1 (codes "20") [] shared).0
    × IfOk (IsOwn codec 1 shared) (get_log_job env 1 5 shared).0
    × IfOk (IsOwn codec 1 shared) (download_logs env 1 5 shared).0
    × IfOk (IsOwn codec 1 shared) (get_zone_logs env 1 3 (codes "20") [] shared).0
    × IfOk (IsOwn codec 1 shared) (list_audit_log env 1 (codes "20") [] shared).0
    × IfOk (IsOwn codec 1 shared) (get_export env 1 4 shared).0
    × IfOk (IsOwn codec 1 shared) (export_customer_data env 1 shared).0
    × IfOk (ZonesOwn 1) (list_zones env 1 shared).0
    × IfOk (KeysOwn 1) (list_api_keys env 1 shared).0
reads-IsOwn_example = reads-IsOwn env 1 shared 8 5 3 4 (codes "20") []

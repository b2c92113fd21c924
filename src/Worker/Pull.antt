-- ===== src/Worker/Pull.antt =====
-- LogPullProcessor of internal/worker/worker.go: ProcessTask and failJob.
--
-- The payload is parsed already. What the process draws from outside is `Inputs`: the new UUID, what
-- Decrypt of the key ring answers, Cloudflare, and whether the context ends during the wait.
pub mod Frame
pub mod Stored
pub mod Success
pub mod Leads
pub mod Endings
pub mod NoQuota
use rainlogs.Prelude.{
  ℕ, suc, ◌+◌, ◌*◌, ◌≡◌, Bool, true, false, not, Option, none, some, List, [], ◌∷◌, ◌++◌, ltb, leb,
  if◌then◌else◌, is_empty, Bytes, codes, contains, ℤ, pos, negsuc, ltb_ℤ, leb_ℤ,
}
use rainlogs.Models.{LogJob, Customer, Zone, PlanType, JobStatus}
use rainlogs.Calendar.{millisecond, second}
use rainlogs.Hex.{encode}
use rainlogs.Worm.{genesis_hash, chain_hash}
use rainlogs.GoError.{GoError, text, wrap, error_text, as_rate_limit, rate_limit_error}
use rainlogs.Kms
use rainlogs.Queue.{LogPullPayload, new_log_verify_task}
use rainlogs.Db.LogJobs
use rainlogs.Db.Customers
use rainlogs.Db.Zones
use rainlogs.Storage.{BlobMetadata, Upload}
use rainlogs.Cloudflare.Logpull.{Service, pull_logs}
use rainlogs.Exec.{
  World, Env, Db, Outcome, ok, err, Exec, pure, raise, in_context, on_error, ignoring, db_query,
  db_query_row, db_exec, enqueue, put_logs, send_alert, quota_exceeded, sleep,
}

pub record Inputs : Type 0 where
  pub new_id : ℕ
  pub decrypt : Bytes → Kms.Result Bytes
  pub cloudflare : Service
  pub cancelled : Bool

-- The job that ProcessTask starts from.
abbrev pub new_job : ℕ → LogPullPayload → LogJob
new_job id p = record {
  id = id;
  zone_id = p.zone_id;
  customer_id = p.customer_id;
  period_start = p.period_start;
  period_end = p.period_end;
  status = JobStatus.pending;
  s3_key = [];
  s3_provider = [];
  sha256 = [];
  chain_hash = [];
  byte_count = 0;
  log_count = 0;
  attempts = 0;
  err_msg = [];
  verified_at = none;
  created_at = 0;
  updated_at = 0;
}

-- The tables that a statement on the jobs leaves alone.
abbrev pub on_jobs : (LogJobs.Table → LogJobs.Table) → Db → Db
on_jobs f d = record d { log_jobs = f d.log_jobs }

abbrev pub failed_job : LogJob → GoError → LogJob
failed_job job e = record job {
  attempts = suc job.attempts;
  status = JobStatus.failed;
  err_msg = error_text e;
}

abbrev pub is_unlimited : ℤ → Bool
is_unlimited (pos _) = false
is_unlimited (negsuc n) = ltb n 1

-- usage >= quota
abbrev pub over_quota : ℕ → ℤ → Bool
over_quota usage quota = leb_ℤ quota (pos usage)

abbrev pub wait_time : PlanType → ℕ
wait_time PlanType.enterprise = 100 * millisecond
wait_time PlanType.business = 500 * millisecond
wait_time _ = 2 * second

-- The hash that the new link is chained to.
abbrev pub previous_hash : Outcome LogJob → Bytes
previous_hash (err _) = genesis_hash
previous_hash (ok job) = job.chain_hash

abbrev pub lift_kms : Kms.Result Bytes → Outcome Bytes
lift_kms (Kms.ok t) = ok t
lift_kms (Kms.err _) = err (text (codes "kms"))

unfoldable pub lift : Outcome Bytes → Exec Bytes
lift r w = (r, w)

module _ (env : Env) where
  -- created_at and updated_at of the job, which RETURNING gives back, are of no use later on.
  abbrev pub create_job : LogJob → Exec (Unit {0})
  create_job job = db_exec env (λ d now. on_jobs (LogJobs.create now job) d)

  abbrev pub update_job : LogJob → Exec (Unit {0})
  update_job job = db_exec env (λ d now. on_jobs (LogJobs.update now job) d)

  -- failJob: a text with "HTTP 403" is answered by success, so that asynq does not retry.
  unfoldable pub fail_job : LogJob → GoError → Exec (Unit {0})
  fail_job job e =
      ignoring (update_job (failed_job job e))
        (if contains (error_text e) (codes "HTTP 403") then pure tt else raise e)

  module _ (inputs : Inputs) (payload : LogPullPayload) (job : LogJob) where
    abbrev pub upload_of : Customer → Zone → Bytes → Upload
    upload_of customer zone logs = record {
      customer_id = customer.id;
      zone_id = zone.id;
      from = payload.period_start;
      to = payload.period_end;
      raw = logs;
      log_type = codes "logs";
    }

    abbrev pub sealed_job : BlobMetadata × Bytes → Bytes → LogJob
    sealed_job (meta, provider) chain = record job {
      status = JobStatus.done;
      s3_key = meta.key;
      s3_provider = provider;
      sha256 = meta.sha256;
      chain_hash = chain;
      byte_count = meta.size;
      log_count = meta.lines;
    }

    -- Steps 7 and 8; a verify task that cannot be enqueued is only logged.
    pub finish : Bytes → BlobMetadata × Bytes → Exec (Unit {0})
    finish chain stored =
        on_error (in_context (codes "update job") (update_job (sealed_job stored chain))) raise
          λ _. ignoring (enqueue env (new_log_verify_task job.id)) (pure tt)

    -- The attempt at reading the last job, whose error the program takes for no job.
    pub last_hash : Zone → Exec Bytes
    last_hash zone w =
        let (r, w') = db_query_row env (λ d _. LogJobs.get_last_job zone.id d.log_jobs) w in
        (ok (previous_hash r), w')

    -- Steps 5 and 6: the chain hash over the raw logs, and the upload.
    pub seal : Customer → Zone → Bytes → Exec (Unit {0})
    unfolding finish
    seal customer zone logs = on_error (last_hash zone) raise λ prev.
        let chain =
          chain_hash env.codec.sha256 prev (encode (env.codec.sha256 logs))
            (env.codec.uuid_text job.id) in
        on_error (put_logs env (upload_of customer zone logs))
          (λ e. fail_job job (wrap (codes "s3 upload") e)) (finish chain)

    abbrev pub empty_job : LogJob
    empty_job = record job { status = JobStatus.done; log_count = 0; byte_count = 0 }

    pub store_logs : Customer → Zone → Bytes → Exec (Unit {0})
    unfolding seal
    store_logs customer zone logs =
        if is_empty logs then update_job empty_job else seal customer zone logs

    -- A rate limit goes back to asynq and leaves the job as it is.
    pub pull_failed : GoError → Exec (Unit {0})
    pull_failed e = elim (as_rate_limit e) [
      | some d ↦ raise (wrap (codes "pull logs") (rate_limit_error d))
      | none ↦ fail_job job (wrap (codes "pull logs") e)
    ]

    pub ask_cloudflare : Zone → Bytes → Exec Bytes
    ask_cloudflare zone api_key w = (
      pull_logs env.codec.gunzip inputs.cloudflare zone.zone_id api_key payload.period_start
          payload.period_end w.now,
      w,
    )

    -- Steps 4 and 5: the wait, then the request.
    pub fetch : Customer → Zone → Bytes → Exec (Unit {0})
    unfolding pull_failed store_logs
    fetch customer zone api_key = on_error (sleep (wait_time zone.plan)) raise λ _.
        if inputs.cancelled
        then raise (text (codes "context canceled"))
        else on_error (ask_cloudflare zone api_key) pull_failed (store_logs customer zone)

    pub decrypt_key : Customer → Zone → Exec (Unit {0})
    unfolding fetch
    decrypt_key customer zone =
        on_error (lift (lift_kms (inputs.decrypt customer.cf_api_key_enc)))
          (λ e. fail_job job (wrap (codes "decrypt cf key") e)) (fetch customer zone)

    pub refuse : Customer → ℕ → Exec (Unit {0})
    refuse customer usage =
        ignoring (send_alert (quota_exceeded customer.id usage customer.quota_bytes))
          (fail_job job (text (codes "quota exceeded")))

    -- Step 2a.
    pub check_quota : Customer → Zone → Exec (Unit {0})
    unfolding refuse decrypt_key
    check_quota customer zone =
        if is_unlimited customer.quota_bytes
        then decrypt_key customer zone
        else on_error (db_query env (λ d now. LogJobs.get_current_usage now customer.id d.log_jobs))
            (λ e. fail_job job (wrap (codes "check quota") e))
            λ usage.
              if over_quota usage customer.quota_bytes
              then refuse customer usage
              else decrypt_key customer zone

    -- Step 2.
    pub load : Exec (Unit {0})
    unfolding check_quota
    load =
        on_error (db_query_row env (λ d _. Customers.get_by_id payload.customer_id d.customers))
          (λ e. fail_job job (wrap (codes "get customer") e))
          λ customer.
            on_error (db_query_row env (λ d _. Zones.get_by_id payload.zone_id d.zones))
              (λ e. fail_job job (wrap (codes "get zone") e)) (check_quota customer)

  -- The world after the INSERT of the job.
  abbrev pub created_world : LogJob → World → World
  created_world job w = record w {
    db = on_jobs (LogJobs.create w.now job) w.db;
    db_calls = w.db_calls + 1;
  }

  -- ProcessTask
  pub process_task : Inputs → LogPullPayload → Exec (Unit {0})
  unfolding load fail_job
  process_task inputs payload =
      let job = new_job inputs.new_id payload in
      on_error (in_context (codes "create job") (create_job job)) raise λ _. load inputs payload job

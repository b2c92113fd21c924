-- ===== src/Worker/Security.antt =====
-- SecurityEventsProcessor of internal/worker/security.go: ProcessTask and failJob, from the parsed
-- payload. Its stages are those of the pull, without the wait and the verification.
pub mod Frame
use rainlogs.Prelude.{
  ℕ, ◌||◌, Bool, true, false, Option, none, some, List, [], ◌∷◌, ◌++◌, leb, length, if◌then◌else◌,
  is_empty, Bytes, codes,
}
use rainlogs.Models.{LogJob, Customer, Zone, JobStatus}
use rainlogs.Hex.{encode}
use rainlogs.Worm.{chain_hash}
use rainlogs.GoError.{GoError, text, wrap}
use rainlogs.Kms
use rainlogs.Queue.{LogPullPayload}
use rainlogs.Db.LogJobs
use rainlogs.Db.Customers
use rainlogs.Db.Zones
use rainlogs.Storage.{BlobMetadata, Upload}
use rainlogs.Cloudflare.Graphql.{Event, Service, get_security_events}
use rainlogs.Exec.{
  World, Env, Outcome, ok, err, Exec, pure, raise, in_context, on_error, ignoring, db_query,
  db_query_row, put_logs, send_alert, quota_exceeded, events_limit, security_failed,
}
use rainlogs.Worker.Pull.{
  new_job, failed_job, is_unlimited, over_quota, previous_hash, lift_kms, lift, create_job,
  update_job,
}

-- `limiter`: the error of the rate limiter's Wait, or `none` where it lets the call through or there
-- is no limiter.
pub record Inputs : Type 0 where
  pub new_id : ℕ
  pub decrypt : Bytes → Kms.Result Bytes
  pub limiter : Option GoError
  pub cloudflare : Service

-- An event that json.Marshal refuses is passed over.
unfoldable pub to_ndjson : List Event → Bytes
to_ndjson [] = []
to_ndjson (none ∷ events) = to_ndjson events
to_ndjson (some line ∷ events) = line ++ (b'\n' ∷ to_ndjson events)

abbrev pub lift_limiter : Option GoError → Exec (Unit {0})
lift_limiter none w = (ok tt, w)
lift_limiter (some e) w = (err e, w)

module _ (env : Env) where
  -- failJob: the alert, the row, and the error back to asynq.
  unfoldable pub fail_job : LogJob → GoError → Exec (Unit {0})
  fail_job job e =
      ignoring (send_alert (security_failed job.zone_id e))
        (ignoring (update_job env (failed_job job e)) (raise e))

  module _ (inputs : Inputs) (payload : LogPullPayload) (job : LogJob) where
    abbrev pub upload_of : Customer → Zone → Bytes → Upload
    upload_of customer zone buffer = record {
      customer_id = customer.id;
      zone_id = zone.id;
      from = payload.period_start;
      to = payload.period_end;
      raw = buffer;
      log_type = codes "security";
    }

    abbrev pub sealed_job : BlobMetadata × Bytes → Bytes → LogJob
    sealed_job (meta, provider) chain = record job {
      status = JobStatus.done;
      s3_key = meta.key;
      s3_provider = provider;
      sha256 = meta.sha256;
      chain_hash = chain;
      byte_count = meta.size;
      log_count = meta.lines;
    }

    -- Step 9.
    pub finish : Bytes → BlobMetadata × Bytes → Exec (Unit {0})
    finish chain stored = in_context (codes "update job") (update_job env (sealed_job stored chain))

    pub last_hash : Zone → Exec Bytes
    last_hash zone w =
        let (r, w') = db_query_row env (λ d _. LogJobs.get_last_job zone.id d.log_jobs) w in
        (ok (previous_hash r), w')

    -- Steps 7 and 8.
    pub seal : Customer → Zone → Bytes → Exec (Unit {0})
    unfolding finish
    seal customer zone buffer = on_error (last_hash zone) raise λ prev.
        let chain =
          chain_hash env.codec.sha256 prev (encode (env.codec.sha256 buffer))
            (env.codec.uuid_text job.id) in
        on_error (put_logs env (upload_of customer zone buffer))
          (λ e. fail_job job (wrap (codes "s3 upload") e)) (finish chain)

    abbrev pub empty_job : LogJob
    empty_job = record job { status = JobStatus.done; log_count = 0; byte_count = 0 }

    abbrev pub no_events : List Event → Bool
    no_events [] = true
    no_events (_ ∷ _) = false

    -- From the events on, after the alert.
    pub store_events : Customer → Zone → List Event → Exec (Unit {0})
    unfolding seal
    store_events customer zone events =
        if no_events events then update_job env empty_job else seal customer zone (to_ndjson events)

    -- The query returns 1000 events at most: with that many, some may be missing.
    pub check_limit : Customer → Zone → List Event → Exec (Unit {0})
    unfolding store_events
    check_limit customer zone events =
        if leb 1000 (length events)
        then ignoring (send_alert (events_limit zone.id)) (store_events customer zone events)
        else store_events customer zone events

    pub ask_cloudflare : Zone → Bytes → Exec (List Event)
    ask_cloudflare zone cf_key w = (
      get_security_events inputs.cloudflare cf_key zone.zone_id payload.period_start
          payload.period_end,
      w,
    )

    -- Steps 4 and 5.
    pub fetch : Customer → Zone → Bytes → Exec (Unit {0})
    unfolding check_limit
    fetch customer zone cf_key =
        on_error (lift_limiter inputs.limiter) (λ e. fail_job job (wrap (codes "rate limiter") e))
          λ _.
            on_error (ask_cloudflare zone cf_key)
              (λ e. fail_job job (wrap (codes "fetch security events") e))
              (check_limit customer zone)

    -- Step 3.
    pub decrypt_key : Customer → Zone → Exec (Unit {0})
    unfolding fetch
    decrypt_key customer zone =
        on_error (lift (lift_kms (inputs.decrypt customer.cf_api_key_enc)))
          (λ e. fail_job job (wrap (codes "decrypt cf key") e)) (fetch customer zone)

    pub refuse : Customer → ℕ → Exec (Unit {0})
    refuse customer usage =
        ignoring (send_alert (quota_exceeded customer.id usage customer.quota_bytes))
          (fail_job job (text (codes "quota exceeded")))

    -- Step 2a.
    pub check_quota : Customer → Zone → Exec (Unit {0})
    unfolding refuse decrypt_key
    check_quota customer zone =
        if is_unlimited customer.quota_bytes
        then decrypt_key customer zone
        else on_error (db_query env (λ d now. LogJobs.get_current_usage now customer.id d.log_jobs))
            (λ e. fail_job job (wrap (codes "check quota") e))
            λ usage.
              if over_quota usage customer.quota_bytes
              then refuse customer usage
              else decrypt_key customer zone

    -- Step 2.
    pub load : Exec (Unit {0})
    unfolding check_quota
    load =
        on_error (db_query_row env (λ d _. Customers.get_by_id payload.customer_id d.customers))
          (λ e. fail_job job (wrap (codes "get customer") e))
          λ customer.
            on_error (db_query_row env (λ d _. Zones.get_by_id payload.zone_id d.zones))
              (λ e. fail_job job (wrap (codes "get zone") e)) (check_quota customer)

  -- ProcessTask
  pub process_task : Inputs → LogPullPayload → Exec (Unit {0})
  unfolding load
  process_task inputs payload =
      let job = new_job inputs.new_id payload in
      on_error (in_context (codes "create job") (create_job env job)) raise
        λ _. load inputs payload job

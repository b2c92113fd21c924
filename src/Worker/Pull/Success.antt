-- ===== src/Worker/Pull/Success.antt =====
-- What a pull that gets through leaves behind: the row of its job and the stored blob.
use rainlogs.Prelude.{
  ℕ, ◌+◌, ◌≡◌, refl, ap, ◌∙◌, ◌⊎◌, inl, inr, arith, true, false, Option, none, some, List, Bytes,
  is_empty, Bool-cases, Option-cases,
}
use rainlogs.Models.{LogJob, Customer, Zone}
use rainlogs.Hex.{encode}
use rainlogs.Kms
use rainlogs.Worm.{chain_hash}
use rainlogs.Storage
use rainlogs.Storage.{BlobMetadata, Upload, Backend, prepare_blob}
use rainlogs.Db.LogJobs
use rainlogs.Db.LogJobs.Rows.{
  get_by_id-create, get_by_id-update, get_current_usage-create, get_last_job-create,
}
use rainlogs.Db.LogJobs.Newest.{IsNewest, get_last_job-IsNewest}
use rainlogs.Db.Customers
use rainlogs.Db.Zones
use rainlogs.Queue.{LogPullPayload}
use rainlogs.Cloudflare.Logpull.{pull_logs}
use rainlogs.Exec.{World, Env, Db, ok}
use rainlogs.Exec.Steps.{
  if_no, if_yes, sleep_done, on_ok, context_ok, exec_runs, query_runs, row_found, row_missing,
  put_done, counted,
}
use rainlogs.Worker.Pull.Frame.{process_task_created}
use rainlogs.Worker.Pull.{
  Inputs, new_job, on_jobs, sealed_job, upload_of, wait_time, is_unlimited, over_quota, lift,
  lift_kms, last_hash, ask_cloudflare, finish, seal, store_logs, fetch, decrypt_key, check_quota,
  load, process_task, created_world,
}
use rainlogs.Worker.Pull.Stored.{zone_head, stored_row, upload_for, Ends, via, enqueue-Ends}

module _ (env : Env) (runs : (n : ℕ) → env.db_fails n ≡ false) (inputs : Inputs)
    (payload : LogPullPayload) (job : LogJob) where
  abbrev pub sealed_db : BlobMetadata × Bytes → Bytes → World → Db
  sealed_db stored chain w =
      on_jobs (LogJobs.update w.now (sealed_job env inputs payload job stored chain)) w.db

  finish-Ends :
      (chain : Bytes) (stored : BlobMetadata × Bytes) (w : World)
      → Ends (finish env inputs payload job chain stored w) (sealed_db stored chain w) w.backends
  unfolding finish
  finish-Ends chain stored w =
      via _ _ (on_ok _ _ _ w (context_ok _ _ _ (exec_runs env _ w (runs w.db_calls))))
        (enqueue-Ends env _ _)

  abbrev chain_of : Bytes → Bytes → Bytes
  chain_of prev logs =
      chain_hash env.codec.sha256 prev (encode (env.codec.sha256 logs)) (env.codec.uuid_text job.id)

  last_hash_lem :
      (z : Zone) (w : World)
      → last_hash env inputs payload job z w
        ≡ (ok (zone_head (LogJobs.get_last_job z.id w.db.log_jobs)), counted w)
  unfolding last_hash
  last_hash_lem z w = elim (Option-cases (LogJobs.get_last_job z.id w.db.log_jobs)) [
    | inl e ↦
        rw (row_missing env (λ d _. LogJobs.get_last_job z.id d.log_jobs) w (runs w.db_calls) e, e)
          refl
    | inr (j, e) ↦
        rw (row_found env (λ d _. LogJobs.get_last_job z.id d.log_jobs) w (runs w.db_calls) e, e)
          refl
  ]

  module _ (c : Customer) (z : Zone) (logs label : Bytes) (cs : List Backend) where
    abbrev meta : BlobMetadata
    meta = prepare_blob env.codec (upload_of env inputs payload job c z logs)

    -- The database at the end, from the world in which the logs came.
    abbrev pub final_db : World → Db
    final_db w =
        sealed_db (meta, label)
          (chain_of (zone_head (LogJobs.get_last_job z.id w.db.log_jobs)) logs) w

    seal-Ends :
        (w : World)
        → Storage.put_logs env.codec (upload_of env inputs payload job c z logs) w.backends
          ≡ some (label, cs)
        → Ends (seal env inputs payload job c z logs w) (final_db w) cs
    unfolding seal
    seal-Ends w put =
        via _ _ (on_ok _ _ _ w (last_hash_lem z w) ∙ on_ok _ _ _ _ (put_done env _ (counted w) put))
          (finish-Ends _ _ _)

    module _ (some_logs : is_empty logs ≡ false) where
      store_logs-Ends :
          (w : World)
          → Storage.put_logs env.codec (upload_of env inputs payload job c z logs) w.backends
            ≡ some (label, cs)
          → Ends (store_logs env inputs payload job c z logs w) (final_db w) cs
      unfolding store_logs
      store_logs-Ends w put = rw some_logs (seal-Ends w put)

      module _ (key : Bytes) (in_time : inputs.cancelled ≡ false) where
        abbrev waited : World → World
        waited w = record w { now = w.now + wait_time z.plan }

        ask_cloudflare_lem :
            (w : World)
            → pull_logs env.codec.gunzip inputs.cloudflare z.zone_id key payload.period_start
                payload.period_end w.now
              ≡ ok logs
            → ask_cloudflare env inputs payload job z key w ≡ (ok logs, w)
        unfolding ask_cloudflare
        ask_cloudflare_lem w e = rw e

        fetch-Ends :
            (w : World)
            → pull_logs env.codec.gunzip inputs.cloudflare z.zone_id key payload.period_start
                payload.period_end
                (waited w).now
              ≡ ok logs
            → Storage.put_logs env.codec (upload_of env inputs payload job c z logs) w.backends
              ≡ some (label, cs)
            → Ends (fetch env inputs payload job c z key w) (final_db (waited w)) cs
        unfolding fetch
        fetch-Ends w pulled put =
            via _ _
              (on_ok _ _ _ w (sleep_done (wait_time z.plan) w)
                ∙ if_no inputs.cancelled _ _ (waited w) in_time
                ∙ on_ok _ _ _ _ (ask_cloudflare_lem (waited w) pulled))
              (store_logs-Ends (waited w) put)

        decrypt_key-Ends :
            (w : World)
            → inputs.decrypt c.cf_api_key_enc ≡ Kms.ok key
            → pull_logs env.codec.gunzip inputs.cloudflare z.zone_id key payload.period_start
                payload.period_end
                (waited w).now
              ≡ ok logs
            → Storage.put_logs env.codec (upload_of env inputs payload job c z logs) w.backends
              ≡ some (label, cs)
            → Ends (decrypt_key env inputs payload job c z w) (final_db (waited w)) cs
        unfolding decrypt_key lift
        decrypt_key-Ends w opens pulled put =
            via _ _ (on_ok _ _ _ w (ap (λ r. (lift_kms r, w)) opens)) (fetch-Ends w pulled put)

        check_quota-Ends :
            (w : World)
            → (is_unlimited c.quota_bytes ≡ true)
              ⊎ (over_quota (LogJobs.get_current_usage w.now c.id w.db.log_jobs) c.quota_bytes
                  ≡ false)
            → inputs.decrypt c.cf_api_key_enc ≡ Kms.ok key
            → pull_logs env.codec.gunzip inputs.cloudflare z.zone_id key payload.period_start
                payload.period_end
                (waited w).now
              ≡ ok logs
            → Storage.put_logs env.codec (upload_of env inputs payload job c z logs) w.backends
              ≡ some (label, cs)
            → Ends (check_quota env inputs payload job c z w) (final_db (waited w)) cs
        unfolding check_quota
        check_quota-Ends w allowed opens pulled put =
            elim (Bool-cases (is_unlimited c.quota_bytes)) [
              | inl free ↦ via _ _ (if_yes _ _ _ w free) (decrypt_key-Ends w opens pulled put)
              | inr capped ↦ elim allowed [
                | inl free ↦ ground (arith, free, capped)
                | inr below ↦
                    via _ _
                      (if_no _ _ _ w capped
                        ∙ on_ok _ _ _ w (query_runs env _ w (runs w.db_calls))
                        ∙ if_no _ _ _ (counted w) below)
                      (decrypt_key-Ends (counted w) opens pulled put)
              ]
            ]

        load-Ends :
            (w : World)
            → Customers.get_by_id payload.customer_id w.db.customers ≡ some c
            → Zones.get_by_id payload.zone_id w.db.zones ≡ some z
            → (is_unlimited c.quota_bytes ≡ true)
              ⊎ (over_quota (LogJobs.get_current_usage w.now c.id w.db.log_jobs) c.quota_bytes
                  ≡ false)
            → inputs.decrypt c.cf_api_key_enc ≡ Kms.ok key
            → pull_logs env.codec.gunzip inputs.cloudflare z.zone_id key payload.period_start
                payload.period_end
                (waited w).now
              ≡ ok logs
            → Storage.put_logs env.codec (upload_of env inputs payload job c z logs) w.backends
              ≡ some (label, cs)
            → Ends (load env inputs payload job w) (final_db (waited w)) cs
        unfolding load
        load-Ends w customer zone allowed opens pulled put =
            via _ _
              (on_ok _ _ _ w (row_found env _ w (runs w.db_calls) customer)
                ∙ on_ok _ _ _ _ (row_found env _ (counted w) (runs _) zone))
              (check_quota-Ends (counted (counted w)) allowed opens pulled put)

-- A pull that the database, Cloudflare and a provider serve, whose customer is below the quota,
-- succeeds. Its new row is done, carries the metadata of the compressed blob of the payload's period, for the customer
-- and the zone, and the label of the
-- provider that took it, and its chain hash is over the chain hash of the zone's newest job that was
-- done before (the genesis hash where there was none), the SHA-256 of the raw logs and the job's
-- own identifier.
pub process_task-chains :
    (env : Env) (inputs : Inputs) (payload : LogPullPayload) (w : World) (c : Customer) (z : Zone)
    (key logs label : Bytes) (cs : List Backend)
    → ((n : ℕ) → env.db_fails n ≡ false)
    → LogJobs.get_by_id inputs.new_id w.db.log_jobs ≡ none
    → Customers.get_by_id payload.customer_id w.db.customers ≡ some c
    → Zones.get_by_id payload.zone_id w.db.zones ≡ some z
    → (is_unlimited c.quota_bytes ≡ true)
      ⊎ (over_quota (LogJobs.get_current_usage w.now c.id w.db.log_jobs) c.quota_bytes ≡ false)
    → inputs.decrypt c.cf_api_key_enc ≡ Kms.ok key
    → inputs.cancelled ≡ false
    → pull_logs env.codec.gunzip inputs.cloudflare z.zone_id key payload.period_start
        payload.period_end
        (w.now + wait_time z.plan)
      ≡ ok logs
    → is_empty logs ≡ false
    → Storage.put_logs env.codec (upload_for payload c z logs) w.backends ≡ some (label, cs)
    → let (r, w') = process_task env inputs payload w in
      (r ≡ ok tt)
      × (w'.backends ≡ cs)
      × (last : Option LogJob) × IsNewest z.id w.db.log_jobs last
      × (LogJobs.get_by_id inputs.new_id w'.db.log_jobs
          ≡ some (
              stored_row env inputs payload w.now
                (w.now + wait_time z.plan)
                (prepare_blob env.codec (upload_for payload c z logs))
                label
                (zone_head last)
                logs))
process_task-chains env inputs payload w c z key logs label cs runs fresh customer zone allowed
      opens in_time pulled some_logs put =
    let job = new_job inputs.new_id payload in
    let created = created_world env job w in
    let (result, db, backends) =
      via _ _ (process_task_created env inputs payload w (runs w.db_calls)) (
        load-Ends env runs inputs payload job c z logs label cs some_logs key in_time created
          customer zone (rw (get_current_usage-create w.now c.id job w.db.log_jobs refl) allowed)
          opens pulled put) in
    (
      result,
      backends,
      LogJobs.get_last_job z.id w.db.log_jobs,
      get_last_job-IsNewest z.id w.db.log_jobs,
      ap (λ d. LogJobs.get_by_id inputs.new_id d.log_jobs) db
          ∙ get_by_id-update _ _ _ (get_by_id-create w.now job w.db.log_jobs fresh)
          ∙ rw (get_last_job-create w.now z.id job w.db.log_jobs refl) refl,
    )

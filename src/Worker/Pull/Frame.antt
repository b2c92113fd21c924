-- ===== src/Worker/Pull/Frame.antt =====
-- What a pull changes in the database, on every branch and whatever fails.
use rainlogs.Prelude.{
  ℕ, ◌+◌, ◌≡◌, refl, ap, true, false, ◌∙◌, ◌⊎◌, inl, inr, length, Bytes, Bool-cases, Option-cases,
}
use rainlogs.Models.{LogJob, Customer, Zone}
use rainlogs.GoError.{GoError, as_rate_limit}
use rainlogs.Storage.{BlobMetadata}
use rainlogs.Db.LogJobs
use rainlogs.Db.LogJobs.Frame.{others, others-create, others-update, length-create, length-update}
use rainlogs.Queue.{LogPullPayload}
use rainlogs.Exec.{World, Env, Db, Outcome, raise}
use rainlogs.Exec.Keeps.{
  Keeps, keeping, db_query_row-Keeps, db_exec-Keeps, on_error-Keeps, raise-Keeps, put_logs-Keeps,
  sleep-Keeps, if-Keeps,
}
use rainlogs.Exec.Steps.{on_ok, on_err, context_ok, context_err, exec_fails, exec_runs, counted}
use rainlogs.Worker.Pull.{
  lift, last_hash, ask_cloudflare, Inputs, new_job, on_jobs, fail_job, update_job, finish, seal,
  store_logs, pull_failed, fetch, decrypt_key, refuse, check_quota, load, process_task,
  created_world,
}

-- Only the rows of one job differ.
pub record SameBut (id : ℕ) (d₀ d : Db) : Type 0 where
  pub jobs : others id d.log_jobs ≡ others id d₀.log_jobs
  pub customers : d.customers ≡ d₀.customers
  pub api_keys : d.api_keys ≡ d₀.api_keys
  pub zones : d.zones ≡ d₀.zones
  pub log_exports : d.log_exports ≡ d₀.log_exports
  pub audit_events : d.audit_events ≡ d₀.audit_events

-- And there are as many rows.
pub record Framed (id rows : ℕ) (d₀ d : Db) : Type 0 where
  pub same : SameBut id d₀ d
  pub open same use *
  pub size : length d.log_jobs ≡ rows

update-Framed :
    {id rows : ℕ} {d₀ d : Db} (now : ℕ) (j : LogJob)
    → j.id ≡ id
    → Framed id rows d₀ d
    → Framed id rows d₀ (on_jobs (LogJobs.update now j) d)
update-Framed {d} now j e f = record {
  same = record {
    jobs = rw (← e) (others-update now j d.log_jobs) ∙ f.jobs;
    customers = f.customers;
    api_keys = f.api_keys;
    zones = f.zones;
    log_exports = f.log_exports;
    audit_events = f.audit_events;
  };
  size = length-update now j d.log_jobs ∙ f.size;
}

module _ (env : Env) {rows : ℕ} {d₀ : Db} (job : LogJob) where
  pub update_job-Framed :
      (j : LogJob) → j.id ≡ job.id → Keeps (Framed job.id rows d₀) (update_job env j)
  update_job-Framed j e = db_exec-Keeps env _ λ d now f. update-Framed now j e f

  fail_job-Framed : (e : GoError) → Keeps (Framed job.id rows d₀) (fail_job env job e)
  unfolding fail_job
  fail_job-Framed e = search (keeping, update_job-Framed _ refl)

  module _ (inputs : Inputs) (payload : LogPullPayload) where
    finish-Framed :
        (chain : Bytes) (stored : BlobMetadata × Bytes)
        → Keeps (Framed job.id rows d₀) (finish env inputs payload job chain stored)
    unfolding finish
    finish-Framed chain stored = search (keeping, update_job-Framed _ refl)

    last_hash-Framed :
        (z : Zone) → Keeps (Framed job.id rows d₀) (last_hash env inputs payload job z)
    unfolding last_hash
    last_hash-Framed z = record {
      at = (db_query_row-Keeps env (λ d _. LogJobs.get_last_job z.id d.log_jobs)).at;
    }

    ask_cloudflare-Framed :
        (z : Zone) (key : Bytes)
        → Keeps (Framed job.id rows d₀) (ask_cloudflare env inputs payload job z key)
    unfolding ask_cloudflare
    ask_cloudflare-Framed z key = record { at = λ w h. h }

    lift-Framed : (r : Outcome Bytes) → Keeps (Framed job.id rows d₀) (lift r)
    unfolding lift
    lift-Framed r = record { at = λ w h. h }

    seal-Framed :
        (c : Customer) (z : Zone) (logs : Bytes)
        → Keeps (Framed job.id rows d₀) (seal env inputs payload job c z logs)
    unfolding seal
    seal-Framed c z logs = on_error-Keeps _ _ _ (last_hash-Framed z) raise-Keeps λ prev.
        on_error-Keeps _ _ _ (put_logs-Keeps env _) (λ e. fail_job-Framed _) (finish-Framed _)

    store_logs-Framed :
        (c : Customer) (z : Zone) (logs : Bytes)
        → Keeps (Framed job.id rows d₀) (store_logs env inputs payload job c z logs)
    unfolding store_logs
    store_logs-Framed c z logs = search (keeping, update_job-Framed _ refl, seal-Framed)

    pull_failed-Framed :
        (e : GoError) → Keeps (Framed job.id rows d₀) (pull_failed env inputs payload job e)
    unfolding pull_failed
    pull_failed-Framed e = elim (Option-cases (as_rate_limit e)) [
      | inl other ↦ rw (other, pull_failed) (fail_job-Framed _)
      | inr (d, limited) ↦ rw (limited, pull_failed) (raise-Keeps _)
    ]

    fetch-Framed :
        (c : Customer) (z : Zone) (key : Bytes)
        → Keeps (Framed job.id rows d₀) (fetch env inputs payload job c z key)
    unfolding fetch
    fetch-Framed c z key = on_error-Keeps _ _ _ (sleep-Keeps _) raise-Keeps λ _.
        if-Keeps _ _ _ (raise-Keeps _) (
          on_error-Keeps _ _ _ (ask_cloudflare-Framed z key) pull_failed-Framed
            (store_logs-Framed c z))

    decrypt_key-Framed :
        (c : Customer) (z : Zone)
        → Keeps (Framed job.id rows d₀) (decrypt_key env inputs payload job c z)
    unfolding decrypt_key
    decrypt_key-Framed c z = search (keeping, lift-Framed, fail_job-Framed, fetch-Framed)

    check_quota-Framed :
        (c : Customer) (z : Zone)
        → Keeps (Framed job.id rows d₀) (check_quota env inputs payload job c z)
    unfolding check_quota refuse
    check_quota-Framed c z = search (keeping, fail_job-Framed, decrypt_key-Framed)

    load-Framed : Keeps (Framed job.id rows d₀) (load env inputs payload job)
    unfolding load
    load-Framed = search (keeping, fail_job-Framed, check_quota-Framed)

pub process_task_refused :
    (env : Env) (inputs : Inputs) (payload : LogPullPayload) (w : World)
    → env.db_fails w.db_calls ≡ true
    → (process_task env inputs payload w).1 ≡ counted w
unfolding process_task raise
process_task_refused env inputs payload w h =
    ap (λ r. r.1) (on_err _ _ _ _ (context_err _ _ _ (exec_fails env _ w h)))

pub process_task_created :
    (env : Env) (inputs : Inputs) (payload : LogPullPayload) (w : World)
    → env.db_fails w.db_calls ≡ false
    → process_task env inputs payload w
      ≡ load env inputs payload
          (new_job inputs.new_id payload)
          (created_world env (new_job inputs.new_id payload) w)
unfolding process_task
process_task_created env inputs payload w h = on_ok _ _ _ _ (context_ok _ _ _ (exec_runs env _ w h))

pub created_world-Framed :
    (env : Env) (job : LogJob) (w : World)
    → Framed job.id (length w.db.log_jobs + 1) w.db (created_world env job w).db
created_world-Framed env job w = record {
  same = record {
    jobs = others-create w.now job w.db.log_jobs;
    customers = refl;
    api_keys = refl;
    zones = refl;
    log_exports = refl;
    audit_events = refl;
  };
  size = length-create w.now job w.db.log_jobs;
}

pub SameBut-refl : (id : ℕ) (d : Db) → SameBut id d d
SameBut-refl id d = record {
  jobs = refl;
  customers = refl;
  api_keys = refl;
  zones = refl;
  log_exports = refl;
  audit_events = refl;
}

-- A pull adds at most one row, that of its own job, and changes no other row of any table; that
-- holds on every branch, and whichever statements of the database and calls of Redis fail.
pub process_task-SameBut :
    (env : Env) (inputs : Inputs) (payload : LogPullPayload) (w : World)
    → let d = (process_task env inputs payload w).1.db in
      SameBut inputs.new_id w.db d
      × ((length d.log_jobs ≡ length w.db.log_jobs)
          ⊎ (length d.log_jobs ≡ length w.db.log_jobs + 1))
process_task-SameBut env inputs payload w = elim (Bool-cases (env.db_fails w.db_calls)) [
  | inl fails ↦ rw (process_task_refused env inputs payload w fails) (SameBut-refl _ _, inl refl)
  | inr runs ↦
      let job = new_job inputs.new_id payload in
      let framed =
        (load-Framed env job inputs payload).at (created_world env job w)
          (created_world-Framed env job w) in
      rw (process_task_created env inputs payload w runs) (framed.same, inr framed.size)
]

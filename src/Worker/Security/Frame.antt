-- ===== src/Worker/Security/Frame.antt =====
-- What a poll for security events changes in the database, on every branch and whatever fails.
use rainlogs.Prelude.{
  ℕ, ◌+◌, ◌≡◌, refl, ◌⊎◌, inl, inr, length, Bytes, Bool-cases, Option, none, some, List,
}
use rainlogs.Models.{LogJob, Customer, Zone}
use rainlogs.GoError.{GoError}
use rainlogs.Storage.{BlobMetadata}
use rainlogs.Db.LogJobs
use rainlogs.Queue.{LogPullPayload}
use rainlogs.Cloudflare.Graphql.{Event}
use rainlogs.Exec.{World, Env, Db, Outcome, raise}
use rainlogs.Exec.Keeps.{
  Keeps, keeping, db_query_row-Keeps, on_error-Keeps, raise-Keeps, put_logs-Keeps, if-Keeps,
  ignoring-Keeps, send_alert-Keeps,
}
use rainlogs.Exec.Steps.{on_ok, on_err, context_ok, context_err, exec_fails, exec_runs}
use rainlogs.Worker.Pull.{new_job, lift, created_world}
use rainlogs.Worker.Pull.Frame.{
  SameBut, Framed, SameBut-refl, created_world-Framed, update_job-Framed,
}
use rainlogs.Worker.Security.{
  Inputs, fail_job, finish, last_hash, seal, store_events, check_limit, lift_limiter,
  ask_cloudflare, fetch, decrypt_key, refuse, check_quota, load, process_task,
}

module _ (env : Env) {rows : ℕ} {d₀ : Db} (job : LogJob) where
  fail_job-Framed : (e : GoError) → Keeps (Framed job.id rows d₀) (fail_job env job e)
  unfolding fail_job
  fail_job-Framed e = search (keeping, update_job-Framed env job _ refl)

  lift_limiter-Framed : (r : Option GoError) → Keeps (Framed job.id rows d₀) (lift_limiter r)
  lift_limiter-Framed none = record { at = λ w h. h }
  lift_limiter-Framed (some e) = record { at = λ w h. h }

  lift-Framed : (r : Outcome Bytes) → Keeps (Framed job.id rows d₀) (lift r)
  unfolding lift
  lift-Framed r = record { at = λ w h. h }

  module _ (inputs : Inputs) (payload : LogPullPayload) where
    finish-Framed :
        (chain : Bytes) (stored : BlobMetadata × Bytes)
        → Keeps (Framed job.id rows d₀) (finish env inputs payload job chain stored)
    unfolding finish
    finish-Framed chain stored = search (keeping, update_job-Framed env job _ refl)

    last_hash-Framed :
        (z : Zone) → Keeps (Framed job.id rows d₀) (last_hash env inputs payload job z)
    unfolding last_hash
    last_hash-Framed z = record {
      at = (db_query_row-Keeps env (λ d _. LogJobs.get_last_job z.id d.log_jobs)).at;
    }

    seal-Framed :
        (c : Customer) (z : Zone) (buffer : Bytes)
        → Keeps (Framed job.id rows d₀) (seal env inputs payload job c z buffer)
    unfolding seal
    seal-Framed c z buffer = on_error-Keeps _ _ _ (last_hash-Framed z) raise-Keeps λ prev.
        on_error-Keeps _ _ _ (put_logs-Keeps env _) (λ e. fail_job-Framed _) (finish-Framed _)

    store_events-Framed :
        (c : Customer) (z : Zone) (events : List Event)
        → Keeps (Framed job.id rows d₀) (store_events env inputs payload job c z events)
    unfolding store_events
    store_events-Framed c z events =
        if-Keeps _ _ _ (update_job-Framed env job _ refl) (seal-Framed c z _)

    check_limit-Framed :
        (c : Customer) (z : Zone) (events : List Event)
        → Keeps (Framed job.id rows d₀) (check_limit env inputs payload job c z events)
    unfolding check_limit
    check_limit-Framed c z events =
        if-Keeps _ _ _ (ignoring-Keeps _ _ (send_alert-Keeps _) (store_events-Framed c z events))
          (store_events-Framed c z events)

    ask_cloudflare-Framed :
        (z : Zone) (key : Bytes)
        → Keeps (Framed job.id rows d₀) (ask_cloudflare env inputs payload job z key)
    unfolding ask_cloudflare
    ask_cloudflare-Framed z key = record { at = λ w h. h }

    fetch-Framed :
        (c : Customer) (z : Zone) (key : Bytes)
        → Keeps (Framed job.id rows d₀) (fetch env inputs payload job c z key)
    unfolding fetch
    fetch-Framed c z key =
        on_error-Keeps _ _ _ (lift_limiter-Framed inputs.limiter) (λ e. fail_job-Framed _)
          λ _.
            on_error-Keeps _ _ _ (ask_cloudflare-Framed z key) (λ e. fail_job-Framed _)
              (check_limit-Framed c z)

    decrypt_key-Framed :
        (c : Customer) (z : Zone)
        → Keeps (Framed job.id rows d₀) (decrypt_key env inputs payload job c z)
    unfolding decrypt_key
    decrypt_key-Framed c z = search (keeping, lift-Framed, fail_job-Framed, fetch-Framed)

    check_quota-Framed :
        (c : Customer) (z : Zone)
        → Keeps (Framed job.id rows d₀) (check_quota env inputs payload job c z)
    unfolding check_quota refuse
    check_quota-Framed c z = search (keeping, fail_job-Framed, decrypt_key-Framed)

    load-Framed : Keeps (Framed job.id rows d₀) (load env inputs payload job)
    unfolding load
    load-Framed = search (keeping, fail_job-Framed, check_quota-Framed)

-- A poll for security events adds at most one row, that of its own job, and changes no other row of any
-- table; that holds on every branch, and whichever statements of the database fail.
pub process_task-Framed :
    (env : Env) (inputs : Inputs) (payload : LogPullPayload) (w : World)
    → let d = (process_task env inputs payload w).1.db in
      SameBut inputs.new_id w.db d
      × ((length d.log_jobs ≡ length w.db.log_jobs)
          ⊎ (length d.log_jobs ≡ length w.db.log_jobs + 1))
unfolding process_task raise
process_task-Framed env inputs payload w = elim (Bool-cases (env.db_fails w.db_calls)) [
  | inl fails ↦
      rw (on_err _ _ _ w (context_err _ _ _ (exec_fails env _ w fails)))
        (SameBut-refl _ _, inl refl)
  | inr runs ↦
      let job = new_job inputs.new_id payload in
      let framed =
        (load-Framed env job inputs payload).at (created_world env job w)
          (created_world-Framed env job w) in
      rw (on_ok _ _ _ w (context_ok _ _ _ (exec_runs env _ w runs))) (framed.same, inr framed.size)
]

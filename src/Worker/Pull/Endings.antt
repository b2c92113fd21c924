-- ===== src/Worker/Pull/Endings.antt =====
-- How a pull ends while the database answers.
use rainlogs.Prelude.{
  ℕ, ◌≡◌, refl, subst, sym, inl, inr, false, none, List, [], ◌∷◌, is_empty, Bytes, Option-cases,
}
use rainlogs.Models.{LogJob, Customer, Zone}
use rainlogs.GoError.{GoError, as_rate_limit}
use rainlogs.Storage.{Backend}
use rainlogs.Db.LogJobs
use rainlogs.Db.LogJobs.Rows.{get_by_id-create}
use rainlogs.Queue.{LogPullPayload}
use rainlogs.Exec.{World, Env, ignoring, send_alert}
use rainlogs.Exec.Reads.{sleep-Reads, db_query-Reads, db_query_row-Reads}
use rainlogs.Worker.Pull.{
  Inputs, new_job, seal, store_logs, pull_failed, fetch, decrypt_key, refuse, check_quota, load,
  ask_cloudflare, process_task, created_world,
}
use rainlogs.Worker.Pull.Frame.{process_task_created}
use rainlogs.Worker.Pull.Leads.{
  Pulled, Ending, Leads, lift-Reads, raise-Leads, on_error-Leads, if-Leads, fail_job-Leads,
  empty-Leads, put-Leads, last_hash-Reads, ask_cloudflare-Reads,
}

module _ (env : Env) (runs : (n : ℕ) → env.db_fails n ≡ false) (inputs : Inputs)
    (payload : LogPullPayload) (bs : List Backend) (created : ℕ) where
  abbrev job : LogJob
  job = new_job inputs.new_id payload

  seal-Leads :
      (c : Customer) (z : Zone) (logs : Bytes)
      → Pulled env.codec inputs payload logs
      → is_empty logs ≡ false
      → Leads env runs inputs payload bs created (seal env inputs payload job c z logs)
  unfolding seal
  seal-Leads c z logs pulled held =
      (on_error-Leads env runs inputs payload bs created) _ _ _
        ((last_hash-Reads env runs inputs payload bs created) z)
        (raise-Leads env runs inputs payload bs created)
        λ prev _ _.
          (put-Leads env runs inputs payload bs created) _ _ _
            (record { pulled = pulled; held = held; from = refl; to = refl })
            λ e. (fail_job-Leads env runs inputs payload bs created) _

  store_logs-Leads :
      (c : Customer) (z : Zone) (logs : Bytes)
      → Pulled env.codec inputs payload logs
      → Leads env runs inputs payload bs created (store_logs env inputs payload job c z logs)
  unfolding store_logs
  store_logs-Leads c z [] pulled = (empty-Leads env runs inputs payload bs created) pulled
  store_logs-Leads c z (b ∷ logs) pulled = seal-Leads c z (b ∷ logs) pulled refl

  pull_failed-Leads :
      (e : GoError)
      → Leads env runs inputs payload bs created (pull_failed env inputs payload job e)
  unfolding pull_failed
  pull_failed-Leads e = elim (Option-cases (as_rate_limit e)) [
    | inl other ↦ rw (other, pull_failed) ((fail_job-Leads env runs inputs payload bs created) _)
    | inr (d, limited) ↦
        rw (limited, pull_failed) ((raise-Leads env runs inputs payload bs created) _)
  ]

  fetch-Leads :
      (c : Customer) (z : Zone) (key : Bytes)
      → Leads env runs inputs payload bs created (fetch env inputs payload job c z key)
  unfolding fetch ask_cloudflare
  fetch-Leads c z key =
      (on_error-Leads env runs inputs payload bs created) _ _ _ (sleep-Reads _)
        (raise-Leads env runs inputs payload bs created)
        λ _ _ _.
          (if-Leads env runs inputs payload bs created) _ _ _
            ((raise-Leads env runs inputs payload bs created) _)
            ((on_error-Leads env runs inputs payload bs created) _ _ _
              ((ask_cloudflare-Reads env runs inputs payload bs created) z key) pull_failed-Leads
              (λ logs w answered. store_logs-Leads c z logs (z.zone_id, key, w.now, answered)))

  decrypt_key-Leads :
      (c : Customer) (z : Zone)
      → Leads env runs inputs payload bs created (decrypt_key env inputs payload job c z)
  unfolding decrypt_key
  decrypt_key-Leads c z =
      (on_error-Leads env runs inputs payload bs created) _ _ _ (lift-Reads _)
        (λ e. (fail_job-Leads env runs inputs payload bs created) _)
        (λ key _ _. fetch-Leads c z key)

  refuse-Leads :
      (c : Customer) (usage : ℕ)
      → Leads env runs inputs payload bs created (refuse env inputs payload job c usage)
  unfolding refuse ignoring send_alert
  refuse-Leads c usage = record {
    at = λ w p. ((fail_job-Leads env runs inputs payload bs created) _).at _ p;
  }

  check_quota-Leads :
      (c : Customer) (z : Zone)
      → Leads env runs inputs payload bs created (check_quota env inputs payload job c z)
  unfolding check_quota
  check_quota-Leads c z =
      (if-Leads env runs inputs payload bs created) _ _ _ (decrypt_key-Leads c z) (
        (on_error-Leads env runs inputs payload bs created) _ _ _ (db_query-Reads env _)
          (λ e. (fail_job-Leads env runs inputs payload bs created) _)
          λ usage _ _.
            (if-Leads env runs inputs payload bs created) _ _ _ (refuse-Leads c usage)
              (decrypt_key-Leads c z))

  load-Leads : Leads env runs inputs payload bs created (load env inputs payload job)
  unfolding load
  load-Leads =
      (on_error-Leads env runs inputs payload bs created) _ _ _ (db_query_row-Reads env _)
        (λ e. (fail_job-Leads env runs inputs payload bs created) _)
        λ c _ _.
          (on_error-Leads env runs inputs payload bs created) _ _ _ (db_query_row-Reads env _)
            (λ e. (fail_job-Leads env runs inputs payload bs created) _)
            (λ z _ _. check_quota-Leads c z)

-- While the database answers, a pull under a new identifier ends in one of four ways: it stored the
-- logs of its period that Cloudflare answered, which are not empty, as a blob whose key, hash and provider are in the done row of its job; Cloudflare answered that there are none, its row is
-- done without key or chain hash, and no provider changed; it failed, its row says so with one
-- attempt and the text of the error, no provider changed, and asynq sees that error unless its text
-- has "HTTP 403"; or it left its row pending, with an error, and no provider changed.
pub process_task-Ending :
    (env : Env) (inputs : Inputs) (payload : LogPullPayload) (w : World)
    → ((n : ℕ) → env.db_fails n ≡ false)
    → LogJobs.get_by_id inputs.new_id w.db.log_jobs ≡ none
    → let (r, w') = process_task env inputs payload w in
      Ending env.codec inputs payload w.backends r w'
process_task-Ending env inputs payload w runs fresh =
    let job = new_job inputs.new_id payload in
    subst (λ r. Ending env.codec inputs payload w.backends r.0 r.1)
      (sym (process_task_created env inputs payload w (runs w.db_calls)))
      ((load-Leads env runs inputs payload w.backends w.now).at (created_world env job w)
        (get_by_id-create w.now job w.db.log_jobs fresh, refl))

-- ===== src/Worker/Expire.antt =====
-- LogExpireProcessor of internal/worker/worker.go: ProcessTask, from the parsed payload.
pub mod Retention
pub mod Marks
pub mod Complete
use rainlogs.Prelude.{Bool, List, [], ◌∷◌, if◌then◌else◌, is_empty, codes, ℕ}
use rainlogs.Models.{LogJob}
use rainlogs.Db.LogJobs
use rainlogs.Queue.{LogExpirePayload}
use rainlogs.Exec.{
  Env, Db, Exec, pure, raise, in_context, on_error, ignoring, db_query, db_exec, delete_object,
}

module _ (env : Env) where
  abbrev pub expire : LogJob → Db → ℕ → Db
  expire job d now = record d { log_jobs = LogJobs.mark_expired now job.id d.log_jobs }

  -- The loop. An object that cannot be deleted keeps its job; a failing update is only logged.
  unfoldable pub expire_jobs : List LogJob → Exec (Unit {0})
  expire_jobs [] = pure tt
  expire_jobs (job ∷ jobs) =
      let rest = expire_jobs jobs in
      let marked = ignoring (db_exec env (expire job)) rest in
      if is_empty job.s3_key
      then marked
      else on_error (delete_object env job.s3_key) (λ e. rest) (λ _. marked)

  -- ProcessTask
  unfoldable pub process_task : LogExpirePayload → Exec (Unit {0})
  process_task payload =
      on_error
        (in_context (codes "list expired jobs") (
          db_query env λ d now.
            LogJobs.list_expired now payload.customer_id payload.retention_days d.log_jobs))
        raise expire_jobs

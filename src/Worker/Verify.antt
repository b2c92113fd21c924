-- ===== src/Worker/Verify.antt =====
-- LogVerifyProcessor of internal/worker/worker.go: ProcessTask, from the parsed payload.
pub mod Soundness
use rainlogs.Prelude.{Bool, ◌||◌, not, if◌then◌else◌, ◌++◌, Bytes, codes, bytes_eq, is_empty, ℕ}
use rainlogs.Models.{LogJob}
use rainlogs.Hex.{encode}
use rainlogs.GoError.{GoError, text}
use rainlogs.Db.LogJobs
use rainlogs.Exec.{
  Env, Db, Exec, pure, raise, in_context, on_error, ignoring, db_query_row, db_exec, get_logs,
}

abbrev pub hash_mismatch : Bytes → Bytes → GoError
hash_mismatch expected got =
    text (codes "hash mismatch: expected " ++ (expected ++ (codes ", got " ++ got)))

module _ (env : Env) where
  abbrev pub mark : LogJob → Db → ℕ → Db
  mark job d now = record d { log_jobs = LogJobs.mark_verified now job.id d.log_jobs }

  -- A failure to write verified_at is only logged.
  unfoldable pub compare_hash : LogJob → Bytes → Exec (Unit {0})
  compare_hash job logs =
      let computed = encode (env.codec.sha256 logs) in
      if not (bytes_eq computed job.sha256)
      then raise (hash_mismatch job.sha256 computed)
      else ignoring (db_exec env (mark job)) (pure tt)

  unfoldable pub verify_job : LogJob → Exec (Unit {0})
  verify_job job =
      if is_empty job.s3_key || is_empty job.sha256
      then raise (text (codes "job missing s3 key or hash"))
      else on_error (in_context (codes "s3 download") (get_logs env job.s3_key)) raise
          (compare_hash job)

  -- ProcessTask
  unfoldable pub process_task : ℕ → Exec (Unit {0})
  process_task job_id =
      on_error
        (in_context (codes "get job")
          (db_query_row env (λ d _. LogJobs.get_by_id job_id d.log_jobs)))
        raise verify_job

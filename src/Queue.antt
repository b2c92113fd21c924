-- ===== src/Queue.antt =====
-- internal/queue/queue.go and queue_export.go: the tasks that the services exchange over Redis.
--
-- A payload is kept as the value that `json.Marshal` writes and the worker's Parse function reads
-- back. What asynq keeps is the list of the tasks that were enqueued, with the options that the
-- program sets.
use rainlogs.Prelude.{
  ℕ, Bool, true, false, Option, none, some, List, [], ◌∷◌, if◌then◌else◌, Bytes, bytes_eq,
}

pub record LogPullPayload : Type 0 where
  pub zone_id : ℕ
  pub customer_id : ℕ
  pub period_start : ℕ
  pub period_end : ℕ

pub record LogExpirePayload : Type 0 where
  pub customer_id : ℕ
  pub retention_days : ℕ

-- SecurityPollPayload has the fields of LogPullPayload.
pub data Payload : Type 0 where
  log_pull : LogPullPayload → Payload
  security_poll : LogPullPayload → Payload
  log_verify : (job_id : ℕ) → Payload
  log_expire : LogExpirePayload → Payload
  log_export : (export_id : ℕ) → Payload

pub data QueueName : Type 0 where
  critical default low : QueueName

pub record Task : Type 0 where
  pub payload : Payload
  pub queue : QueueName
  pub max_retry : Option ℕ

unfoldable pub new_log_pull_task : LogPullPayload → Task
new_log_pull_task p = record { payload = log_pull p; queue = default; max_retry = none }

unfoldable pub new_security_poll_task : LogPullPayload → Task
new_security_poll_task p = record { payload = security_poll p; queue = default; max_retry = none }

unfoldable pub new_log_verify_task : ℕ → Task
new_log_verify_task job_id = record { payload = log_verify job_id; queue = low; max_retry = none }

unfoldable pub new_log_expire_task : LogExpirePayload → Task
new_log_expire_task p = record { payload = log_expire p; queue = low; max_retry = none }

unfoldable pub new_log_export_task : ℕ → Task
new_log_export_task export_id = record {
  payload = log_export export_id;
  queue = low;
  max_retry = some 3;
}

-- A task in Redis, with the identifier that the program gave it, if any.
pub record Entry : Type 0 where
  pub task : Task
  pub task_id : Option Bytes

abbrev pub same_id : Bytes → Option Bytes → Bool
same_id id none = false
same_id id (some other) = bytes_eq other id

-- asynq.ErrTaskIDConflict: a task with this identifier is already there.
unfoldable pub has_task_id : Bytes → List Entry → Bool
has_task_id id [] = false
has_task_id id (e ∷ es) = if same_id id e.task_id then true else has_task_id id es
